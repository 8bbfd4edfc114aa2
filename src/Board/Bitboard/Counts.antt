-- ===== src/Board/Bitboard/Counts.antt =====
-- Counting the positions of a set, and comparing sets.
use proof_cost_network.Base.{
  ℕ, zero, suc, ◌≤◌, ◌<◌, ◌≡◌, refl, sym, ◌∙◌, ap, Bool, true, false, [], ◌∷◌, length, arith,
  true≢false,
}
use proof_cost_network.Board.Bitboard.{Bitboard, bit_is_on, set_bit_off, bit_count, is_empty, equal}

pub bit_count-le : (b : Bitboard) → bit_count b ≤ length b
unfolding bit_count
bit_count-le [] = omega arith
bit_count-le (true ∷ b) = omega (arith, bit_count-le b)
bit_count-le (false ∷ b) = omega (arith, bit_count-le b)

pub equal→≡ : (b c : Bitboard) → equal b c ≡ true → b ≡ c
unfolding equal
equal→≡ [] [] h = refl
equal→≡ [] (y ∷ c) h = cc
equal→≡ (x ∷ b) [] h = cc
equal→≡ (true ∷ b) (true ∷ c) h = ap (λ r. true ∷ r) (equal→≡ b c h)
equal→≡ (true ∷ b) (false ∷ c) h = cc
equal→≡ (false ∷ b) (true ∷ c) h = cc
equal→≡ (false ∷ b) (false ∷ c) h = ap (λ r. false ∷ r) (equal→≡ b c h)

abbrev pub Below : Bitboard → Bitboard → Type 0
Below b c = (p : ℕ) → bit_is_on b p ≡ true → bit_is_on c p ≡ true

Below-tail : (x y : Bool) (b c : Bitboard) → Below (x ∷ b) (y ∷ c) → Below b c
Below-tail x y b c h p on = h (suc p) on

pub bit_count_mono : (b c : Bitboard) → length b ≡ length c → Below b c → bit_count b ≤ bit_count c
unfolding bit_count
bit_count_mono [] c same h = omega arith
bit_count_mono (x ∷ b) [] same h = absurd (omega (arith, same))
bit_count_mono (true ∷ b) (true ∷ c) same h =
    omega (arith, bit_count_mono b c (omega (arith, same)) (Below-tail true true b c h))
bit_count_mono (true ∷ b) (false ∷ c) same h = absurd (true≢false (sym (h 0 refl)))
bit_count_mono (false ∷ b) (true ∷ c) same h =
    omega (arith, bit_count_mono b c (omega (arith, same)) (Below-tail false true b c h))
bit_count_mono (false ∷ b) (false ∷ c) same h =
    omega (arith, bit_count_mono b c (omega (arith, same)) (Below-tail false false b c h))

-- A larger set that is another one has more positions.
pub bit_count-strict :
    (b c : Bitboard)
    → length b ≡ length c
    → Below b c
    → equal b c ≡ false
    → bit_count b < bit_count c
unfolding bit_count equal
bit_count-strict [] [] same h differ = cc
bit_count-strict [] (y ∷ c) same h differ = absurd (omega (arith, same))
bit_count-strict (x ∷ b) [] same h differ = absurd (omega (arith, same))
bit_count-strict (true ∷ b) (true ∷ c) same h differ =
    omega (arith, bit_count-strict b c (omega (arith, same)) (Below-tail true true b c h) differ)
bit_count-strict (true ∷ b) (false ∷ c) same h differ = absurd (true≢false (sym (h 0 refl)))
bit_count-strict (false ∷ b) (true ∷ c) same h differ =
    omega (arith, bit_count_mono b c (omega (arith, same)) (Below-tail false true b c h))
bit_count-strict (false ∷ b) (false ∷ c) same h differ =
    omega (arith, bit_count-strict b c (omega (arith, same)) (Below-tail false false b c h) differ)

pub bit_count-pos : (b : Bitboard) (p : ℕ) → bit_is_on b p ≡ true → 0 < bit_count b
unfolding bit_count
bit_count-pos [] p h = cc
bit_count-pos (true ∷ b) p h = omega arith
bit_count-pos (false ∷ b) zero h = cc
bit_count-pos (false ∷ b) (suc p) h = omega (arith, bit_count-pos b p h)

-- Two sets with the same positions are one.
pub ext : (b c : Bitboard) → length b ≡ length c → ((p : ℕ) → bit_is_on b p ≡ bit_is_on c p) → b ≡ c
ext [] [] same h = refl
ext [] (y ∷ c) same h = absurd (omega (arith, same))
ext (x ∷ b) [] same h = absurd (omega (arith, same))
ext (x ∷ b) (y ∷ c) same h =
    ap (λ (z : Bool). z ∷ b) (h 0)
    ∙ ap (λ r. y ∷ r) (ext b c (omega (arith, same)) (λ p. h (suc p)))

-- Switching a bit off takes one from the count.
pub bit_count-set_bit_off :
    (b : Bitboard) (p : ℕ) → bit_is_on b p ≡ true → bit_count b ≡ suc (bit_count (set_bit_off p b))
unfolding bit_count set_bit_off
bit_count-set_bit_off [] p h = cc
bit_count-set_bit_off (true ∷ b) zero h = omega arith
bit_count-set_bit_off (false ∷ b) zero h = cc
bit_count-set_bit_off (x ∷ b) (suc p) h = omega (arith, bit_count-set_bit_off b p h)

pub is_empty-clear : (b : Bitboard) → ((p : ℕ) → bit_is_on b p ≡ false) → is_empty b ≡ true
unfolding is_empty
is_empty-clear [] h = refl
is_empty-clear (true ∷ b) h = absurd (true≢false (h 0))
is_empty-clear (false ∷ b) h = is_empty-clear b (λ p. h (suc p))

pub is_empty_off : (b : Bitboard) (p : ℕ) → is_empty b ≡ true → bit_is_on b p ≡ false
unfolding is_empty
is_empty_off [] p h = refl
is_empty_off (true ∷ b) p h = cc
is_empty_off (false ∷ b) zero h = refl
is_empty_off (false ∷ b) (suc p) h = is_empty_off b p h

pub some_bit : (b : Bitboard) → is_empty b ≡ false → (p : ℕ) × (bit_is_on b p ≡ true)
unfolding is_empty
some_bit [] h = cc
some_bit (true ∷ b) h = (0, refl)
some_bit (false ∷ b) h = let (p, on) = some_bit b h in (suc p, on)
