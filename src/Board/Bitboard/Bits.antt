-- ===== src/Board/Bitboard/Bits.antt =====
-- What the operations on bits do to each position.
use proof_cost_network.Base.{
  ℕ, zero, suc, ◌+◌, ◌≤◌, ◌<◌, ◌≡◌, refl, sym, ◌∙◌, ap, Bool, true, false, not, ◌&&◌, ◌||◌, [], ◌∷◌,
  ◌++◌, length, replicate, ◌==◌, arith, pop_back, length-set, length-append, length-replicate,
  get_or-replicate, ltb, inl, inr, Bool-cases, ltb→lt, ltb→le,
}
use proof_cost_network.Board.Bitboard.{
  Bitboard, bit_is_on, reset, set_bit_on, set_bit_off, one_hot, zip_bits, ◌∪◌, ◌∩◌, ◌∖◌, complement,
  shift_right, shift_left,
}

-- Reading.

pub bit_is_on_inside : (b : Bitboard) (p : ℕ) → bit_is_on b p ≡ true → p < length b
bit_is_on_inside [] p h = cc
bit_is_on_inside (x ∷ b) zero h = omega arith
bit_is_on_inside (x ∷ b) (suc p) h = omega (arith, bit_is_on_inside b p h)

pub bit_is_on-reset : (bits p : ℕ) → bit_is_on (reset bits) p ≡ false
unfolding reset
bit_is_on-reset bits p = get_or-replicate bits p false

pub bit_is_on-set_bit_on :
    (b : Bitboard) (p q : ℕ)
    → bit_is_on (set_bit_on p b) q ≡ ((p == q && ltb p (length b)) || bit_is_on b q)
unfolding set_bit_on
bit_is_on-set_bit_on [] p q = ground (arith)
bit_is_on-set_bit_on (x ∷ b) zero zero = ground (arith)
bit_is_on-set_bit_on (x ∷ b) zero (suc q) = ground (arith)
bit_is_on-set_bit_on (x ∷ b) (suc p) zero = ground (arith)
bit_is_on-set_bit_on (x ∷ b) (suc p) (suc q) = ground (arith, bit_is_on-set_bit_on b p q)

pub bit_is_on-set_bit_off :
    (b : Bitboard) (p q : ℕ) → bit_is_on (set_bit_off p b) q ≡ (not (p == q) && bit_is_on b q)
unfolding set_bit_off
bit_is_on-set_bit_off [] p q = ground (arith)
bit_is_on-set_bit_off (x ∷ b) zero zero = ground (arith)
bit_is_on-set_bit_off (x ∷ b) zero (suc q) = ground (arith)
bit_is_on-set_bit_off (x ∷ b) (suc p) zero = ground (arith)
bit_is_on-set_bit_off (x ∷ b) (suc p) (suc q) = ground (arith, bit_is_on-set_bit_off b p q)

pub bit_is_on-one_hot : (bits p q : ℕ) → bit_is_on (one_hot bits p) q ≡ (p == q && ltb p bits)
unfolding one_hot reset
bit_is_on-one_hot bits p q = ground (
  arith,
  bit_is_on-set_bit_on (replicate bits false) p q,
  get_or-replicate bits q false,
  length-replicate bits false,
)

bit_is_on-zip_bits :
    (f : Bool → Bool → Bool)
    → f false false ≡ false
    → (b c : Bitboard) (p : ℕ) → bit_is_on (zip_bits f b c) p ≡ f (bit_is_on b p) (bit_is_on c p)
unfolding zip_bits
bit_is_on-zip_bits f off [] [] p = sym off
bit_is_on-zip_bits f off [] (y ∷ c) zero = refl
bit_is_on-zip_bits f off [] (y ∷ c) (suc p) = bit_is_on-zip_bits f off [] c p
bit_is_on-zip_bits f off (x ∷ b) [] zero = refl
bit_is_on-zip_bits f off (x ∷ b) [] (suc p) = bit_is_on-zip_bits f off b [] p
bit_is_on-zip_bits f off (x ∷ b) (y ∷ c) zero = refl
bit_is_on-zip_bits f off (x ∷ b) (y ∷ c) (suc p) = bit_is_on-zip_bits f off b c p

pub bit_is_on-union :
    (b c : Bitboard) (p : ℕ) → bit_is_on (b ∪ c) p ≡ (bit_is_on b p || bit_is_on c p)
unfolding ◌∪◌
bit_is_on-union b c p = bit_is_on-zip_bits (λ x y. x || y) refl b c p

pub bit_is_on-intersection :
    (b c : Bitboard) (p : ℕ) → bit_is_on (b ∩ c) p ≡ (bit_is_on b p && bit_is_on c p)
unfolding ◌∩◌
bit_is_on-intersection b c p = bit_is_on-zip_bits (λ x y. x && y) refl b c p

pub bit_is_on-difference :
    (b c : Bitboard) (p : ℕ) → bit_is_on (b ∖ c) p ≡ (bit_is_on b p && not (bit_is_on c p))
unfolding ◌∖◌
bit_is_on-difference b c p = bit_is_on-zip_bits (λ x y. x && not y) refl b c p

pub bit_is_on-complement :
    (b : Bitboard) (p : ℕ) → p < length b → bit_is_on (complement b) p ≡ not (bit_is_on b p)
unfolding complement
bit_is_on-complement [] p h = absurd (omega (arith, h))
bit_is_on-complement (x ∷ b) zero h = refl
bit_is_on-complement (x ∷ b) (suc p) h = bit_is_on-complement b p (omega (arith, h))

-- Lengths.

length-zip_bits :
    (f : Bool → Bool → Bool) (b c : Bitboard)
    → length b ≡ length c
    → length (zip_bits f b c) ≡ length b
unfolding zip_bits
length-zip_bits f [] [] h = refl
length-zip_bits f [] (y ∷ c) h = absurd (omega (arith, h))
length-zip_bits f (x ∷ b) [] h = absurd (omega (arith, h))
length-zip_bits f (x ∷ b) (y ∷ c) h = omega (arith, length-zip_bits f b c (omega (arith, h)))

pub length-union : (b c : Bitboard) → length b ≡ length c → length (b ∪ c) ≡ length b
unfolding ◌∪◌
length-union b c h = length-zip_bits (λ x y. x || y) b c h

pub length-intersection : (b c : Bitboard) → length b ≡ length c → length (b ∩ c) ≡ length b
unfolding ◌∩◌
length-intersection b c h = length-zip_bits (λ x y. x && y) b c h

pub length-difference : (b c : Bitboard) → length b ≡ length c → length (b ∖ c) ≡ length b
unfolding ◌∖◌
length-difference b c h = length-zip_bits (λ x y. x && not y) b c h

pub length-complement : (b : Bitboard) → length (complement b) ≡ length b
unfolding complement
length-complement [] = refl
length-complement (x ∷ b) = ap suc (length-complement b)

pub length-reset : (bits : ℕ) → length (reset bits) ≡ bits
unfolding reset
length-reset bits = length-replicate bits false

pub length-set_bit_on : (p : ℕ) (b : Bitboard) → length (set_bit_on p b) ≡ length b
unfolding set_bit_on
length-set_bit_on p b = length-set b p true

pub length-set_bit_off : (p : ℕ) (b : Bitboard) → length (set_bit_off p b) ≡ length b
unfolding set_bit_off
length-set_bit_off p b = length-set b p false

pub length-one_hot : (bits p : ℕ) → length (one_hot bits p) ≡ bits
unfolding one_hot reset set_bit_on
length-one_hot bits p = length-set (replicate bits false) p true ∙ length-replicate bits false

-- Shifts.

length-pop_back : (x : Bool) (b : Bitboard) → length (pop_back (x ∷ b)) ≡ length b
length-pop_back x [] = refl
length-pop_back x (y ∷ b) = ap suc (length-pop_back y b)

bit_is_on-pop_back :
    (b : Bitboard) (p : ℕ) → suc p < length b → bit_is_on (pop_back b) p ≡ bit_is_on b p
bit_is_on-pop_back [] p h = absurd (omega (arith, h))
bit_is_on-pop_back (x ∷ []) p h = absurd (omega (arith, h))
bit_is_on-pop_back (x ∷ y ∷ b) zero h = refl
bit_is_on-pop_back (x ∷ y ∷ b) (suc p) h = bit_is_on-pop_back (y ∷ b) p (omega (arith, h))

bit_is_on-append_off : (b : Bitboard) (p : ℕ) → bit_is_on (b ++ false ∷ []) p ≡ bit_is_on b p
bit_is_on-append_off [] zero = refl
bit_is_on-append_off [] (suc p) = refl
bit_is_on-append_off (x ∷ b) zero = refl
bit_is_on-append_off (x ∷ b) (suc p) = bit_is_on-append_off b p

pub length-shift_right : (n : ℕ) (b : Bitboard) → length (shift_right n b) ≡ length b
unfolding shift_right
length-shift_right zero b = refl
length-shift_right (suc n) [] = refl
length-shift_right (suc n) (x ∷ b) =
    omega (arith, length-shift_right n (b ++ false ∷ []), length-append b (false ∷ []))

pub bit_is_on-shift_right :
    (n : ℕ) (b : Bitboard) (p : ℕ) → bit_is_on (shift_right n b) p ≡ bit_is_on b (p + n)
unfolding shift_right
bit_is_on-shift_right zero b p = ap (bit_is_on b) (omega arith)
bit_is_on-shift_right (suc n) [] p = refl
bit_is_on-shift_right (suc n) (x ∷ b) p =
    let e : suc (p + n) ≡ p + suc n = omega arith in
    bit_is_on-shift_right n (b ++ false ∷ []) p
    ∙ bit_is_on-append_off b (p + n)
    ∙ ap (bit_is_on (x ∷ b)) e

pub length-shift_left : (n : ℕ) (b : Bitboard) → length (shift_left n b) ≡ length b
unfolding shift_left
length-shift_left zero b = refl
length-shift_left (suc n) b = length-shift_left n (pop_back (false ∷ b)) ∙ length-pop_back false b

-- One step to the left.
step_left : Bitboard → Bitboard
step_left b = pop_back (false ∷ b)

length-step_left : (b : Bitboard) → length (step_left b) ≡ length b
unfolding step_left
length-step_left b = length-pop_back false b

step_left-suc :
    (b : Bitboard) (p : ℕ) → suc p < length b → bit_is_on (step_left b) (suc p) ≡ bit_is_on b p
unfolding step_left
step_left-suc b p h = bit_is_on-pop_back (false ∷ b) (suc p) (omega (arith, h))

step_left-zero : (b : Bitboard) → bit_is_on (step_left b) 0 ≡ false
unfolding step_left
step_left-zero [] = refl
step_left-zero (x ∷ b) = refl

outside : (b : Bitboard) (p : ℕ) → length b ≤ p → bit_is_on b p ≡ false
outside [] p h = refl
outside (x ∷ b) zero h = absurd (omega (arith, h))
outside (x ∷ b) (suc p) h = outside b p (omega (arith, h))

pub bit_is_on-shift_left :
    (n : ℕ) (b : Bitboard) (p : ℕ)
    → p + n < length b
    → bit_is_on (shift_left n b) (p + n) ≡ bit_is_on b p
unfolding shift_left step_left
bit_is_on-shift_left zero b p h = ap (bit_is_on b) (omega arith)
bit_is_on-shift_left (suc n) b p h =
    let inside : suc p + n < length (step_left b) = omega (arith, length-step_left b, h) in
    ap (bit_is_on (shift_left n (step_left b))) (omega arith)
    ∙ bit_is_on-shift_left n (step_left b) (suc p) inside
    ∙ step_left-suc b p (omega (arith, h))

pub bit_is_on-shift_left_low :
    (n : ℕ) (b : Bitboard) (p : ℕ) → p < n → bit_is_on (shift_left n b) p ≡ false
unfolding shift_left step_left
bit_is_on-shift_left_low zero b p h = absurd (omega (arith, h))
bit_is_on-shift_left_low (suc n) b p h = elim (Bool-cases (ltb p n)) [
  | inl low ↦ bit_is_on-shift_left_low n (step_left b) p (ltb→lt p n low)
  | inr high ↦ elim (Bool-cases (ltb n (length b))) [
    | inl inside ↦
        ap (bit_is_on (shift_left n (step_left b))) (ground (arith, high, h))
        ∙ bit_is_on-shift_left n (step_left b) 0
            (omega (arith, length-step_left b, ltb→lt n (length b) inside))
        ∙ step_left-zero b
    | inr beyond ↦
        outside (shift_left (suc n) b) p
          (omega (arith, length-shift_left (suc n) b, ltb→le n (length b) beyond, ltb→le p n high))
  ]
]

-- Counting.
