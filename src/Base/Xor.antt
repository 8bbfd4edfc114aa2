-- ===== src/Base/Xor.antt =====
-- The exclusive or of keys is associative and commutative, 0 is neutral, and each key is its own inverse.
use Prim.Native.Nat.{
  ℕ, zero, suc, ◌+◌, ◌*◌, ◌/◌, ◌%◌, ◌≤◌, ◌<◌, bit_xor, digits, differ, bit_xor-bitwise,
}
use mathlib.Core.Path.{◌≡◌, refl, sym, ◌∙◌, ap}
use native.Mathlib.Omega.{arith}

abbrev xor_digits : ℕ → ℕ → ℕ → ℕ
xor_digits n a b = digits (λ b. b) differ n a b

xor_digits_fuel : (n m a b : ℕ) → a ≤ n → a ≤ m → xor_digits n a b ≡ xor_digits m a b
xor_digits_fuel zero zero a b p q = refl
xor_digits_fuel zero (suc m) zero b p q = refl
xor_digits_fuel zero (suc m) (suc a) b p q = absurd (omega arith)
xor_digits_fuel (suc n) zero zero b p q = refl
xor_digits_fuel (suc n) zero (suc a) b p q = absurd (omega arith)
xor_digits_fuel (suc n) (suc m) zero b p q = refl
xor_digits_fuel (suc n) (suc m) (suc a) b p q =
    omega (arith, xor_digits_fuel n m (suc a / 2) (b / 2) (omega arith) (omega arith))

pub zero_bit_xor : (b : ℕ) → bit_xor 0 b ≡ b
zero_bit_xor b = bit_xor-bitwise 0 b

bit_xor_step : (a b : ℕ) → bit_xor a b ≡ bit_xor (a / 2) (b / 2) * 2 + differ (a % 2) (b % 2)
bit_xor_step zero b = omega (arith, zero_bit_xor b, zero_bit_xor (b / 2))
bit_xor_step (suc a) b = omega (
  arith,
  bit_xor-bitwise (suc a) b,
  bit_xor-bitwise (suc a / 2) (b / 2),
  xor_digits_fuel a (suc a / 2) (suc a / 2) (b / 2) (omega arith) (omega arith),
)

differ_comm : (x y : ℕ) → differ x y ≡ differ y x
differ_comm zero zero = refl
differ_comm zero (suc y) = refl
differ_comm (suc x) zero = refl
differ_comm (suc x) (suc y) = differ_comm x y

differ_lt : (x y : ℕ) → x < 2 → y < 2 → differ x y < 2
differ_lt zero y p q = q
differ_lt (suc zero) zero p q = omega arith
differ_lt (suc zero) (suc zero) p q = omega arith
differ_lt (suc zero) (suc (suc y)) p q = absurd (omega (arith, q))
differ_lt (suc (suc x)) y p q = absurd (omega (arith, p))

differ_assoc : (x y z : ℕ) → x < 2 → y < 2 → z < 2 → differ (differ x y) z ≡ differ x (differ y z)
differ_assoc zero y z p q r = refl
differ_assoc (suc zero) zero z p q r = refl
differ_assoc (suc zero) (suc zero) zero p q r = refl
differ_assoc (suc zero) (suc zero) (suc zero) p q r = refl
differ_assoc (suc zero) (suc zero) (suc (suc z)) p q r = absurd (omega (arith, r))
differ_assoc (suc zero) (suc (suc y)) z p q r = absurd (omega (arith, q))
differ_assoc (suc (suc x)) y z p q r = absurd (omega (arith, p))

comm_below : (n a b : ℕ) → a ≤ n → b ≤ n → bit_xor a b ≡ bit_xor b a
comm_below zero zero zero p q = refl
comm_below zero zero (suc b) p q = absurd (omega (arith, q))
comm_below zero (suc a) b p q = absurd (omega (arith, p))
comm_below (suc n) a b p q = omega (
  arith,
  bit_xor_step a b,
  bit_xor_step b a,
  comm_below n (a / 2) (b / 2) (omega (arith, p)) (omega (arith, q)),
  differ_comm (a % 2) (b % 2),
)

pub bit_xor_comm : (a b : ℕ) → bit_xor a b ≡ bit_xor b a
bit_xor_comm a b = comm_below (a + b) a b (omega arith) (omega arith)

halves :
    (a b : ℕ)
    → (bit_xor a b / 2 ≡ bit_xor (a / 2) (b / 2)) × (bit_xor a b % 2 ≡ differ (a % 2) (b % 2))
halves a b =
    let step = bit_xor_step a b in
    let small = differ_lt (a % 2) (b % 2) (omega arith) (omega arith) in
    (omega (arith, step, small), omega (arith, step, small))

assoc_below :
    (n a b c : ℕ) → a ≤ n → b ≤ n → c ≤ n → bit_xor (bit_xor a b) c ≡ bit_xor a (bit_xor b c)
assoc_below zero zero b c p q r = rw (zero_bit_xor b, zero_bit_xor (bit_xor b c)) refl
assoc_below zero (suc a) b c p q r = absurd (omega (arith, p))
assoc_below (suc n) a b c p q r =
    let (h, l) = halves a b in
    let (h', l') = halves b c in
    let high : bit_xor (bit_xor a b / 2) (c / 2) ≡ bit_xor (a / 2) (bit_xor b c / 2) =
      ap (λ x. bit_xor x (c / 2)) h
      ∙ assoc_below n (a / 2) (b / 2) (c / 2) (omega (arith, p)) (omega (arith, q))
          (omega (arith, r))
      ∙ ap (bit_xor (a / 2)) (sym h') in
    let low : differ (bit_xor a b % 2) (c % 2) ≡ differ (a % 2) (bit_xor b c % 2) =
      ap (λ x. differ x (c % 2)) l
      ∙ differ_assoc (a % 2) (b % 2) (c % 2) (omega arith) (omega arith) (omega arith)
      ∙ ap (differ (a % 2)) (sym l') in
    omega (arith, bit_xor_step (bit_xor a b) c, bit_xor_step a (bit_xor b c), high, low)

pub bit_xor_assoc : (a b c : ℕ) → bit_xor (bit_xor a b) c ≡ bit_xor a (bit_xor b c)
bit_xor_assoc a b c = assoc_below (a + b + c) a b c (omega arith) (omega arith) (omega arith)

differ_self : (x : ℕ) → differ x x ≡ 0
differ_self zero = refl
differ_self (suc x) = differ_self x

self_below : (n a : ℕ) → a ≤ n → bit_xor a a ≡ 0
self_below zero zero p = zero_bit_xor 0
self_below zero (suc a) p = absurd (omega (arith, p))
self_below (suc n) a p =
    omega (arith, bit_xor_step a a, self_below n (a / 2) (omega (arith, p)), differ_self (a % 2))

-- The same number twice changes nothing.
pub bit_xor_twice : (a b : ℕ) → bit_xor (bit_xor a b) b ≡ a
bit_xor_twice a b =
    bit_xor_assoc a b b
    ∙ ap (bit_xor a) (self_below b b (omega arith))
    ∙ bit_xor_comm a 0
    ∙ zero_bit_xor a
