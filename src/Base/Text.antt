-- ===== src/Base/Text.antt =====
-- Text as the list of its bytes: decimal numbers, upper case, comparison, and `atoi`.
use Prim.Native.Nat.{ℕ, zero, suc, ◌+◌, ◌-◌, ◌*◌, ◌/◌, ◌%◌, ◌^◌, ◌<◌}
use mathlib.Core.Path.{◌≡◌, refl, ◌∙◌}
use mathlib.Core.Logic.{inl, inr}
use mathlib.Core.Bool.{Bool, true, false, ◌&&◌, ◌||◌}
use mathlib.Core.List.{List, [], ◌∷◌, ◌++◌, map}
use native.Mathlib.Omega.{arith}
use proof_cost_network.Base.Tests.{ltb, leb, ◌==◌, if◌then◌else◌, Bool-cases, ltb→le}

abbrev pub Text : Type 0
Text = List ℕ

abbrev pub is_digit : ℕ → Bool
is_digit c = leb b'0' c && leb c b'9'

abbrev pub is_lower : ℕ → Bool
is_lower c = leb b'a' c && leb c b'z'

abbrev pub is_upper : ℕ → Bool
is_upper c = leb b'A' c && leb c b'Z'

-- `toupper` in the C locale.
unfoldable pub to_upper : ℕ → ℕ
to_upper c = if is_lower c then c - 32 else c

unfoldable pub equal : Text → Text → Bool
equal [] [] = true
equal [] (d ∷ t) = false
equal (c ∷ s) [] = false
equal (c ∷ s) (d ∷ t) = c == d && equal s t

-- `to_string` of a number that is not negative; the fuel is more than its digits.
decimal : ℕ → ℕ → Text
decimal zero n = []
decimal (suc fuel) n =
    let rest = decimal fuel (n / 10) in
    if ltb n 10 then (b'0' + n) ∷ [] else rest ++ (b'0' + n % 10) ∷ []

unfoldable pub to_string : ℕ → Text
unfolding decimal
to_string n = decimal (suc n) n

-- The leading digits of a text.
digits_value : ℕ → Text → ℕ
digits_value acc [] = acc
digits_value acc (c ∷ s) = if is_digit c then digits_value (acc * 10 + (c - b'0')) s else acc

-- A space, or one of the five control characters from the tabulator on.
abbrev pub is_space : ℕ → Bool
is_space c = (c == 32) || (leb 9 c && leb c 13)

-- A sign and the digits after it; a negative number is its residue modulo 2^32.
signed_value : Text → ℕ
unfolding digits_value
signed_value [] = 0
signed_value (c ∷ s) =
    if c == b'-'
    then (2 ^ 32 - digits_value 0 s % 2 ^ 32) % 2 ^ 32
    else if c == b'+'
    then digits_value 0 s
    else digits_value 0 (c ∷ s)

-- White space, a sign and digits. A number that is too large for an `int` is not reduced.
unfoldable pub atoi : Text → ℕ
unfolding signed_value
atoi [] = 0
atoi (c ∷ s) = let rest = atoi s in if is_space c then rest else signed_value (c ∷ s)

pub equal→≡ : (s t : Text) → equal s t ≡ true → s ≡ t
unfolding equal
equal→≡ [] [] h = refl
equal→≡ [] (d ∷ t) h = cc
equal→≡ (c ∷ s) [] h = cc
equal→≡ (c ∷ s) (d ∷ t) h = ground (arith, h, equal→≡ s t)

pub equal_self : (s : Text) → equal s s ≡ true
unfolding equal
equal_self [] = refl
equal_self (c ∷ s) = ground (arith, equal_self s)

abbrev pub AllDigits : Text → Type 0
AllDigits [] = Unit
AllDigits (c ∷ s) = (is_digit c ≡ true) × AllDigits s

AllDigits-append : (s t : Text) → AllDigits s → AllDigits t → AllDigits (s ++ t)
AllDigits-append [] t hs ht = ht
AllDigits-append (c ∷ s) t hs ht = (hs.0, AllDigits-append s t hs.1 ht)

digits_value-append :
    (acc : ℕ) (s : Text) (d : ℕ)
    → AllDigits s
    → d < 10
    → digits_value acc (s ++ (b'0' + d) ∷ []) ≡ digits_value acc s * 10 + d
unfolding digits_value
digits_value-append acc [] d hs hd = ground (arith, hd)
digits_value-append acc (c ∷ s) d hs hd =
    rw hs.0 (digits_value-append (acc * 10 + (c - b'0')) s d hs.1 hd)

decimal-AllDigits : (fuel n : ℕ) → AllDigits (decimal fuel n)
unfolding decimal
decimal-AllDigits zero n = tt
decimal-AllDigits (suc fuel) n = elim (Bool-cases (ltb n 10)) [
  | inl small ↦ rw small (ground (arith, small), tt)
  | inr large ↦ rw large (
      AllDigits-append (decimal fuel (n / 10)) _ (decimal-AllDigits fuel (n / 10))
        (ground arith, tt))
]

digits_value-decimal : (fuel n : ℕ) → n < fuel → digits_value 0 (decimal fuel n) ≡ n
unfolding decimal digits_value
digits_value-decimal zero n h = absurd (omega (arith, h))
digits_value-decimal (suc fuel) n h = elim (Bool-cases (ltb n 10)) [
  | inl small ↦ rw small (ground (arith, small))
  | inr large ↦ rw large (
      digits_value-append 0 (decimal fuel (n / 10)) (n % 10) (decimal-AllDigits fuel (n / 10))
        (omega arith)
      ∙ omega (arith, digits_value-decimal fuel (n / 10) (omega (arith, h, ltb→le n 10 large))))
]

digit_facts :
    (c : ℕ)
    → is_digit c ≡ true
    → (is_space c ≡ false) × ((c == b'-') ≡ false) × ((c == b'+') ≡ false)
digit_facts c h = (ground (arith, h), ground (arith, h), ground (arith, h))

atoi_digits : (s : Text) → AllDigits s → atoi s ≡ digits_value 0 s
unfolding atoi signed_value digits_value
atoi_digits [] h = refl
atoi_digits (c ∷ s) h =
    let (no_space, no_minus, no_plus) = digit_facts c h.0 in
    rw (no_space, atoi) (rw (no_minus, no_plus, signed_value) refl)

-- A number is read back from its decimal text.
pub atoi-to_string : (n : ℕ) → atoi (to_string n) ≡ n
unfolding to_string
atoi-to_string n =
    atoi_digits (decimal (suc n) n) (decimal-AllDigits (suc n) n)
    ∙ digits_value-decimal (suc n) n (omega arith)

pub to_string-AllDigits : (n : ℕ) → AllDigits (to_string n)
unfolding to_string
to_string-AllDigits n = decimal-AllDigits (suc n) n

-- Digits have no upper case, and are no letters.
pub map-to_upper_digits : (s : Text) → AllDigits s → map to_upper s ≡ s
unfolding to_upper
map-to_upper_digits [] h = refl
map-to_upper_digits (c ∷ s) h = ground (arith, h.0, map-to_upper_digits s h.1)

pub digits_differ :
    (s t : Text) (c : ℕ) → AllDigits s → is_digit c ≡ false → equal s (c ∷ t) ≡ false
unfolding equal
digits_differ [] t c h letter = refl
digits_differ (d ∷ s) t c h letter = ground (arith, h.0, letter)
