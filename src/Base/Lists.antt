-- ===== src/Base/Lists.antt =====
-- Vectors and arrays as lists with native indices.
use Prim.Native.Nat.{ℕ, zero, suc, ◌+◌, ◌<◌}
use mathlib.Core.Path.{◌≡◌, refl, sym, ap, ◌∙◌}
use mathlib.Core.Logic.{◌≢◌, ◌⊎◌, inl, inr}
use mathlib.Core.List.{List, [], ◌∷◌, ◌++◌}
use mathlib.Core.Option.{Option, none, some}
use mathlib.Core.Bool.{true, false}
use native.Mathlib.Omega.{arith}
use proof_cost_network.Base.Tests.{◌==◌, if◌then◌else◌}

module _ {ℓ} {A : Type ℓ} where
  abbrev pub length : List A → ℕ
  length [] = 0
  length (x ∷ xs) = suc (length xs)

  abbrev pub get_or : List A → ℕ → A → A
  get_or [] i d = d
  get_or (x ∷ xs) zero d = x
  get_or (x ∷ xs) (suc i) d = get_or xs i d

  -- A write out of bounds changes nothing.
  abbrev pub set : List A → ℕ → A → List A
  set [] i v = []
  set (x ∷ xs) zero v = v ∷ xs
  set (x ∷ xs) (suc i) v = x ∷ set xs i v

  abbrev pub replicate : ℕ → A → List A
  replicate zero a = []
  replicate (suc n) a = a ∷ replicate n a

  pub length-append : (xs ys : List A) → length (xs ++ ys) ≡ length xs + length ys
  length-append [] ys = omega arith
  length-append (x ∷ xs) ys = omega (arith, length-append xs ys)

  pub length-set : (xs : List A) (i : ℕ) (v : A) → length (set xs i v) ≡ length xs
  length-set [] i v = refl
  length-set (x ∷ xs) zero v = refl
  length-set (x ∷ xs) (suc i) v = ap suc (length-set xs i v)

  pub length-replicate : (n : ℕ) (a : A) → length (replicate n a) ≡ n
  length-replicate zero a = refl
  length-replicate (suc n) a = ap suc (length-replicate n a)

  pub get_or-set_self :
      (xs : List A) (i : ℕ) (v d : A) → i < length xs → get_or (set xs i v) i d ≡ v
  get_or-set_self [] i v d h = elim h [ ]
  get_or-set_self (x ∷ xs) zero v d h = refl
  get_or-set_self (x ∷ xs) (suc i) v d h = get_or-set_self xs i v d (omega arith)

  pub get_or-set_ne :
      (xs : List A) (i j : ℕ) (v d : A) → i ≢ j → get_or (set xs i v) j d ≡ get_or xs j d
  get_or-set_ne [] i j v d h = refl
  get_or-set_ne (x ∷ xs) zero zero v d h = absurd (h refl)
  get_or-set_ne (x ∷ xs) zero (suc j) v d h = refl
  get_or-set_ne (x ∷ xs) (suc i) zero v d h = refl
  get_or-set_ne (x ∷ xs) (suc i) (suc j) v d h = get_or-set_ne xs i j v d (λ e. h (ap suc e))

  pub get_or-set :
      (xs : List A) (i j : ℕ) (v d : A)
      → i < length xs
      → get_or (set xs i v) j d ≡ (if i == j then v else get_or xs j d)
  get_or-set [] i j v d h = elim h [ ]
  get_or-set (x ∷ xs) zero zero v d h = refl
  get_or-set (x ∷ xs) zero (suc j) v d h = ground arith
  get_or-set (x ∷ xs) (suc i) zero v d h = ground arith
  get_or-set (x ∷ xs) (suc i) (suc j) v d h = ground (arith, get_or-set xs i j v d)

  -- A read that is not the default is inside.
  pub get_or-inside : (xs : List A) (i : ℕ) (d v : A) → d ≢ v → get_or xs i d ≡ v → i < length xs
  get_or-inside [] i d v other e = absurd (other e)
  get_or-inside (x ∷ xs) zero d v other e = omega arith
  get_or-inside (x ∷ xs) (suc i) d v other e = omega (arith, get_or-inside xs i d v other e)

  -- A read after a write: the value at its index, or what stood there.
  pub get_or-set_cases :
      (xs : List A) (i j : ℕ) (v d : A)
      → (i ≡ j) × (get_or (set xs i v) j d ≡ v) ⊎ (get_or (set xs i v) j d ≡ get_or xs j d)
  get_or-set_cases [] i j v d = inr refl
  get_or-set_cases (x ∷ xs) zero zero v d = inl (refl, refl)
  get_or-set_cases (x ∷ xs) zero (suc j) v d = inr refl
  get_or-set_cases (x ∷ xs) (suc i) zero v d = inr refl
  get_or-set_cases (x ∷ xs) (suc i) (suc j) v d = elim (get_or-set_cases xs i j v d) [
    | inl (e, h) ↦ inl (ap suc e, h)
    | inr h ↦ inr h
  ]

  pub get_or-replicate : (n i : ℕ) (a : A) → get_or (replicate n a) i a ≡ a
  get_or-replicate zero i a = refl
  get_or-replicate (suc n) zero a = refl
  get_or-replicate (suc n) (suc i) a = get_or-replicate n i a

  -- Writing back what stood there restores the list.
  pub set-set_back :
      (xs : List A) (i : ℕ) (v w d : A)
      → get_or xs i d ≡ w
      → i < length xs
      → set (set xs i v) i w ≡ xs
  set-set_back [] i v w d e h = refl
  set-set_back (x ∷ xs) zero v w d e h = ap (λ y. y ∷ xs) (sym e)
  set-set_back (x ∷ xs) (suc i) v w d e h =
      ap (λ ys. x ∷ ys) (set-set_back xs i v w d e (omega arith))

  -- The last element, and all but the last: `vector::back` and `pop_back`.
  abbrev pub back : List A → A → A
  back [] d = d
  back (x ∷ []) d = x
  back (x ∷ y ∷ ys) d = back (y ∷ ys) d

  abbrev pub pop_back : List A → List A
  pop_back [] = []
  pop_back (x ∷ []) = []
  pop_back (x ∷ y ∷ ys) = x ∷ pop_back (y ∷ ys)

  pub back-append : (xs : List A) (v d : A) → back (xs ++ v ∷ []) d ≡ v
  back-append [] v d = refl
  back-append (x ∷ []) v d = refl
  back-append (x ∷ y ∷ ys) v d = back-append (y ∷ ys) v d

  pub pop_back-append : (xs : List A) (v : A) → pop_back (xs ++ v ∷ []) ≡ xs
  pop_back-append [] v = refl
  pop_back-append (x ∷ []) v = refl
  pop_back-append (x ∷ y ∷ ys) v = ap (λ t. x ∷ t) (pop_back-append (y ∷ ys) v)

-- A step that does not return (a table without end, a null pointer) is `none`.
infixl 5 ◌>>=◌
abbrev pub ◌>>=◌ {ℓ κ} : {A : Type ℓ} {B : Type κ} → Option A → (A → Option B) → Option B
none >>= f = none
some a >>= f = f a

-- Inversion of a step that returned.
pub >>=-eq-some {ℓ κ} :
    {A : Type ℓ} {B : Type κ} (m : Option A) (f : A → Option B) {b : B}
    → (m >>= f) ≡ some b
    → (a : A) × (m ≡ some a) × (f a ≡ some b)
>>=-eq-some none f h = cc
>>=-eq-some (some a) f h = (a, refl, h)

pub some_inj {ℓ} : {A : Type ℓ} {a b : A} → some a ≡ some b → a ≡ b
some_inj h = cc

pub none≢some {ℓ} : {A : Type ℓ} {a : A} → none ≢ some a
none≢some h = cc

pub true≢false : true ≢ false
true≢false h = cc

-- A step that returns something with a property.
abbrev pub Gives {ℓ} : {A : Type ℓ} → Option A → (A → Type 0) → Type ℓ
Gives {A = A} m P = (a : A) × (m ≡ some a) × P a

-- A step that follows one that returned.
pub >>=-Gives {ℓ κ} :
    {A : Type ℓ} {B : Type κ} {P : A → Type 0} {Q : B → Type 0} (m : Option A) (f : A → Option B)
    → Gives m P
    → ((a : A) → P a → Gives (f a) Q)
    → Gives (m >>= f) Q
>>=-Gives m f (a, e, p) next = let (b, run, q) = next a p in (b, ap (λ x. x >>= f) e ∙ run, q)

-- The last element of a list that may be empty.
abbrev pub last_of {ℓ} : {A : Type ℓ} → List A → Option A
last_of [] = none
last_of (x ∷ []) = some x
last_of (x ∷ y ∷ ys) = last_of (y ∷ ys)

pub last_of-append {ℓ} : {A : Type ℓ} (xs : List A) (v : A) → last_of (xs ++ v ∷ []) ≡ some v
last_of-append [] v = refl
last_of-append (x ∷ []) v = refl
last_of-append (x ∷ y ∷ ys) v = last_of-append (y ∷ ys) v
