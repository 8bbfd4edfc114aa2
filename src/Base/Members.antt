-- ===== src/Base/Members.antt =====
-- Members of lists of numbers, and lists without repetition.
use Prim.Native.Nat.{ℕ}
use mathlib.Core.Path.{◌≡◌, refl, sym}
use mathlib.Core.Logic.{◌⊎◌, inl, inr}
use mathlib.Core.List.{List, [], ◌∷◌, ◌++◌}

abbrev pub In : List ℕ → ℕ → Type 0
In [] i = ⊥
In (j ∷ js) i = (i ≡ j) ⊎ In js i

abbrev pub Distinct : List ℕ → Type 0
Distinct [] = Unit
Distinct (j ∷ js) = ¬ In js j × Distinct js

pub In-append : (xs : List ℕ) (i j : ℕ) → In (xs ++ i ∷ []) j → (j ≡ i) ⊎ In xs j
In-append [] i j (inl e) = inl e
In-append [] i j (inr h) = elim h [ ]
In-append (x ∷ xs) i j (inl e) = inr (inl e)
In-append (x ∷ xs) i j (inr h) = elim (In-append xs i j h) [ inl e ↦ inl e | inr k ↦ inr (inr k) ]

pub In-old : (xs : List ℕ) (i j : ℕ) → In xs j → In (xs ++ i ∷ []) j
In-old [] i j h = elim h [ ]
In-old (x ∷ xs) i j (inl e) = inl e
In-old (x ∷ xs) i j (inr h) = inr (In-old xs i j h)

pub In-added : (xs : List ℕ) (i : ℕ) → In (xs ++ i ∷ []) i
In-added [] i = inl refl
In-added (x ∷ xs) i = inr (In-added xs i)

pub Distinct-append : (xs : List ℕ) (i : ℕ) → ¬ In xs i → Distinct xs → Distinct (xs ++ i ∷ [])
Distinct-append [] i new d = (λ h. h, tt)
Distinct-append (x ∷ xs) i new (h, d) = (
  λ k. elim (In-append xs i x k) [ inl e ↦ new (inl (sym e)) | inr old ↦ h old ],
  Distinct-append xs i (λ k. new (inr k)) d,
)
