-- ===== src/Storage/Probing.antt =====
-- Linear probing over a table seen as a partial map from slots to keys.
use native.Mathlib.Nat.{mod-add-mod, mod-eq_of_lt, mod-lt, add-mod_right}
use proof_cost_network.Base.{ℕ, zero, suc, ◌+◌, ◌%◌, ◌<◌, ◌≡◌, ◌≢◌, refl, sym, ◌∙◌, arith}
use proof_cost_network.Base.{
  ap, ◌↔◌, ==_self, ==_ne, ◌-◌, ltb, ltb→lt, ltb→le, ==→≡, ==→≢, Option, none, some, ◌==◌,
  if◌then◌else◌, ◌⊎◌, inl, inr, Option-cases, Bool-cases,
}

abbrev pub View : Type 0
View = ℕ → Option ℕ

-- The slot `d` steps after `i`.
abbrev pub slot : ℕ → ℕ → ℕ → ℕ
slot n i d = (i + d) % n

-- Some slot holds the key.
abbrev pub Member : ℕ → View → ℕ → Type 0
Member n v k = (s : ℕ) × (s < n) × (v s ≡ some k)

-- The slot holds another key.
abbrev pub Passed : View → ℕ → ℕ → Type 0
Passed v k s = (j : ℕ) × (v s ≡ some j) × (j ≢ k)

abbrev pub Taken : View → ℕ → Type 0
Taken v s = (j : ℕ) × (v s ≡ some j)

-- Every stored key is reached from its home slot over taken slots.
abbrev pub IsProbed : ℕ → (ℕ → ℕ) → View → Type 0
IsProbed n home v =
    (s k : ℕ)
    → s < n
    → v s ≡ some k
    → (d : ℕ) × (slot n (home k) d ≡ s) × ((e : ℕ) → e < d → Taken v (slot n (home k) e))

-- A lookup of `k` from slot `i`: the slot that holds it, or `none` at a free slot.
unfoldable pub probe : ℕ → View → ℕ → ℕ → ℕ → Option (Option ℕ)
probe n v k zero i = none
probe n v k (suc fuel) i =
    let rest = probe n v k fuel ((i + 1) % n) in
    elim (v i) [ none ↦ some none | some j ↦ if j == k then some (some i) else rest ]

-- The first free slot from `i` on.
unfoldable pub land : ℕ → View → ℕ → ℕ → Option ℕ
land n v zero i = none
land n v (suc fuel) i =
    let rest = land n v fuel ((i + 1) % n) in elim (v i) [ none ↦ some i | some j ↦ rest ]

-- How a lookup of `k` from slot `i` ends.
pub data Ends (n : ℕ) (v : View) (k i : ℕ) : Option (Option ℕ) → Type 0 where
  hit : (s : ℕ) → s < n → v s ≡ some k → Ends n v k i (some (some s))
  miss :
      (d : ℕ)
      → v (slot n i d) ≡ none
      → ((e : ℕ) → e < d → Passed v k (slot n i e))
      → Ends n v k i (some none)

-- Where a store from slot `i` lands: the first free slot, at the distance `d`.
pub record Lands (n : ℕ) (v : View) (i : ℕ) : Type 0 where
  pub distance : ℕ
  pub free : v (slot n i distance) ≡ none
  pub before : (e : ℕ) → e < distance → Taken v (slot n i e)

-- The view after a write.
abbrev pub write : View → ℕ → ℕ → View
write v s k i = if s == i then some k else v i

some_inj : {a b : ℕ} → some a ≡ some b → a ≡ b
some_inj e = cc

-- The next slot, and the slots counted from there.
pub slot-next : (n i d : ℕ) → slot n ((i + 1) % n) d ≡ slot n i (suc d)
slot-next n i d = mod-add-mod (i + 1) n d ∙ ap (λ (t : ℕ). t % n) (omega arith)

pub slot-zero : (n i : ℕ) → i < n → slot n i 0 ≡ i
slot-zero n i h = rw (mod-eq_of_lt {n = i + 0} {m = n} (omega arith)) (omega arith)

miss_next :
    {n : ℕ} {v : View} {k i j : ℕ} {r : Option (Option ℕ)}
    → i < n
    → v i ≡ some j
    → j ≢ k
    → Ends n v k ((i + 1) % n) r
    → Ends n v k i r
miss_next h e ne (hit s hs es) = hit s hs es
miss_next {n} {v} {k} {i} {j} h e ne (miss d free before) =
    miss (suc d) (rw (← slot-next n i d) free) passed
  where
    passed : (f : ℕ) → f < suc d → Passed v k (slot n i f)
    passed zero hf = (j, rw (slot-zero n i h) e, ne)
    passed (suc f) hf = rw (slot-next n i f) at (before f (omega arith))

Lands-next :
    {n : ℕ} {v : View} {i j : ℕ} → i < n → v i ≡ some j → Lands n v ((i + 1) % n) → Lands n v i
Lands-next {n} {v} {i} {j} h e l = record {
  distance = suc l.distance;
  free = rw (← slot-next n i l.distance) l.free;
  before = taken;
}
  where
    taken : (f : ℕ) → f < suc l.distance → Taken v (slot n i f)
    taken zero hf = (j, rw (slot-zero n i h) e)
    taken (suc f) hf = rw (slot-next n i f) at (l.before f (omega arith))

taken_ne :
    (n : ℕ) (v : View) (i d : ℕ) {j : ℕ} → i < n → v i ≡ some j → v (slot n i d) ≡ none → 0 < d
taken_ne n v i zero hi e free = absurd (cc (slot-zero n i hi, e, free))
taken_ne n v i (suc d) hi e free = omega arith

suc_pred : (d : ℕ) → 0 < d → suc (d - 1) ≡ d
suc_pred d h = omega arith

-- Every slot is at some distance below `n` from every other.
pub distance_of : (n i s : ℕ) → i < n → s < n → (d : ℕ) × (d < n) × (slot n i d ≡ s)
distance_of n i s hi hs = elim (Bool-cases (ltb s i)) [
  | inl before ↦ (
    s + n - i,
    omega (arith, ltb→lt s i before),
    ap (λ (t : ℕ). t % n) (omega (arith, ltb→lt s i before)) ∙ add-mod_right s n ∙ mod-eq_of_lt hs,
  )
  | inr after ↦ (
    s - i,
    omega (arith, ltb→le s i after),
    ap (λ (t : ℕ). t % n) (omega (arith, ltb→le s i after)) ∙ mod-eq_of_lt hs,
  )
]

-- A free slot within reach of the fuel ends both loops.
pub probe-Ends :
    (n : ℕ) (v : View) (k fuel i d : ℕ)
    → i < n
    → d < fuel
    → v (slot n i d) ≡ none
    → Ends n v k i (probe n v k fuel i)
unfolding probe
probe-Ends n v k zero i d hi hd free = elim hd [ ]
probe-Ends n v k (suc fuel) i d hi hd free = elim (Option-cases (v i)) [
  | inl e ↦ rw (e, probe) (miss 0 (rw (slot-zero n i hi) e) (λ f hf. elim hf [ ]))
  | inr (j, e) ↦ elim (Bool-cases (j == k)) [
    | inl same ↦ rw (e, probe, same) (hit i hi (rw (← ==→≡ j k same) e))
    | inr other ↦
        let far = taken_ne n v i d hi e free in
        rw (e, probe, other)
          (miss_next hi e (==→≢ j k other) (
            probe-Ends n v k fuel ((i + 1) % n) (d - 1) (mod-lt _ (omega arith))
              (omega (arith, far)) (rw (slot-next n i (d - 1), suc_pred d far) free)))
  ]
]

pub land-Lands :
    (n : ℕ) (v : View) (fuel i d : ℕ)
    → i < n
    → d < fuel
    → v (slot n i d) ≡ none
    → (l : Lands n v i) × (land n v fuel i ≡ some (slot n i l.distance)) × (l.distance < fuel)
unfolding land Lands-next
land-Lands n v zero i d hi hd free = elim hd [ ]
land-Lands n v (suc fuel) i d hi hd free = elim (Option-cases (v i)) [
  | inl e ↦ (
    record { distance = 0; free = rw (slot-zero n i hi) e; before = λ f hf. elim hf [ ] },
    rw (e, land, slot-zero n i hi),
    omega arith,
  )
  | inr (j, e) ↦
      let far = taken_ne n v i d hi e free in
      let (l, r, short) =
        land-Lands n v fuel ((i + 1) % n) (d - 1) (mod-lt _ (omega arith)) (omega (arith, far))
          (rw (slot-next n i (d - 1), suc_pred d far) free) in
      (Lands-next hi e l, rw (e, land, r) (ap some (slot-next n i l.distance)), omega arith)
]

-- With no free slot, a lookup of a key that is not there never ends.
pub probe_full :
    (n : ℕ) (v : View) (k fuel i : ℕ)
    → i < n
    → ((s : ℕ) → s < n → Passed v k s)
    → probe n v k fuel i ≡ none
unfolding probe
probe_full n v k zero i hi full = refl
probe_full n v k (suc fuel) i hi full =
    let (j, e, ne) = full i hi in
    rw (e, probe, ==_ne j k ne) (probe_full n v k fuel ((i + 1) % n) (mod-lt _ (omega arith)) full)

module _ (n : ℕ) (home : ℕ → ℕ) (v : View) (probed : IsProbed n home v) where
  -- Under the invariant a lookup that misses has no slot to overlook.
  pub not-Member :
      (k d : ℕ)
      → v (slot n (home k) d) ≡ none
      → ((e : ℕ) → e < d → Passed v k (slot n (home k) e))
      → ¬ Member n v k
  not-Member k d free passed (s, hs, e) =
      let (d', there, taken) = probed s k hs e in
      elim (Bool-cases (ltb d' d)) [
        | inl before ↦ let (j, held, ne) = passed d' (ltb→lt d' d before) in ne (cc)
        | inr after ↦ elim (Bool-cases (d == d')) [
          | inl same ↦ cc (==→≡ d d' same)
          | inr other ↦
              let (j, held) = taken d (omega (arith, ltb→le d' d after, ==→≢ d d' other)) in cc
        ]
      ]

  Taken-write : (s k i : ℕ) → Taken v i → Taken (write v s k) i
  Taken-write s k i (j, e) = elim (Bool-cases (s == i)) [
    | inl same ↦ (k, rw same)
    | inr other ↦ (j, rw other e)
  ]

  -- A store at the first free slot keeps the invariant.
  pub write-IsProbed :
      (k : ℕ) (l : Lands n v (home k)) → IsProbed n home (write v (slot n (home k) l.distance) k)
  write-IsProbed k l s j hs e = elim (Bool-cases (slot n (home k) l.distance == s)) [
    | inl same ↦
        let key : some k ≡ some j = rw same at e in
        let home_eq : home j ≡ home k = ap home (sym (some_inj key)) in
        (
          l.distance,
          rw home_eq (==→≡ _ s same),
          λ f hf. Taken-write _ k _ (rw home_eq (l.before f hf)),
        )
    | inr other ↦
        let held : v s ≡ some j = rw other at e in
        let (d, there, taken) = probed s j hs held in
        (d, there, λ f hf. Taken-write _ k _ (taken f hf))
  ]

-- After a store the table holds the new key and the keys it held.
pub Member-write :
    (n : ℕ) (v : View) (i k j : ℕ) (l : Lands n v i)
    → 0 < n
    → Member n (write v (slot n i l.distance) k) j ↔ ((k ≡ j) ⊎ Member n v j)
Member-write n v i k j l h = (forward, backward)
  where
    s : ℕ
    s = slot n i l.distance

    forward : Member n (write v s k) j → (k ≡ j) ⊎ Member n v j
    forward (t, ht, e) = elim (Bool-cases (s == t)) [
      | inl same ↦ inl (some_inj (rw same at e))
      | inr other ↦ inr (t, ht, rw other at e)
    ]

    backward : (k ≡ j) ⊎ Member n v j → Member n (write v s k) j
    backward (inl e) = (s, mod-lt _ h, rw (==_self s, e))
    backward (inr (t, ht, e)) = elim (Bool-cases (s == t)) [
      | inl same ↦ absurd (cc (==→≡ s t same, l.free, e))
      | inr other ↦ (t, ht, rw other e)
    ]
