-- ===== src/Storage/OpenAddress/AsMap.antt =====
-- The table implements a partial map from keys to data.
use proof_cost_network.Base.{
  ℕ, ◌<◌, ◌≡◌, ◌≢◌, sym, ◌∙◌, ap, subst, true, ◌==◌, ==→≡, ==→≢, ==_self, Option, none, some,
  some_inj, ◌>>=◌, inl, inr, Bool-cases, Option-cases, if◌then◌else◌,
}
use proof_cost_network.Storage.OpenAddress.{Table, entry_at, lookup, store, view}
use proof_cost_network.Storage.OpenAddress.Laws.{
  IsValid, HasRoom, Contains, Locates, stored, lookup-Locates, store-Stores,
}

-- What a caller does: the data at the index that a lookup gives.
unfoldable pub fetch : {A : Type 0} → A → ℕ → Table A → Option (Option A)
unfolding lookup
fetch clean k t = lookup clean k t >>= λ r. elim r [
  | none ↦ some none
  | some i ↦ some (some (entry_at clean t i).content)
]

module _ {A : Type 0} (clean : A) where
  -- The map has what the slots hold, and no other key.
  pub record Represents (t : Table A) (m : ℕ → Option A) : Type 0 where
    pub slots :
        (s k : ℕ) → s < t.size → view clean t s ≡ some k → m k ≡ some (entry_at clean t s).content
    pub keys : (k : ℕ) (a : A) → m k ≡ some a → Contains clean t k

  abbrev pub with_key : ℕ → A → (ℕ → Option A) → ℕ → Option A
  with_key k a m j = if k == j then some a else m j

  module _ (t : Table A) (m : ℕ → Option A) (valid : IsValid clean t) (room : HasRoom clean t)
      (represents : Represents t m) where
    none≢some : (a : A) → none ≢ some a
    none≢some a h = cc

    fetch_lem : (k : ℕ) → fetch clean k t ≡ some (m k)
    unfolding fetch
    fetch_lem k = let (r, e, found) = lookup-Locates clean t valid room k in by_index r e found
      where
        by_index :
            (r : Option ℕ)
            → lookup clean k t ≡ some r
            → Locates clean t valid room k r
            → fetch clean k t ≡ some (m k)
        by_index (some s) e (inside, held) =
            rw (e, fetch) (ap some (sym (represents.slots s k inside held)))
        by_index none e absent = elim (Option-cases (m k)) [
          | inl gone ↦ rw (e, fetch) (ap some (sym gone))
          | inr (a, here) ↦ absurd (absent (represents.keys k a here))
        ]

    same_view :
        (u : Table A) (i : ℕ)
        → entry_at clean u i ≡ entry_at clean t i
        → view clean u i ≡ view clean t i
    unfolding view
    same_view u i e = ap (λ x. if x.is_free then none else some x.key) e

    -- In a valid table with a free slot that represents a map, every fetch gives what the map has at
    -- its key; and a store of a key that the map does not have ends, with a valid table that represents
    -- the map with that key.
    pub store-Represents :
        (k : ℕ) (a : A)
        → m k ≡ none
        → (u : Table A) × (store clean k a t ≡ some u)
          × IsValid clean u
          × Represents u (with_key k a m)
          × ((j : ℕ) → fetch clean j t ≡ some (m j))
    unfolding view
    store-Represents k a new =
        let (u, e, valid', size, _, members, (s, _, _, at, others)) =
          store-Stores clean t valid room k a in
        (
          u,
          e,
          valid',
          record {
            slots = λ i j inside held. elim (Bool-cases (s == i)) [
              | inl here ↦
                  let entry : entry_at clean u i ≡ stored clean k a =
                    subst (λ x. entry_at clean u x ≡ stored clean k a) (==→≡ s i here) at in
                  let is_k : k ≡ j =
                    some_inj
                      (sym (ap (λ x. if x.is_free then none else some x.key) entry) ∙ held) in
                  rw (subst (λ x. (k == x) ≡ true) is_k (==_self k))
                    (ap (λ x. some x.content) (sym entry))
              | inr else_where ↦
                  let same = others i (==→≢ s i else_where) in
                  let old =
                    represents.slots i j (subst (λ n. i < n) size inside)
                      (sym (same_view u i same) ∙ held) in
                  let still : m j ≡ some (entry_at clean u i).content =
                    old ∙ ap (λ x. some x.content) (sym same) in
                  elim (Bool-cases (k == j)) [
                    | inr other ↦ rw other still
                    | inl k_again ↦ absurd (none≢some _ (sym new ∙ ap m (==→≡ k j k_again) ∙ still))
                  ]
            ];
            keys = λ j b held. elim (Bool-cases (k == j)) [
              | inl here ↦ (members j).1 (inl (==→≡ k j here))
              | inr other ↦ (members j).1 (inr (represents.keys j b (rw other at held)))
            ];
          },
          fetch_lem,
        )
