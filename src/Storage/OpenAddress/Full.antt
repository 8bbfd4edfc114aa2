-- ===== src/Storage/OpenAddress/Full.antt =====
-- The last free slot: the store that takes it leaves a table in which lookups may not end.
use proof_cost_network.Base.{ℕ, zero, suc, ◌+◌, ◌<◌, ◌≡◌, ◌≢◌, ◌∙◌, true, false, arith}
use proof_cost_network.Base.{none, some, List, [], ◌∷◌, length, get_or, inl, inr, Bool-cases}
use proof_cost_network.Storage.Probing.{Passed, probe_full}
use proof_cost_network.Storage.OpenAddress.{
  Entry, Table, home, out_of_range, is_full, lookup_loop, store, view,
}
use proof_cost_network.Storage.OpenAddress.Laws.{
  IsValid, HasRoom, Contains, home-lt, lookup_loop-probe, store-Stores, free_count,
}

module _ {A : Type 0} (clean : A) where
  no_free :
      (es : List (Entry A)) (s : ℕ)
      → free_count es ≡ 0
      → s < length es
      → (get_or es s (out_of_range clean)).is_free ≡ false
  no_free [] s e h = elim h [ ]
  no_free (x ∷ es) zero e h = elim (Bool-cases x.is_free) [
    | inl t ↦ absurd (omega (arith, rw t at e))
    | inr f ↦ f
  ]
  no_free (x ∷ es) (suc s) e h = no_free es s (omega arith) (omega arith)

  full_taken :
      (t : Table A) (k s : ℕ)
      → IsValid clean t
      → is_full t ≡ true
      → ¬ Contains clean t k
      → s < t.size
      → Passed (view clean t) k s
  unfolding is_full view
  full_taken t k s valid full absent hs =
      let taken = no_free t.entries s (ground (arith, valid.counted)) (rw valid.sized hs) in
      (
        (get_or t.entries s (out_of_range clean)).key,
        rw taken,
        λ e. absent (s, hs, rw taken (rw e)),
      )

  -- A valid table that lacks one key of being full takes a new key, and says only then that it is
  -- full; from then on the lookup of a key that is not there runs for ever, on any fuel.
  pub store-fills :
      (t : Table A) (k j : ℕ) (a : A)
      → IsValid clean t
      → HasRoom clean t
      → t.count + 1 ≡ t.size
      → k ≢ j
      → ¬ Contains clean t j
      → (is_full t ≡ false)
        × ((u : Table A) × (store clean k a t ≡ some u)
            × (is_full u ≡ true)
            × ((fuel : ℕ) → lookup_loop clean fuel u j (home u.size j) ≡ none))
  unfolding is_full
  store-fills t k j a valid room last apart absent =
      let (u, run, kept, size, more, members, _) = store-Stores clean t valid room k a in
      let full : is_full u ≡ true = ground (arith, size, more, last) in
      let gone : ¬ Contains clean u j =
        λ m. elim ((members j).0 m) [ inl e ↦ apart e | inr old ↦ absent old ] in
      (
        ground (arith, last),
        (
          u,
          run,
          full,
          λ fuel.
              lookup_loop-probe clean fuel u j (home u.size j)
              ∙ probe_full u.size (view clean u) j fuel (home u.size j)
                  (home-lt u.size j (omega (arith, room.1, size)))
                  (λ s hs. full_taken u j s kept full gone hs),
        ),
      )
