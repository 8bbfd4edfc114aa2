-- ===== src/Storage/HashTable/Erase.antt =====
-- Erasing: the newest key is undone exactly; an older one may hide the keys stored behind it.
use native.Mathlib.Nat.{mod-lt}
use mathlib.Core.Path.{ap}
use mathlib.Core.Option
use proof_cost_network.Base.{
  ℕ, zero, suc, ◌+◌, ◌%◌, ◌<◌, ◌≡◌, ◌≢◌, refl, sym, ◌∙◌, true, false, arith,
}
use proof_cost_network.Base.{none, some, ◌==◌, if◌then◌else◌, inl, inr, Bool-cases}
use proof_cost_network.Base.{length, get_or, set, get_or-set, length-set, ==→≡, ==_self, ==_ne}
use proof_cost_network.Storage.Probing.{
  slot, slot-zero, slot-next, land-Lands, distance_of, probe_full, Passed, Taken,
}
use proof_cost_network.Storage.HashTable.{
  HashTable, OaEntry, home, view, lookup, store, erase, lookup_loop, erase_loop, out_of_range,
}
use proof_cost_network.Storage.HashTable.Laws.{
  IsValid, HasRoom, Contains, home-lt, written, view-written, store_loop-land, lookup_loop-probe,
}

abbrev entry_at : HashTable → ℕ → OaEntry
entry_at t s = get_or t.entries s out_of_range

-- The table after a slot is marked free.
abbrev freed : HashTable → ℕ → HashTable
freed t s = record t { entries = set t.entries s (record (entry_at t s) { is_free = true }) }

erase_loop-at :
    (fuel : ℕ) (t : HashTable) (k i d : ℕ)
    → i < t.size
    → d < fuel
    → ((e : ℕ) → e < d → (entry_at t (slot t.size i e)).key ≢ k)
    → (entry_at t (slot t.size i d)).key ≡ k
    → erase_loop fuel t k i ≡ some (freed t (slot t.size i d))
unfolding erase_loop
erase_loop-at zero t k i d hi hd before here = elim hd [ ]
erase_loop-at (suc fuel) t k i zero hi hd before here =
    let here' : (entry_at t i).key ≡ k = rw (slot-zero t.size i hi) at here in
    rw (slot-zero t.size i hi) (ground (arith, here'))
erase_loop-at (suc fuel) t k i (suc d) hi hd before here =
    let other : (entry_at t i).key ≢ k = rw (slot-zero t.size i hi) at (before 0 (omega arith)) in
    let rest =
      erase_loop-at fuel t k ((i + 1) % t.size) d (mod-lt _ (omega arith)) (omega arith)
        (λ e he. rw (slot-next t.size i e) (before (suc e) (omega arith)))
        (rw (slot-next t.size i d) here) in
    rw (← slot-next t.size i d) (ground (arith, other, rest))

view-freed :
    (t : HashTable) (s i : ℕ)
    → s < length t.entries
    → view (freed t s) i ≡ (if s == i then none else view t i)
unfolding view
view-freed t s i h =
    ground
      (arith, get_or-set t.entries s i (record (entry_at t s) { is_free = true }) out_of_range h)

Taken-key : (t : HashTable) (s j : ℕ) → view t s ≡ some j → (entry_at t s).key ≡ j
unfolding view
Taken-key t s j h = ground (arith, h)

lookup_loop_free :
    (fuel : ℕ) (t : HashTable) (k i : ℕ)
    → 0 < fuel
    → view t i ≡ none
    → lookup_loop fuel t k i ≡ some false
unfolding lookup_loop view
lookup_loop_free zero t k i h free = elim h [ ]
lookup_loop_free (suc fuel) t k i h free = ground (arith, free)

-- Behind a store to a free slot, a slot that was taken still has another key.
written-other :
    (t : HashTable) (k s i : ℕ)
    → ¬ Contains t k
    → s < length t.entries
    → i < t.size
    → view t s ≡ none
    → Taken (view t) i
    → (entry_at (written t k s) i).key ≢ k
written-other t k s i fresh inside hi free (j, held) same =
    let apart : (s == i) ≡ false = ==_ne s i (λ e. cc) in
    let key : (entry_at (written t k s) i).key ≡ j =
      Taken-key (written t k s) i j (view-written t k s i inside ∙ rw apart held) in
    fresh (i, hi, held ∙ ap some (sym key ∙ same))

freed-written :
    (t : HashTable) (k s i : ℕ)
    → s < length t.entries
    → view t s ≡ none
    → (if s == i then none else view (written t k s) i) ≡ view t i
freed-written t k s i inside free = elim (Bool-cases (s == i)) [
  | inl same ↦ rw same (cc (==→≡ s i same))
  | inr other ↦ rw other (view-written t k s i inside ∙ rw other)
]

module _ (t : HashTable) (valid : IsValid t) (room : HasRoom t) (k : ℕ) where
  -- In a valid table with a free slot and without the key, storing the key and erasing it both end,
  -- and every slot is then seen as before: free, or taken by the same key. The memory of the freed
  -- slot is not compared.
  pub erase-store :
      ¬ Contains t k
      → (u : HashTable) × (store k t ≡ some u)
        × ((w : HashTable) × (erase k u ≡ some w)
            × (w.size ≡ t.size)
            × ((i : ℕ) → view w i ≡ view t i))
  unfolding store erase
  erase-store fresh =
      let positive : 0 < t.size = omega (arith, room.1) in
      let n = t.size in
      let h = home n k in
      let (d, hd, there) = distance_of n h room.0 (home-lt n k positive) room.1 in
      let (l, e, short) = land-Lands n (view t) n h d (home-lt n k positive) hd (rw there room.2) in
      let s : ℕ = slot n h l.distance in
      let u = written t k s in
      let inside : s < length t.entries = rw valid.sized (mod-lt _ positive) in
      let seen = λ (i : ℕ). view-written t k s i inside in
      (
        u,
        store_loop-land n t k h ∙ ap (Option.map (written t k)) e,
        (
          freed u s,
          erase_loop-at n u k h l.distance (home-lt n k positive) short
              (λ f hf.
                written-other t k s (slot n h f) fresh inside (mod-lt _ positive) l.free
                  (l.before f hf))
              (Taken-key u s k (seen s ∙ rw (==_self s))),
          refl,
          λ i.
              view-freed u s i (rw (length-set t.entries s _) inside)
              ∙ freed-written t k s i inside l.free,
        ),
      )

  -- Erasing a key from its home slot makes every other key of that home slot invisible: it is still
  -- stored, and a lookup says that it is not there.
  pub erase-Hides :
      (j : ℕ)
      → view t (home t.size j) ≡ some j
      → home t.size k ≡ home t.size j
      → k ≢ j
      → Contains t k
      → (u : HashTable) × (erase j t ≡ some u) × Contains u k × (lookup k u ≡ some false)
  unfolding lookup erase
  erase-Hides j first same apart (s, hs, held) =
      let positive : 0 < t.size = omega (arith, room.1) in
      let h = home t.size j in
      let inside : h < length t.entries = rw valid.sized (home-lt t.size j positive) in
      let gone : view (freed t h) h ≡ none = view-freed t h h inside ∙ rw (==_self h) in
      let zero_slot = slot-zero t.size h (home-lt t.size j positive) in
      (
        freed t h,
        erase_loop-at t.size t j h 0 (home-lt t.size j positive) positive (λ e he. elim he [ ])
              (Taken-key t _ j (rw zero_slot first))
            ∙ ap (λ (i : ℕ). some (freed t i)) zero_slot,
        (s, hs, view-freed t h s inside ∙ rw (==_ne h s (λ e. apart (cc))) held),
        rw same (lookup_loop_free t.size (freed t h) k h positive gone),
      )

-- In a table that is full of other keys a lookup runs for ever: it spends whatever fuel it is given.
pub lookup_full :
    (t : HashTable) (k fuel : ℕ)
    → 0 < t.size
    → ((s : ℕ) → s < t.size → Passed (view t) k s)
    → lookup_loop fuel t k (home t.size k) ≡ none
lookup_full t k fuel h full =
    lookup_loop-probe fuel t k (home t.size k)
    ∙ rw (probe_full t.size (view t) k fuel (home t.size k) (home-lt t.size k h) full)
