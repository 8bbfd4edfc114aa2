-- ===== src/Storage/FeatureIndex/Laws.antt =====
-- The invariant that `invariance` asserts, and membership under every operation.
use proof_cost_network.Base.{ℕ, suc, ◌+◌, ◌-◌, ◌≤◌, ◌<◌, ◌≡◌, refl, ◌∙◌, true, false, not, inl, inr}
use proof_cost_network.Base.{◌&&◌, ◌||◌, ◌==◌, Option, none, some, length, get_or, set, arith}
use proof_cost_network.Base.{
  length-set, get_or-set, if◌then◌else◌, length-replicate, get_or-replicate,
}
use proof_cost_network.Base.{◌⊎◌, Option-cases}
use proof_cost_network.Storage.FeatureIndex.{FeatureIndexList, contains, add_feature}
use proof_cost_network.Storage.FeatureIndex.{remove_feature, clear}

-- The two arrays are inverse to one another on the ids in use.
pub record IsValid (max_size max_id : ℕ) (s : FeatureIndexList) : Type 0 where
  pub dense_size : length s.feature_index ≡ max_size
  pub index_size : length s.index ≡ suc max_id
  pub fits : s.n_feature ≤ max_size
  pub used :
      (id i : ℕ)
      → get_or s.index id none ≡ some i
      → (i < s.n_feature) × (get_or s.feature_index i 0 ≡ id)
  pub listed : (i : ℕ) → i < s.n_feature → get_or s.index (get_or s.feature_index i 0) none ≡ some i
  pub in_range : (i : ℕ) → i < s.n_feature → get_or s.feature_index i 0 ≤ max_id

module _ {max_size max_id : ℕ} {s : FeatureIndexList} (valid : IsValid max_size max_id s) where
  add_fresh :
      (id : ℕ)
      → get_or s.index id none ≡ none
      → add_feature id s ≡ record {
        n_feature = s.n_feature + 1;
        feature_index = set s.feature_index s.n_feature id;
        index = set s.index id (some s.n_feature);
      }
  unfolding add_feature
  add_fresh id fresh = rw (fresh, add_feature)

  module _ (id : ℕ) (fresh : get_or s.index id none ≡ none) (small : id ≤ max_id)
      (room : s.n_feature < max_size) where
    dense' :
        (i : ℕ)
        → get_or (set s.feature_index s.n_feature id) i 0
          ≡ (if s.n_feature == i then id else get_or s.feature_index i 0)
    dense' i = get_or-set s.feature_index s.n_feature i id 0 (omega (arith, valid.dense_size))

    index' :
        (j : ℕ)
        → get_or (set s.index id (some s.n_feature)) j none
          ≡ (if id == j then some s.n_feature else get_or s.index j none)
    index' j = get_or-set s.index id j (some s.n_feature) none (omega (arith, valid.index_size))

    add_fresh-IsValid : IsValid max_size max_id (add_feature id s)
    add_fresh-IsValid = rw (add_fresh id fresh) (record {
      dense_size = length-set s.feature_index s.n_feature id ∙ valid.dense_size;
      index_size = length-set s.index id (some s.n_feature) ∙ valid.index_size;
      fits = omega arith;
      used = λ j i e. ground (arith, index' j, dense' i, valid.used j i);
      listed = λ i h.
          ground (arith, dense' i, index' (get_or s.feature_index i 0), index' id, valid.listed i);
      in_range = λ i h. ground (arith, dense' i, valid.in_range i);
    })

  -- Adding an id that fits keeps the invariant, and the set then holds it and what it held.
  pub add_feature-Adds :
      (id : ℕ)
      → id ≤ max_id
      → (contains s id ≡ true) ⊎ (s.n_feature < max_size)
      → IsValid max_size max_id (add_feature id s)
        × ((j : ℕ) → contains (add_feature id s) j ≡ (id == j || contains s j))
  unfolding contains add_feature
  add_feature-Adds id small room = elim (Option-cases (get_or s.index id none)) [
    | inr (i, old) ↦ (rw (old, add_feature) valid, λ j. rw (old, add_feature) (ground (arith, old)))
    | inl new ↦
        let fits : s.n_feature < max_size = ground (arith, room) in
        (
          add_fresh-IsValid id new small fits,
          λ j. rw (add_fresh id new) (ground (arith, index' id new small fits j)),
        )
  ]

  module _ (id i : ℕ) (old : get_or s.index id none ≡ some i) where
    last : ℕ
    last = get_or s.feature_index (s.n_feature - 1) 0

    removed : FeatureIndexList
    removed = record {
      n_feature = s.n_feature - 1;
      feature_index = set s.feature_index i last;
      index = set (set s.index last (some i)) id none;
    }

    last_lem : get_or s.feature_index (s.n_feature - 1) 0 ≡ last
    unfolding last
    last_lem = refl

    old_used : (i < s.n_feature) × (get_or s.feature_index i 0 ≡ id)
    old_used = valid.used id i old

    last_listed : (get_or s.index last none ≡ some (s.n_feature - 1)) × (last ≤ max_id)
    unfolding last
    last_listed = (
      valid.listed (s.n_feature - 1) (omega (arith, old_used)),
      valid.in_range (s.n_feature - 1) (omega (arith, old_used)),
    )

    id_small : id ≤ max_id
    id_small = omega (arith, valid.in_range i old_used.0, old_used.1)

    dense'' :
        (k : ℕ)
        → get_or removed.feature_index k 0 ≡ (if i == k then last else get_or s.feature_index k 0)
    unfolding removed
    dense'' k =
        get_or-set s.feature_index i k last 0
          (omega (arith, valid.dense_size, old_used.0, valid.fits))

    index'' :
        (j : ℕ)
        → get_or removed.index j none
          ≡ (if id == j then none else if last == j then some i else get_or s.index j none)
    unfolding removed
    index'' j =
        get_or-set (set s.index last (some i)) id j none none
          (omega (arith, length-set s.index last (some i), valid.index_size, id_small))
        ∙ ground (
          arith,
          get_or-set s.index last j (some i) none (omega (arith, valid.index_size, last_listed.1)),
        )

    n_removed : removed.n_feature + 1 ≡ s.n_feature
    unfolding removed
    n_removed = omega (arith, old_used.0)

    removed-IsValid : IsValid max_size max_id removed
    removed-IsValid = record {
      dense_size = unfold removed in length-set s.feature_index i last ∙ valid.dense_size;
      index_size =
          unfold removed in
          length-set (set s.index last (some i)) id none
          ∙ length-set s.index last (some i)
          ∙ valid.index_size;
      fits = omega (arith, n_removed, valid.fits);
      used = λ j k e.
          ground (arith, index'' j, dense'' k, valid.used j k, n_removed, last_lem, old_used);
      listed = λ k h. ground (
        arith,
        dense'' k,
        index'' last,
        index'' (get_or s.feature_index k 0),
        valid.listed k,
        n_removed,
        last_listed.0,
        old,
      );
      in_range = λ k h. ground (arith, dense'' k, valid.in_range k, last_listed.1, n_removed);
    }

    remove_lem : remove_feature id s ≡ some removed
    unfolding removed last remove_feature
    remove_lem = rw (old, remove_feature)

    removed-contains : (j : ℕ) → contains removed j ≡ (not (id == j) && contains s j)
    unfolding contains
    removed-contains j = ground (arith, index'' j, last_listed.0)

  -- Removing an id of the set does not fail; it keeps the invariant, the set then holds what it
  -- held but that id, and has one element less.
  pub remove_feature-Removes :
      (id : ℕ)
      → contains s id ≡ true
      → (t : FeatureIndexList) × (remove_feature id s ≡ some t)
        × IsValid max_size max_id t
        × ((j : ℕ) → contains t j ≡ (not (id == j) && contains s j))
        × (t.n_feature + 1 ≡ s.n_feature)
  unfolding contains
  remove_feature-Removes id held = elim (Option-cases (get_or s.index id none)) [
    | inl gone ↦ absurd (ground (arith, gone, held))
    | inr (i, old) ↦ (
      removed id i old,
      remove_lem id i old,
      removed-IsValid id i old,
      removed-contains id i old,
      n_removed id i old,
    )
  ]

-- A cleared set is valid and holds nothing.
pub clear-IsEmpty :
    (max_size max_id : ℕ) (s : FeatureIndexList)
    → length s.feature_index ≡ max_size
    → IsValid max_size max_id (clear max_id s) × ((j : ℕ) → contains (clear max_id s) j ≡ false)
unfolding clear contains
clear-IsEmpty max_size max_id s e = (
  record {
    dense_size = e;
    index_size = length-replicate (suc max_id) none;
    fits = omega arith;
    used = λ j i h. absurd (ground (arith, get_or-replicate {A = Option ℕ} (suc max_id) j none));
    listed = λ i h. absurd (omega arith);
    in_range = λ i h. absurd (omega arith);
  },
  λ j. rw (get_or-replicate {A = Option ℕ} (suc max_id) j none),
)
