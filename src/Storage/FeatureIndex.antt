-- ===== src/Storage/FeatureIndex.antt =====
-- Games/FeatureIndexList.h: a set of small ids, as a dense array and an index into it.
pub mod Laws
use package.proof_cost_network.Base.{ℕ, suc, ◌-◌, ◌+◌, Bool, true, false, Option, none, some, List}
use package.proof_cost_network.Base.{get_or, set, replicate}

-- `index` holds -1 as `none`. The arrays have the sizes that the template parameters give.
pub record FeatureIndexList : Type 0 where
  pub n_feature : ℕ
  pub feature_index : List ℕ
  pub index : List (Option ℕ)

abbrev pub is_some {ℓ} : {A : Type ℓ} → Option A → Bool
is_some none = false
is_some (some _) = true

unfoldable pub contains : FeatureIndexList → ℕ → Bool
contains s id = is_some (get_or s.index id none)

unfoldable pub add_feature : ℕ → FeatureIndexList → FeatureIndexList
add_feature id s = elim (get_or s.index id none) [
  | some _ ↦ s
  | none ↦ record {
    n_feature = s.n_feature + 1;
    feature_index = set s.feature_index s.n_feature id;
    index = set s.index id (some s.n_feature);
  }
]

-- `none` is the failed assertion on an id that is not there.
unfoldable pub remove_feature : ℕ → FeatureIndexList → Option FeatureIndexList
remove_feature id s = elim (get_or s.index id none) [
  | none ↦ none
  | some i ↦
      let n = s.n_feature - 1 in
      let last = get_or s.feature_index n 0 in
      some (record {
        n_feature = n;
        feature_index = set s.feature_index i last;
        index = set (set s.index last (some i)) id none;
      })
]

unfoldable pub clear : ℕ → FeatureIndexList → FeatureIndexList
clear max_id s = record s { n_feature = 0; index = replicate (suc max_id) none }
