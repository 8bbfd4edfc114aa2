-- ===== src/Storage/FeatureList.antt =====
-- Games/FeatureList.h: an array of features with a list of the freed indices. A feature carries its
-- index as its id, and the count of features in use wraps at 32 bits; the assertions of `isValidIdx` are left out.
pub mod Laws
use package.proof_cost_network.Base.{
  ℕ, ◌+◌, ◌-◌, ◌^◌, ◌%◌, ◌≡◌, Bool, not, List, ◌==◌, if◌then◌else◌, get_or, set,
}
use package.proof_cost_network.Storage.FixedList as Fixed
use package.proof_cost_network.Storage.FixedList.{FixedList}

-- `static_cast<uint>(-1)`.
abbrev pub no_id : ℕ
no_id = 2 ^ 32 - 1

-- What the template parameter has.
pub record Feature : Type 1 where
  pub F : Type 0
  pub blank : F
  pub get_id : F → ℕ
  pub set_id : ℕ → F → F
  pub clear : F → F
  pub get_id-set_id : (i : ℕ) (f : F) → get_id (set_id i f) ≡ i
  pub get_id-clear : (f : F) → get_id (clear f) ≡ no_id

pub record FeatureList (A : Type 0) : Type 0 where
  pub capacity : ℕ
  pub size : ℕ
  pub elements : List A
  pub free : FixedList ℕ

module _ (feature : Feature) where
  open feature use {F, blank, get_id, set_id, clear}

  unfoldable pub get_at : ℕ → FeatureList F → F
  get_at i l = get_or l.elements i blank

  -- The pointer to the new element is its index.
  unfoldable pub new_one : FeatureList F → ℕ × FeatureList F
  unfolding get_at Fixed.remove_last
  new_one l =
      let taken : ℕ × FeatureList F =
        if not (l.free.size == 0)
        then (let r = Fixed.remove_last 0 l.free in (r.0, record l { free = r.1 }))
        else (l.capacity, record l { capacity = l.capacity + 1 }) in
      (
        taken.0,
        record taken.1 {
          elements = set l.elements taken.0 (set_id taken.0 (get_at taken.0 l));
          size = (l.size + 1) % 2 ^ 32;
        },
      )

  unfoldable pub free_one : ℕ → FeatureList F → FeatureList F
  unfolding get_at Fixed.insert
  free_one i l = record l {
    size = (l.size + 2 ^ 32 - 1) % 2 ^ 32;
    free = Fixed.insert 0 (get_id (get_at i l)) l.free;
    elements = set l.elements i (clear (get_at i l));
  }

  unfoldable pub is_valid_idx : ℕ → FeatureList F → Bool
  unfolding get_at
  is_valid_idx i l = not (get_id (get_at i l) == no_id)

  -- The elements keep their ids.
  unfoldable pub reset : FeatureList F → FeatureList F
  unfolding Fixed.init
  reset l = record l { capacity = 0; size = 0; free = Fixed.init 0 l.free }
