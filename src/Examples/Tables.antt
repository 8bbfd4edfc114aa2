-- ===== src/Examples/Tables.antt =====
-- Small hash tables and feature sets.
use proof_cost_network.Base.{
  get_or, ℕ, zero, suc, ◌+◌, ◌%◌, ◌<◌, ◌≡◌, ◌≢◌, refl, Bool, true, false, not, ◌&&◌, ◌||◌, ◌==◌,
  arith, [], ◌∷◌, Option, none, some, some_inj, ◌⊎◌, ◌↔◌, inl, inr, subst, ap, ==→≡, Bool-cases,
  if◌then◌else◌,
}
use proof_cost_network.Storage.Probing.{IsProbed}
use proof_cost_network.Storage.OpenAddress
use proof_cost_network.Storage.OpenAddress.{Table, entry_at}
use proof_cost_network.Storage.OpenAddress.Laws
use proof_cost_network.Storage.OpenAddress.Full.{store-fills}
use proof_cost_network.Storage.OpenAddress.AsMap.{Represents, with_key, fetch, store-Represents}
use proof_cost_network.Storage.FeatureList.{
  Feature, FeatureList, no_id, get_at, new_one, free_one, is_valid_idx,
}
use proof_cost_network.Storage.FeatureList.Laws.{new_one-free_one}
use proof_cost_network.Storage.FixedList as FL
use proof_cost_network.Storage.FixedList.{FixedList}
use proof_cost_network.Storage.HashTable
use proof_cost_network.Storage.HashTable.{HashTable}
use proof_cost_network.Storage.HashTable.Laws as SetLaws
use proof_cost_network.Storage.HashTable.Erase.{erase-store, erase-Hides}
use proof_cost_network.Storage.FeatureIndex.{
  FeatureIndexList, contains, add_feature, remove_feature, clear,
}
use proof_cost_network.Storage.FeatureIndex.Laws as FeatureLaws

-- Two slots, the first taken by the key 4.
abbrev half : Table ℕ
half = record {
  size = 2;
  count = 1;
  entries =
      record { key = 4; is_free = false; content = 7 }
      ∷ record { key = 0; is_free = true; content = 0 }
      ∷ [];
}

half-IsProbed : IsProbed 2 (OpenAddress.home 2) (OpenAddress.view 0 half)
unfolding OpenAddress.view OpenAddress.home
half-IsProbed zero k h e = (0, rw (← some_inj e) refl, λ d lt. absurd (omega (arith, lt)))
half-IsProbed (suc zero) k h e = cc
half-IsProbed (suc (suc s)) k h e = absurd (omega (arith, h))

half-IsValid : Laws.IsValid 0 half
half-IsValid = record { sized = refl; counted = refl; probed = half-IsProbed }

half-HasRoom : Laws.HasRoom 0 half
unfolding OpenAddress.view
half-HasRoom = (1, omega arith, refl)

not_5 : ¬ Laws.Contains 0 half 5
unfolding OpenAddress.view
not_5 (zero, h, e) = absurd (omega (arith, some_inj e))
not_5 (suc zero, h, e) = cc
not_5 (suc (suc s), h, e) = cc

is_full-HasRoom_example : Laws.HasRoom 0 half
unfolding OpenAddress.is_full
is_full-HasRoom_example = Laws.is_full-HasRoom 0 half half-IsValid refl

lookup-Locates_example :
    (r : Option ℕ) × (OpenAddress.lookup 0 4 half ≡ some r)
    × Laws.Locates 0 half half-IsValid half-HasRoom 4 r
lookup-Locates_example = Laws.lookup-Locates 0 half half-IsValid half-HasRoom 4

store-Stores_example :
    (u : Table ℕ) × (OpenAddress.store 0 3 9 half ≡ some u)
    × Laws.IsValid 0 u
    × (u.size ≡ 2)
    × (u.count ≡ 1 + 1)
    × ((j : ℕ) → Laws.Contains 0 u j ↔ ((3 ≡ j) ⊎ Laws.Contains 0 half j))
    × ((s : ℕ) × (s < 2)
        × (OpenAddress.view 0 half s ≡ none)
        × (entry_at 0 u s ≡ record { key = 3; is_free = false; content = 9 })
        × ((i : ℕ) → s ≢ i → entry_at 0 u i ≡ entry_at 0 half i))
store-Stores_example = Laws.store-Stores 0 half half-IsValid half-HasRoom 3 9

store-fills_example :
    (OpenAddress.is_full half ≡ false)
    × ((u : Table ℕ) × (OpenAddress.store 0 3 9 half ≡ some u)
        × (OpenAddress.is_full u ≡ true)
        × ((fuel : ℕ) → OpenAddress.lookup_loop 0 fuel u 5 (OpenAddress.home u.size 5) ≡ none))
store-fills_example = store-fills 0 half 3 5 9 half-IsValid half-HasRoom refl (omega arith) not_5

-- Four slots; the keys 1 and 5 have the home slot 1, so 5 stands behind 1.
abbrev chained : HashTable
chained = record {
  size = 4;
  entries =
      record { key = 0; is_free = true }
      ∷ record { key = 1; is_free = false }
      ∷ record { key = 5; is_free = false }
      ∷ record { key = 0; is_free = true }
      ∷ [];
}

chained-IsProbed : IsProbed 4 (HashTable.home 4) (HashTable.view chained)
unfolding HashTable.view HashTable.home
chained-IsProbed zero k h e = cc
chained-IsProbed (suc zero) k h e = (0, rw (← some_inj e) refl, λ d lt. absurd (omega (arith, lt)))
chained-IsProbed (suc (suc zero)) k h e = (1, rw (← some_inj e) refl, rw (← some_inj e) first_taken)
  where
    first_taken :
        (d : ℕ) → d < 1 → (j : ℕ) × (HashTable.view chained ((HashTable.home 4 5 + d) % 4) ≡ some j)
    first_taken zero lt = (1, refl)
    first_taken (suc d) lt = absurd (omega (arith, lt))
chained-IsProbed (suc (suc (suc zero))) k h e = cc
chained-IsProbed (suc (suc (suc (suc s)))) k h e = absurd (omega (arith, h))

chained-IsValid : SetLaws.IsValid chained
chained-IsValid = record { sized = refl; probed = chained-IsProbed }

chained-HasRoom : SetLaws.HasRoom chained
unfolding HashTable.view
chained-HasRoom = (0, omega arith, refl)

not_9 : ¬ SetLaws.Contains chained 9
unfolding HashTable.view
not_9 (zero, h, e) = cc
not_9 (suc zero, h, e) = absurd (omega (arith, some_inj e))
not_9 (suc (suc zero), h, e) = absurd (omega (arith, some_inj e))
not_9 (suc (suc (suc zero)), h, e) = cc
not_9 (suc (suc (suc (suc s))), h, e) = absurd (omega (arith, h))

lookup-Decides_example :
    (b : Bool) × (HashTable.lookup 5 chained ≡ some b) × ((b ≡ true) ↔ SetLaws.Contains chained 5)
lookup-Decides_example = SetLaws.lookup-Decides chained chained-IsValid chained-HasRoom 5

store-Adds_example :
    (u : HashTable) × (HashTable.store 9 chained ≡ some u)
    × SetLaws.IsValid u
    × (u.size ≡ 4)
    × ((j : ℕ) → SetLaws.Contains u j ↔ ((9 ≡ j) ⊎ SetLaws.Contains chained j))
store-Adds_example = SetLaws.store-Adds chained chained-IsValid chained-HasRoom 9

erase-store_example :
    (u : HashTable) × (HashTable.store 9 chained ≡ some u)
    × ((w : HashTable) × (HashTable.erase 9 u ≡ some w)
        × (w.size ≡ 4)
        × ((i : ℕ) → HashTable.view w i ≡ HashTable.view chained i))
erase-store_example = erase-store chained chained-IsValid chained-HasRoom 9 not_9

holds_5 : SetLaws.Contains chained 5
unfolding HashTable.view
holds_5 = (2, omega arith, refl)

erase-Hides_example :
    (u : HashTable) × (HashTable.erase 1 chained ≡ some u)
    × SetLaws.Contains u 5
    × (HashTable.lookup 5 u ≡ some false)
unfolding HashTable.view HashTable.home
erase-Hides_example =
    erase-Hides chained chained-IsValid chained-HasRoom 5 1 refl refl (omega arith) holds_5

-- Room for two of the ids 0 to 2, with the id 1 in it.
abbrev empty : FeatureIndexList
empty = record { n_feature = 0; feature_index = 0 ∷ 0 ∷ []; index = none ∷ none ∷ none ∷ [] }

clear-IsEmpty_example :
    FeatureLaws.IsValid 2 2 (clear 2 empty) × ((j : ℕ) → contains (clear 2 empty) j ≡ false)
clear-IsEmpty_example = FeatureLaws.clear-IsEmpty 2 2 empty refl

abbrev with_1 : FeatureIndexList
unfolding add_feature clear
with_1 = add_feature 1 (clear 2 empty)

with_1-IsValid : FeatureLaws.IsValid 2 2 with_1
unfolding clear with_1 add_feature
with_1-IsValid = (FeatureLaws.add_feature-Adds clear-valid 1 (omega arith) (inr (omega arith))).0
  where
    clear-valid : FeatureLaws.IsValid 2 2 (clear 2 empty)
    clear-valid = (FeatureLaws.clear-IsEmpty 2 2 empty refl).0

add_feature-Adds_example :
    FeatureLaws.IsValid 2 2 (add_feature 2 with_1)
    × ((j : ℕ) → contains (add_feature 2 with_1) j ≡ (2 == j || contains with_1 j))
unfolding with_1
add_feature-Adds_example =
    FeatureLaws.add_feature-Adds with_1-IsValid 2 (omega arith) (inr (omega arith))

remove_feature-Removes_example :
    (t : FeatureIndexList) × (remove_feature 1 with_1 ≡ some t)
    × FeatureLaws.IsValid 2 2 t
    × ((j : ℕ) → contains t j ≡ (not (1 == j) && contains with_1 j))
    × (t.n_feature + 1 ≡ with_1.n_feature)
unfolding contains with_1
remove_feature-Removes_example = FeatureLaws.remove_feature-Removes with_1-IsValid 1 refl

-- Three elements in an array of four.
abbrev three : FixedList ℕ
three = record { size = 3; elems = 5 ∷ 6 ∷ 7 ∷ 8 ∷ [] }

remove-moves_example :
    (FL.get_size 0 (FL.remove 0 0 three).1 + 1 ≡ FL.get_size 0 three)
    × ((FL.remove 0 0 three).0 ≡ FL.get_last 0 three)
    × (FL.element_at 0 0 (FL.remove 0 0 three).1 ≡ FL.get_last 0 three)
    × ((j : ℕ) → 0 ≢ j → FL.element_at 0 j (FL.remove 0 0 three).1 ≡ FL.element_at 0 j three)
remove-moves_example = FL.remove-moves 0 0 three (omega arith) (omega arith)

remove_last-insert_example :
    ((FL.remove_last 0 (FL.insert 0 9 three)).0 ≡ 9)
    × (FL.get_size 0 (FL.remove_last 0 (FL.insert 0 9 three)).1 ≡ FL.get_size 0 three)
    × ((j : ℕ)
        → j < 3
        → FL.element_at 0 j (FL.remove_last 0 (FL.insert 0 9 three)).1 ≡ FL.element_at 0 j three)
remove_last-insert_example = FL.remove_last-insert 0 9 three (omega arith)

abbrev four_to_seven : ℕ → Option ℕ
four_to_seven j = if 4 == j then some 7 else none

half-Represents : Represents 0 half four_to_seven
unfolding OpenAddress.view
half-Represents = record { slots = by_slot; keys = by_key }
  where
    by_slot :
        (s k : ℕ)
        → s < 2
        → OpenAddress.view 0 half s ≡ some k
        → four_to_seven k ≡ some (entry_at 0 half s).content
    by_slot zero k h e = subst (λ j. four_to_seven j ≡ some 7) (some_inj e) refl
    by_slot (suc zero) k h e = cc
    by_slot (suc (suc s)) k h e = absurd (omega (arith, h))

    by_key : (k a : ℕ) → four_to_seven k ≡ some a → Laws.Contains 0 half k
    by_key k a e = elim (Bool-cases (4 == k)) [
      | inl same ↦ (0, omega arith, ap some (==→≡ 4 k same))
      | inr other ↦ cc (rw other at e)
    ]

store-Represents_example :
    (u : Table ℕ) × (OpenAddress.store 0 3 9 half ≡ some u)
    × Laws.IsValid 0 u
    × Represents 0 u (with_key 0 3 9 four_to_seven)
    × ((j : ℕ) → fetch 0 j half ≡ some (four_to_seven j))
store-Represents_example =
    store-Represents 0 half four_to_seven half-IsValid half-HasRoom half-Represents 3 9 refl

-- A feature that is nothing but its id.
abbrev bare : Feature
bare = record {
  F = ℕ;
  blank = no_id;
  get_id = λ f. f;
  set_id = λ i f. i;
  clear = λ f. no_id;
  get_id-set_id = λ i f. refl;
  get_id-clear = λ f. refl;
}

-- Feature 1 is in use, and feature 0 is freed.
abbrev two_features : FeatureList ℕ
two_features = record {
  capacity = 2;
  size = 1;
  elements = no_id ∷ 1 ∷ [];
  free = record { size = 1; elems = 0 ∷ 0 ∷ [] };
}

new_one-free_one_example :
    let r = new_one bare (free_one bare 1 two_features) in
    (is_valid_idx bare 1 (free_one bare 1 two_features) ≡ false)
    × (r.0 ≡ 1)
    × (get_at bare 1 r.1 ≡ 1)
    × ((j : ℕ) → 1 ≢ j → get_at bare j r.1 ≡ get_at bare j two_features)
    × (r.1.capacity ≡ 2)
    × (r.1.free.size ≡ 1)
    × ((j : ℕ) → j < 1 → get_or r.1.free.elems j 0 ≡ get_or (0 ∷ 0 ∷ []) j 0)
    × (r.1.size ≡ 1)
unfolding get_at
new_one-free_one_example =
    new_one-free_one bare 1 two_features refl (omega arith) (omega arith) (omega arith)
