-- ===== src/Examples/GoRuns.antt =====
-- Small boards, names of moves, and blocks with the areas that keep them alive.
use proof_cost_network.Base.{
  ℕ, zero, suc, ◌*◌, ◌≤◌, ◌<◌, ◌≡◌, ◌==◌, refl, ◌∙◌, true, false, ◌||◌, [], ◌∷◌, ◌++◌, some, arith,
  length, ◌↔◌, ◌⊎◌, inr, ap, get_or,
}
use proof_cost_network.Base.Text.{Text}
use proof_cost_network.Board.Color.{color_to_char, black}
use proof_cost_network.Board.Move.{
  Move, to_sgf_string, from_sgf_string, to_gtp_string, from_gtp_string,
}
use proof_cost_network.Board.Move.Texts.{
  from_sgf_string-to_sgf_string, from_gtp_string-to_gtp_string,
}
use proof_cost_network.Board.Bitboard.{Bitboard, bit_is_on, dilation, floodfill}
use proof_cost_network.Board.Bitboard.Dilation.{Adjacent, dilation-Near}
use proof_cost_network.Board.Bitboard.Floodfill.{Reach, floodfill-Reaches}
use proof_cost_network.Storage.FeatureIndex.{FeatureIndexList, contains, add_feature, clear}
use proof_cost_network.Storage.FeatureIndex.Laws.{IsValid, clear-IsEmpty, add_feature-Adds}
use proof_cost_network.Storage.HashTable
use proof_cost_network.Games.Go.Area.{empty_ids, GoClosedArea, blank_area}
use proof_cost_network.Games.Go.State.{GoGame, block_at, blank_block, initialize}
use proof_cost_network.Games.Go.Benson.{Benson, area_at, find_benson_life}
use proof_cost_network.Games.Go.Benson.Areas.{num_areas, Covers}
use proof_cost_network.Games.Go.Benson.Life.{find_benson_life-Lives}

-- The black stone at e3 of a 5x5 board.
abbrev e3 : Move
e3 = record { color = black; position = 14 }

from_sgf_string-to_sgf_string_example :
    (value : Text) × (to_sgf_string 5 e3 ≡ color_to_char black ∷ b'[' ∷ (value ++ b']' ∷ []))
    × (from_sgf_string (color_to_char black ∷ []) value 5 ≡ e3)
from_sgf_string-to_sgf_string_example =
    from_sgf_string-to_sgf_string 5 e3 (omega arith) (omega arith)

from_gtp_string-to_gtp_string_example : from_gtp_string black (to_gtp_string 5 e3) 5 ≡ some e3
from_gtp_string-to_gtp_string_example =
    from_gtp_string-to_gtp_string 5 e3 (omega arith) (omega arith)

-- The left column of a 2x2 board.
abbrev left_column : Bitboard
left_column = true ∷ false ∷ true ∷ false ∷ false ∷ []

dilation-Near_example : (bit_is_on (dilation 5 2 left_column) 3 ≡ true) ↔ (
    (3 < 2 * 2)
    × ((bit_is_on left_column 3 ≡ true)
        ⊎ ((p : ℕ) × Adjacent 2 p 3 × (bit_is_on left_column p ≡ true))))
dilation-Near_example = dilation-Near 2 left_column refl refl 3

floodfill-Reaches_example :
    (r : Bitboard) × (floodfill 5 2 left_column 0 ≡ some r)
    × (length r ≡ 5)
    × ((q : ℕ) → (bit_is_on r q ≡ true) ↔ Reach 2 left_column 0 q)
floodfill-Reaches_example = floodfill-Reaches 2 left_column refl refl 0 refl

-- Sets of ids below 4.
abbrev nothing : FeatureIndexList
nothing = clear 3 (empty_ids 3)

abbrev first_one : FeatureIndexList
first_one = add_feature 0 nothing

abbrev first_two : FeatureIndexList
first_two = add_feature 1 first_one

abbrev first_three : FeatureIndexList
first_three = add_feature 2 first_two

nothing-IsValid : IsValid 3 3 nothing × ((j : ℕ) → contains nothing j ≡ false)
nothing-IsValid = clear-IsEmpty 3 3 (empty_ids 3) refl

first_one-IsValid : IsValid 3 3 first_one × ((j : ℕ) → contains first_one j ≡ (0 == j || false))
unfolding clear
first_one-IsValid =
    let (valid, held) = add_feature-Adds nothing-IsValid.0 0 (omega arith) (inr (omega arith)) in
    (valid, λ j. held j ∙ ap (λ b. 0 == j || b) (nothing-IsValid.1 j))

first_two-IsValid :
    IsValid 3 3 first_two × ((j : ℕ) → contains first_two j ≡ (1 == j || (0 == j || false)))
unfolding clear add_feature
first_two-IsValid =
    let (valid, held) = add_feature-Adds first_one-IsValid.0 1 (omega arith) (inr (omega arith)) in
    (valid, λ j. held j ∙ ap (λ b. 1 == j || b) (first_one-IsValid.1 j))

first_three-IsValid :
    IsValid 3 3 first_three
    × ((j : ℕ) → contains first_three j ≡ (2 == j || (1 == j || (0 == j || false))))
unfolding clear add_feature
first_three-IsValid =
    let (valid, held) = add_feature-Adds first_two-IsValid.0 2 (omega arith) (inr (omega arith)) in
    (valid, λ j. held j ∙ ap (λ b. 2 == j || b) (first_two-IsValid.1 j))

-- Area 0 touches the blocks 0 and 1, and the areas 1 and 2 touch block 0.
abbrev area_of : FeatureIndexList → GoClosedArea
area_of ids = record blank_area { block_ids = ids }

abbrev three_areas : GoGame
unfolding initialize
three_areas =
    let g = initialize [] (HashTable.new 0 2) in
    record g {
      closed_areas = record g.closed_areas {
        elements = area_of first_two ∷ area_of first_one ∷ area_of first_one ∷ [];
      };
      blocks =
          record blank_block { index = 0; closed_areas = first_three }
          ∷ record blank_block { index = 1; closed_areas = first_one }
          ∷ [];
    }

-- Block 1 has one area, and is dropped with it; block 0 keeps two of its three.
abbrev begun : Benson
begun = record { num_healthy = 3 ∷ 1 ∷ []; block_ids = first_two; area_ids = first_three }

named : (id : ℕ) → contains first_two id ≡ true → (block_at three_areas id).index ≡ id
unfolding three_areas
named zero h = refl
named (suc zero) h = refl
named (suc (suc id)) h = absurd (ground (arith, first_two-IsValid.1 (suc (suc id)), h))

covers : Covers three_areas 3 3 3 3 begun
unfolding three_areas clear add_feature contains num_areas
covers = record {
  valid = first_three-IsValid.0;
  around = λ j h. around j h;
  counted = λ id. counted id;
}
  where
    around : (j : ℕ) → contains first_three j ≡ true → IsValid 3 3 (area_at three_areas j).block_ids
    around zero h = first_two-IsValid.0
    around (suc zero) h = first_one-IsValid.0
    around (suc (suc zero)) h = first_one-IsValid.0
    around (suc (suc (suc j))) h =
        absurd (ground (arith, first_three-IsValid.1 (suc (suc (suc j))), h))

    counted : (id : ℕ) → get_or (3 ∷ 1 ∷ []) id 0 ≤ num_areas three_areas 4 first_three id
    counted zero = omega arith
    counted (suc zero) = omega arith
    counted (suc (suc id)) = omega arith

find_benson_life-Lives_example :
    (r : Benson) × (find_benson_life three_areas begun ≡ some r)
    × ((id : ℕ)
        → contains r.block_ids id ≡ true
        → (contains first_two id ≡ true) × (2 ≤ num_areas three_areas 4 r.area_ids id))
    × ((id : ℕ) → get_or r.num_healthy id 0 ≤ num_areas three_areas 4 r.area_ids id)
find_benson_life-Lives_example =
    find_benson_life-Lives three_areas 3 3 3 3 3 3 begun
      (record { valid = first_two-IsValid.0; named = named }) covers
