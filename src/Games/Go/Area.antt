-- ===== src/Games/Go/Area.antt =====
-- Games/Go.h: the constants, and the class GoClosedArea.
use proof_cost_network.Base.{
  ℕ, zero, suc, ◌+◌, ◌-◌, refl, not, [], none, get_or, replicate, if◌then◌else◌,
}
use proof_cost_network.Board.Color.{Color}
use proof_cost_network.Board.Bitboard
use proof_cost_network.Board.Bitboard.{
  Bitboard, set_bit_on, set_bit_off, is_empty, ◌∪◌, ◌∩◌, complement, initialize, dilation,
}
use proof_cost_network.Storage.FeatureIndex
use proof_cost_network.Storage.FeatureIndex.{
  FeatureIndexList, contains, add_feature, remove_feature,
}
use proof_cost_network.Storage.FeatureList.{Feature, no_id}

abbrev pub board_size : ℕ
board_size = 9

abbrev pub num_grids : ℕ
num_grids = 81

abbrev pub max_num_moves : ℕ
max_num_moves = 82

abbrev pub max_game_length : ℕ
max_game_length = 164

abbrev pub max_uct_closed_area_size : ℕ
max_uct_closed_area_size = 30

pub data LifeAndDeath : Type 0 where
  not_eye true_eye life : LifeAndDeath

pub data AreaType : Type 0 where
  unknown corner edge central : AreaType

pub record GoClosedArea : Type 0 where
  pub id : ℕ
  pub color : Color
  pub num_stone : ℕ
  pub stones : Bitboard
  pub block_ids : FeatureIndexList
  pub status : LifeAndDeath
  pub type : AreaType

-- A list for ids up to the bound, as the constructor leaves it.
abbrev pub empty_ids : ℕ → FeatureIndexList
empty_ids max = record {
  n_feature = 0;
  feature_index = replicate max 0;
  index = replicate (suc max) none;
}

unfoldable pub clear : GoClosedArea → GoClosedArea
clear a = record a { id = no_id }

unfoldable pub init : GoClosedArea → GoClosedArea
unfolding Bitboard.reset FeatureIndex.clear
init a = record a {
  color = Color.none;
  num_stone = 0;
  stones = Bitboard.reset max_num_moves;
  block_ids = FeatureIndex.clear max_game_length a.block_ids;
  status = not_eye;
  type = unknown;
}

abbrev pub blank_area : GoClosedArea
blank_area = record {
  id = no_id;
  color = Color.none;
  num_stone = 0;
  stones = [];
  block_ids = empty_ids max_game_length;
  status = not_eye;
  type = unknown;
}

-- As a feature of the pool.
abbrev pub area_feature : Feature
area_feature = record {
  F = GoClosedArea;
  blank = blank_area;
  get_id = λ a. a.id;
  set_id = λ i a. record a { id = i };
  clear = λ a. record a { id = no_id };
  get_id-set_id = λ i a. refl;
  get_id-clear = λ a. refl;
}

unfoldable pub get_surround_bit_board : GoClosedArea → Bitboard
unfolding dilation ◌∩◌ complement
get_surround_bit_board a = dilation max_num_moves board_size a.stones ∩ complement a.stones

-- The tests read the static boards and not the stones of the area.
unfoldable pub calculate_ca_type : GoClosedArea → GoClosedArea
unfolding initialize is_empty
calculate_ca_type a =
    let boards = initialize max_num_moves board_size in
    record a {
      type =
          if not (is_empty boards.corner)
          then corner
          else if not (is_empty boards.edge)
          then edge
          else central;
    }

-- The ids of `n` blocks of the other area from `i` on.
merge_ids : ℕ → ℕ → FeatureIndexList → FeatureIndexList → FeatureIndexList
unfolding contains add_feature
merge_ids zero i other ids = ids
merge_ids (suc n) i other ids =
    let id = get_or other.feature_index i 0 in
    merge_ids n (suc i) other (if not (contains ids id) then add_feature id ids else ids)

unfoldable pub merge : GoClosedArea → GoClosedArea → GoClosedArea
unfolding merge_ids ◌∪◌
merge other a = record a {
  num_stone = a.num_stone + other.num_stone;
  stones = a.stones ∪ other.stones;
  block_ids = merge_ids other.block_ids.n_feature 0 other.block_ids a.block_ids;
}

unfoldable pub remove_point : ℕ → GoClosedArea → GoClosedArea
unfolding set_bit_off calculate_ca_type
remove_point p a =
    calculate_ca_type (record a { stones = set_bit_off p a.stones; num_stone = a.num_stone - 1 })

unfoldable pub add_point : ℕ → GoClosedArea → GoClosedArea
unfolding set_bit_on calculate_ca_type
add_point p a =
    calculate_ca_type (record a { stones = set_bit_on p a.stones; num_stone = a.num_stone + 1 })
