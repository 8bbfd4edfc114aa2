-- ===== src/Games/Go/Benson.antt =====
-- Games/Go.cpp: the closed areas of a position, and Benson's test of the blocks that live.
pub mod Areas
pub mod Life
use proof_cost_network.Base.{
  ℕ, zero, suc, ◌+◌, ◌-◌, Bool, true, false, not, ◌&&◌, ◌||◌, List, [], ◌∷◌, Option, none, some,
  ◌>>=◌, if◌then◌else◌, ◌==◌, ltb, leb, get_or, set, replicate,
}
use proof_cost_network.Board.Color
use proof_cost_network.Board.Color.{Color, black, white, eqb}
use proof_cost_network.Board.Bitboard
use proof_cost_network.Board.Bitboard.{
  Bitboard, set_bit_on, ◌∪◌, ◌∩◌, ◌∖◌, bit_count, is_empty, complement, initialize,
  bit_scan_forward, positions, floodfill,
}
use proof_cost_network.Storage.FeatureIndex.{
  FeatureIndexList, contains, add_feature, remove_feature,
}
use proof_cost_network.Storage.FeatureList
use proof_cost_network.Storage.FeatureList.{FeatureList, new_one, get_at, is_valid_idx}
use proof_cost_network.Games.Go.Area
use proof_cost_network.Games.Go.Area.{
  GoClosedArea, board_size, max_num_moves, max_game_length, max_uct_closed_area_size, area_feature,
  empty_ids, get_surround_bit_board, calculate_ca_type,
}
use proof_cost_network.Games.Go.Block.{GoBlock, get_num_stone, get_stone_nbr_map, add_closed_area}
use proof_cost_network.Games.Go.Grid.{GoGrid, set_closed_area}
use proof_cost_network.Games.Go.State.{
  Stones, GoGame, grid_at, block_at, set_grid, set_block, stones_of,
}

abbrev pub area_at : GoGame → ℕ → GoClosedArea
area_at s i = get_or s.closed_areas.elements i Area.blank_area

abbrev pub set_area : ℕ → GoClosedArea → GoGame → GoGame
set_area i a s = record s {
  closed_areas = record s.closed_areas { elements = set s.closed_areas.elements i a };
}

link_area : ℕ → Color → List ℕ → GoGame → GoGame
unfolding set_closed_area
link_area i c [] s = s
link_area i c (p ∷ ps) s = link_area i c ps (set_grid p (set_closed_area i c (grid_at s p)) s)

-- The blocks around the area; their other stones are skipped.
link_blocks : ℕ → ℕ → Bitboard → GoGame → Option GoGame
unfolding bit_scan_forward add_closed_area add_feature ◌∖◌
link_blocks zero i around s = none
link_blocks (suc fuel) i around s =
    let scan = bit_scan_forward around in
    elim scan.0 [
      | none ↦ some s
      | some p ↦ (grid_at s p).block >>= λ j.
          let b = block_at s j in
          let a = area_at s i in
          let linked =
            set_area i (record a { block_ids = add_feature b.index a.block_ids })
              (set_block j (add_closed_area a.id b) s) in
          link_blocks fuel i (scan.1 ∖ b.grids) linked
    ]

unfoldable pub set_closed_area_attribute : ℕ → Color → Bitboard → ℕ → GoGame → Option GoGame
unfolding Area.init calculate_ca_type link_area positions link_blocks get_surround_bit_board
set_closed_area_attribute i c stones num_stone s =
    let a =
      calculate_ca_type
        (record (Area.init (area_at s i)) { color = c; stones = stones; num_stone = num_stone }) in
    link_blocks (suc max_num_moves) i (get_surround_bit_board a)
      (link_area i c (positions stones) (set_area i a s))

-- Each region that the stones of a colour leave, if it is not too large.
area_loop : ℕ → Color → Bitboard → GoGame → Option GoGame
unfolding bit_scan_forward set_bit_on floodfill ◌∖◌ bit_count new_one set_closed_area_attribute
area_loop zero c left s = none
area_loop (suc fuel) c left s =
    let scan = bit_scan_forward left in
    elim scan.0 [
      | none ↦ some s
      | some p ↦
          let all = set_bit_on p scan.1 in
          floodfill max_num_moves board_size all p >>= λ region.
          (if ltb max_uct_closed_area_size (bit_count region)
            then some s
            else (let r = new_one area_feature s.closed_areas in
                set_closed_area_attribute r.0 c region (bit_count region)
                  (record s { closed_areas = r.1 })))
          >>= area_loop fuel c (all ∖ region)
    ]

unfoldable pub set_full_board_closed_area : Color → GoGame → Option GoGame
unfolding area_loop complement initialize ◌∖◌
set_full_board_closed_area c s =
    area_loop (suc max_num_moves) c
      (complement (stones_of c s.stones) ∖ (initialize max_num_moves board_size).pass) s

-- Whether a point of the area, from the `i`th block on, is free and touches no stone of the block.
health_loop : ℕ → ℕ → GoClosedArea → GoGame → Bool
unfolding get_stone_nbr_map complement ◌∩◌ ◌∪◌ is_empty
health_loop zero i a s = true
health_loop (suc n) i a s =
    let rest = health_loop n (suc i) a s in
    let near = get_stone_nbr_map (block_at s (get_or a.block_ids.feature_index i 0)) in
    let board = s.stones.black_stones ∪ s.stones.white_stones in
    if not (is_empty (a.stones ∩ complement near ∩ complement board)) then false else rest

unfoldable pub is_ca_healthy : GoClosedArea → GoGame → Bool
unfolding health_loop
is_ca_healthy a s =
    if a.num_stone == 1
    then true
    else if a.block_ids.n_feature == 1 && ltb a.num_stone 3
    then true
    else health_loop a.block_ids.n_feature 0 a s

-- `m_blockNumHealthyCA` holds a `short` for each block, which is only lowered and compared with 2: a
-- count that would pass below 0 stays at 0.
pub record Benson : Type 0 where
  pub num_healthy : List ℕ
  pub block_ids : FeatureIndexList
  pub area_ids : FeatureIndexList

abbrev pub no_benson : Benson
no_benson = record {
  num_healthy = replicate max_game_length 0;
  block_ids = empty_ids max_game_length;
  area_ids = empty_ids max_num_moves;
}

healthy_areas : ℕ → ℕ → GoGame → FeatureIndexList → FeatureIndexList
unfolding is_valid_idx is_ca_healthy add_feature
healthy_areas zero i s ids = ids
healthy_areas (suc n) i s ids = healthy_areas n (suc i) s (
    if not (is_valid_idx area_feature i s.closed_areas)
    then ids
    else if not (is_ca_healthy (area_at s i) s)
    then ids
    else add_feature (area_at s i).id ids)

-- Each of the `n` areas of a block, from the `i`th on, that is not healthy lowers the count.
count_healthy : ℕ → ℕ → FeatureIndexList → FeatureIndexList → ℕ → ℕ
unfolding contains
count_healthy zero i areas ids count = count
count_healthy (suc n) i areas ids count =
    count_healthy n (suc i) areas ids
      (if contains ids (get_or areas.feature_index i 0) then count else count - 1)

block_loop : List ℕ → GoGame → Benson → Benson
unfolding count_healthy add_feature
block_loop [] s benson = benson
block_loop (i ∷ is) s benson =
    let b = block_at s i in
    block_loop is s (record benson {
      block_ids = add_feature b.index benson.block_ids;
      num_healthy = set benson.num_healthy b.index (
          count_healthy b.closed_areas.n_feature 0 b.closed_areas benson.area_ids
            b.closed_areas.n_feature);
    })

unfoldable pub find_benson_set : GoGame → Benson
unfolding healthy_areas block_loop positions complement
find_benson_set s =
    block_loop (positions (complement s.block_usage)) s
      (record no_benson { area_ids = healthy_areas s.closed_areas.capacity 0 s no_benson.area_ids })

-- Every block at an area that is no longer healthy loses one.
lower_loop : ℕ → ℕ → FeatureIndexList → List ℕ → List ℕ
lower_loop zero i ids counts = counts
lower_loop (suc n) i ids counts =
    let id = get_or ids.feature_index i 0 in
    lower_loop n (suc i) ids (set counts id (get_or counts id 0 - 1))

-- The areas of a block that was dropped, from the `i`th on.
drop_areas : ℕ → ℕ → GoBlock → GoGame → Benson → Option Benson
unfolding contains remove_feature lower_loop
drop_areas zero i b s benson = some benson
drop_areas (suc n) i b s benson =
    let id = get_or b.closed_areas.feature_index i 0 in
    let ids = (area_at s id).block_ids in
    elim (contains benson.area_ids id) [
      | false ↦ drop_areas n (suc i) b s benson
      | true ↦ remove_feature id benson.area_ids >>= λ area_ids.
          drop_areas n (suc i) b s (record benson {
            area_ids = area_ids;
            num_healthy = lower_loop ids.n_feature 0 ids benson.num_healthy;
          })
    ]

-- One pass over the blocks that are left; a block that moves to the place of a dropped one is not
-- looked at in this pass. `over` says whether none was dropped.
pass_loop : ℕ → ℕ → GoGame → Bool → Benson → Option (Bool × Benson)
unfolding remove_feature drop_areas
pass_loop zero i s over benson = none
pass_loop (suc fuel) i s over benson = elim (ltb i benson.block_ids.n_feature) [
  | false ↦ some (over, benson)
  | true ↦
      let b = block_at s (get_or benson.block_ids.feature_index i 0) in
      elim (leb 2 (get_or benson.num_healthy b.index 0)) [
        | true ↦ pass_loop fuel (suc i) s over benson
        | false ↦ remove_feature b.index benson.block_ids >>= λ block_ids.
            drop_areas b.closed_areas.n_feature 0 b s (record benson { block_ids = block_ids })
            >>= pass_loop fuel (suc i) s false
      ]
]

life_loop : ℕ → GoGame → Benson → Option Benson
unfolding pass_loop
life_loop zero s benson = none
life_loop (suc fuel) s benson = pass_loop (suc benson.block_ids.n_feature) 0 s true benson >>= λ r.
    elim r.0 [ true ↦ some r.1 | false ↦ life_loop fuel s r.1 ]

-- A pass that goes on has dropped a block.
unfoldable pub find_benson_life : GoGame → Benson → Option Benson
unfolding life_loop
find_benson_life s benson = life_loop (suc benson.block_ids.n_feature) s benson

abbrev with_life : Color → ℕ → Bitboard → GoGame → GoGame
with_life Color.black n b s = record s {
  black_life_stones = s.black_life_stones + n;
  benson = record s.benson { black_stones = s.benson.black_stones ∪ b };
}
with_life Color.white n b s = record s {
  white_life_stones = s.white_life_stones + n;
  benson = record s.benson { white_stones = s.benson.white_stones ∪ b };
}
with_life _ n b s = s

living_blocks : ℕ → ℕ → Benson → GoGame → GoGame
unfolding get_num_stone ◌∪◌
living_blocks zero i benson s = s
living_blocks (suc n) i benson s =
    let b = block_at s (get_or benson.block_ids.feature_index i 0) in
    living_blocks n (suc i) benson (with_life b.color (get_num_stone b) b.grids s)

living_areas : ℕ → ℕ → Benson → GoGame → GoGame
unfolding ◌∪◌
living_areas zero i benson s = s
living_areas (suc n) i benson s =
    let a = area_at s (get_or benson.area_ids.feature_index i 0) in
    living_areas n (suc i) benson (with_life a.color a.num_stone a.stones s)

unfoldable pub set_benson_life : Benson → GoGame → GoGame
unfolding living_blocks living_areas
set_benson_life benson s =
    living_areas benson.area_ids.n_feature 0 benson
      (living_blocks benson.block_ids.n_feature 0 benson s)

unfoldable pub set_full_board_benson_life : GoGame → Option GoGame
unfolding find_benson_set find_benson_life set_benson_life
set_full_board_benson_life s =
    find_benson_life s (find_benson_set s) >>= λ benson. some (set_benson_life benson s)

unfoldable pub find_full_board_uct_closed_area : GoGame → Option GoGame
unfolding set_full_board_closed_area set_full_board_benson_life
find_full_board_uct_closed_area s =
    set_full_board_closed_area black s
    >>= set_full_board_closed_area white
    >>= set_full_board_benson_life
