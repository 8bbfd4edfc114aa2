-- ===== src/Games/Go/State.antt =====
-- Games/Go.cpp: the state of a game, and the operations on its grids and blocks. A null pointer, a
-- pointer past an array and a probe without end are `none`. The members `m_vclosedAreas` and
-- `m_bmclosedAreaUsage`, which are only cleared, are left out.
pub mod Frame
pub mod Joins
pub mod Linked
pub mod Check
use proof_cost_network.Base.{
  ℕ, zero, suc, true, false, List, [], ◌∷◌, map, Option, none, some, ◌>>=◌, if◌then◌else◌, ltb,
  get_or, set, replicate, length, bit_xor,
}
use proof_cost_network.Base.Text.{Text}
use proof_cost_network.Board.Color.{Color, black, white, eqb, against_color}
use proof_cost_network.Board.Move.{Move}
use proof_cost_network.Board.Bitboard
use proof_cost_network.Board.Bitboard.{
  Bitboard, set_bit_on, set_bit_off, complement, ◌∪◌, ◌∖◌, bit_count, is_empty, bit_scan_forward,
  positions,
}
use proof_cost_network.Storage.HashTable
use proof_cost_network.Storage.HashTable.{HashTable}
use proof_cost_network.Storage.FeatureList
use proof_cost_network.Storage.FeatureList.{FeatureList}
use proof_cost_network.Games.Go.Area
use proof_cost_network.Games.Go.Area.{
  GoClosedArea, board_size, num_grids, max_num_moves, area_feature, empty_ids, life,
}
use proof_cost_network.Games.Go.Block
use proof_cost_network.Games.Go.Block.{GoBlock, combine, add_hash_key, delete_closed_areas}
use proof_cost_network.Games.Go.Grid
use proof_cost_network.Games.Go.Grid.{GoGrid, get_neighbors, delete_closed_area}

-- The stones of both colours.
pub record Stones : Type 0 where
  pub black_stones : Bitboard
  pub white_stones : Bitboard

abbrev pub no_stones : Stones
no_stones = record {
  black_stones = replicate max_num_moves false;
  white_stones = replicate max_num_moves false;
}

-- The random keys, which are drawn once.
pub record HashKeys : Type 0 where
  pub grid_hash : ℕ → Color → ℕ
  pub ko_hash : ℕ → ℕ
  pub two_pass : ℕ
  pub turn : ℕ

pub record GoGame : Type 0 where
  pub turn_color : Color
  pub hash_key : ℕ
  pub moves : List Move
  pub grids : List GoGrid
  pub blocks : List GoBlock
  -- The blocks that are not in use.
  pub block_usage : Bitboard
  pub stones : Stones
  pub stone_history : List Stones
  pub hash_table : HashTable
  pub hashes : List ℕ
  pub force_moves : List (ℕ × Text)
  pub closed_areas : FeatureList GoClosedArea
  pub benson : Stones
  pub black_life_stones : ℕ
  pub white_life_stones : ℕ

abbrev pub blank_grid : GoGrid
blank_grid = record { color = Color.none; block = none; black_area = none; white_area = none }

abbrev pub blank_block : GoBlock
blank_block = record {
  index = 0;
  color = Color.none;
  hash_key = 0;
  grids = [];
  liberties = [];
  closed_areas = empty_ids max_num_moves;
  status = life;
}

abbrev pub grid_at : GoGame → ℕ → GoGrid
grid_at s p = get_or s.grids p blank_grid

abbrev pub block_at : GoGame → ℕ → GoBlock
block_at s i = get_or s.blocks i blank_block

abbrev pub set_grid : ℕ → GoGrid → GoGame → GoGame
set_grid p g s = record s { grids = set s.grids p g }

abbrev pub set_block : ℕ → GoBlock → GoGame → GoGame
set_block i b s = record s { blocks = set s.blocks i b }

abbrev pub stones_of : Color → Stones → Bitboard
stones_of c b = if eqb c black then b.black_stones else b.white_stones

unfoldable pub get_color : GoGame → ℕ → Color
get_color s p = (grid_at s p).color

unfoldable pub reset_ca : GoGame → GoGame
unfolding FeatureList.reset delete_closed_area delete_closed_areas
reset_ca s = record s {
  closed_areas = FeatureList.reset area_feature s.closed_areas;
  black_life_stones = 0;
  white_life_stones = 0;
  grids = map delete_closed_area s.grids;
  blocks = map delete_closed_areas s.blocks;
  benson = no_stones;
}

unfoldable pub reset : GoGame → GoGame
unfolding complement Bitboard.reset Grid.clear Block.clear HashTable.clear reset_ca
reset s = reset_ca (record s {
  turn_color = black;
  hash_key = 0;
  moves = [];
  stones = no_stones;
  stone_history = [];
  block_usage = complement (Bitboard.reset max_num_moves);
  grids = map (λ _. Grid.clear) s.grids;
  blocks = map Block.clear s.blocks;
  hash_table = HashTable.clear s.hash_table;
  hashes = [];
})

new_blocks : ℕ → ℕ → List GoBlock
unfolding Block.new_at
new_blocks zero i = []
new_blocks (suc n) i = Block.new_at i ∷ new_blocks n (suc i)

-- The constructor: `_initialize`, with the force moves as they are read, and `reset`.
unfoldable pub initialize : List (ℕ × Text) → HashTable → GoGame
unfolding new_blocks reset Grid.clear
initialize force_moves table = reset (record {
  turn_color = Color.none;
  hash_key = 0;
  moves = [];
  grids = replicate num_grids Grid.clear;
  blocks = new_blocks num_grids 0;
  block_usage = replicate max_num_moves false;
  stones = no_stones;
  stone_history = [];
  hash_table = table;
  hashes = [];
  force_moves = force_moves;
  closed_areas = record {
    capacity = 0;
    size = 0;
    elements = replicate max_num_moves Area.blank_area;
    free = record { size = 0; elems = replicate max_num_moves 0 };
  };
  benson = no_stones;
  black_life_stones = 0;
  white_life_stones = 0;
})

unfoldable pub on_board : Color → ℕ → Stones → Stones
unfolding set_bit_on set_bit_off
on_board Color.black p b = record b { black_stones = set_bit_on p b.black_stones }
on_board Color.white p b = record b { white_stones = set_bit_on p b.white_stones }
on_board _ p b = record {
  black_stones = set_bit_off p b.black_stones;
  white_stones = set_bit_off p b.white_stones;
}

abbrev pub recolored : Color → GoGrid → GoGrid
recolored Color.black g = record g { color = black }
recolored Color.white g = record g { color = white }
recolored c g = record g { color = c; block = none }

-- `_setColor`.
unfoldable pub set_color : Color → ℕ → GoGame → GoGame
unfolding on_board
set_color c p s = record s {
  grids = set s.grids p (recolored c (grid_at s p));
  stones = on_board c p s.stones;
}

-- `_newBlock`.
unfoldable pub new_block : Color → GoGame → Option (ℕ × GoGame)
unfolding bit_scan_forward
new_block c s =
    let scan = bit_scan_forward s.block_usage in
    scan.0 >>= λ i.
    if ltb i (length s.blocks)
    then some (
      i,
      record s {
        block_usage = scan.1;
        blocks = set s.blocks i (record (block_at s i) { color = c });
      },
    )
    else none

-- `_removeBlock`.
unfoldable pub remove_block : ℕ → GoGame → GoGame
unfolding set_bit_on Block.clear
remove_block i s = record s {
  block_usage = set_bit_on (block_at s i).index s.block_usage;
  blocks = set s.blocks i (Block.clear (block_at s i));
}

unfoldable pub add_liberty : ℕ → GoBlock → GoBlock
unfolding set_bit_on
add_liberty p b = record b { liberties = set_bit_on p b.liberties }

unfoldable pub remove_liberty : ℕ → GoBlock → GoBlock
unfolding set_bit_off
remove_liberty p b = record b { liberties = set_bit_off p b.liberties }

-- The neighbours of a removed stone: those of the other colour gain a liberty.
free_neighbors : Color → ℕ → List ℕ → GoGame → Option GoGame
unfolding add_liberty
free_neighbors c p [] s = some s
free_neighbors c p (q ∷ qs) s =
    let g = grid_at s q in
    elim (eqb g.color c) [
      | false ↦ free_neighbors c p qs s
      | true ↦ g.block >>= λ i. free_neighbors c p qs (set_block i (add_liberty p (block_at s i)) s)
    ]

remove_stones : Color → List ℕ → GoGame → Option GoGame
unfolding free_neighbors set_color
remove_stones c [] s = some s
remove_stones c (p ∷ ps) s =
    free_neighbors c p (get_neighbors p) (set_color Color.none p s) >>= remove_stones c ps

-- `_removeBlockAndGrids`.
unfoldable pub remove_block_and_grids : ℕ → GoGame → Option GoGame
unfolding remove_stones remove_block positions
remove_block_and_grids i s =
    let b = block_at s i in
    remove_stones (against_color b.color) (positions b.grids) s >>= λ t. some (remove_block i t)

module _ (keys : HashKeys) where
  -- `_addGridAndLibertiesToBlock`.
  unfoldable pub add_grid_and_liberties_to_block : Move → ℕ → Bitboard → GoGame → GoGame
  unfolding set_bit_on ◌∪◌
  add_grid_and_liberties_to_block m i liberties s =
      let b = block_at s i in
      let joined = record b {
        grids = set_bit_on m.position b.grids;
        liberties = b.liberties ∪ liberties;
        hash_key =
            if eqb m.color Color.none
            then b.hash_key
            else bit_xor b.hash_key (keys.grid_hash m.position m.color);
      } in
      record s {
        grids = set s.grids m.position (record (grid_at s m.position) { block = some i });
        blocks = set s.blocks i joined;
      }

  -- The stones of a block that is built again.
  place_stones : ℕ → List ℕ → GoGame → GoGame
  unfolding set_color add_hash_key
  place_stones i [] s = s
  place_stones i (p ∷ ps) s =
      let c = (block_at s i).color in
      let linked = set_grid p (record (grid_at s p) { block = some i }) s in
      let colored = set_color c p linked in
      place_stones i ps
        (set_block i (add_hash_key (keys.grid_hash p c) (block_at colored i)) colored)

  -- `_addGridsAndLibertiesToBlock`.
  unfoldable pub add_grids_and_liberties_to_block : Bitboard → ℕ → Bitboard → GoGame → GoGame
  unfolding place_stones ◌∪◌ positions
  add_grids_and_liberties_to_block added i liberties s =
      let b = block_at s i in
      let joined = record b { grids = b.grids ∪ added; liberties = b.liberties ∪ liberties } in
      place_stones i (positions added) (set_block i joined s)

link_grids : ℕ → List ℕ → GoGame → GoGame
link_grids i [] s = s
link_grids i (p ∷ ps) s = link_grids i ps (set_grid p (record (grid_at s p) { block = some i }) s)

-- The second block goes into the first.
combine_into : ℕ → ℕ → GoGame → GoGame
unfolding link_grids remove_block combine positions
combine_into i j s =
    let merged = set_block i (combine (block_at s j) (block_at s i)) s in
    remove_block j (link_grids i (positions (block_at merged j).grids) merged)

-- `_combineBlocks`: the smaller block goes into the larger one.
unfoldable pub combine_blocks : ℕ → ℕ → GoGame → ℕ × GoGame
unfolding combine_into bit_count
combine_blocks i j s =
    if ltb (bit_count (block_at s i).grids) (bit_count (block_at s j).grids)
    then (j, combine_into j i s)
    else (i, combine_into i j s)
