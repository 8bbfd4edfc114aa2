-- ===== src/Games/Go/Play.antt =====
-- Games/Go.cpp: `play`.
pub mod Undo
pub mod Capture
pub mod Collect
pub mod Rounds
pub mod Keys
pub mod Stone
pub mod SuperKo
use proof_cost_network.Base.{
  ℕ, zero, suc, ◌-◌, true, false, not, List, [], ◌∷◌, ◌++◌, Option, none, some, ◌>>=◌,
  if◌then◌else◌, ◌==◌, get_or, length, bit_xor, pop_back, back,
}
use proof_cost_network.Board.Color.{Color, black, white, eqb, against_color}
use proof_cost_network.Board.Move.{Move, is_pass}
use proof_cost_network.Board.Bitboard
use proof_cost_network.Board.Bitboard.{
  Bitboard, set_bit_on, set_bit_off, one_hot, ◌∪◌, ◌∩◌, ◌∖◌, bit_count, is_empty, equal,
  bit_scan_forward, dilation, floodfill,
}
use proof_cost_network.Storage.HashTable
use proof_cost_network.Games.Go.Area.{board_size, num_grids, max_num_moves}
use proof_cost_network.Games.Go.Block.{remove_grid_on_boundary, remove_grids}
use proof_cost_network.Games.Go.Grid.{get_neighbors}
use proof_cost_network.Games.Go.State.{
  no_stones, HashKeys, GoGame, grid_at, block_at, set_block, add_liberty, remove_liberty, reset,
  set_color, new_block, remove_block, remove_block_and_grids, add_grid_and_liberties_to_block,
  add_grids_and_liberties_to_block, combine_blocks,
}

-- What `play` collects from the neighbours: the empty ones, and the blocks with their stones.
pub record Neighbors : Type 0 where
  pub liberties : Bitboard
  pub own_map : Bitboard
  pub opp_map : Bitboard
  pub own : List ℕ
  pub opp : List ℕ

unfoldable pub no_neighbors : Neighbors
unfolding Bitboard.reset
no_neighbors = record {
  liberties = Bitboard.reset max_num_moves;
  own_map = Bitboard.reset max_num_moves;
  opp_map = Bitboard.reset max_num_moves;
  own = [];
  opp = [];
}

-- The loop over the neighbours; a block that was met before adds no stones.
unfoldable pub collect_neighbors : Color → GoGame → List ℕ → Neighbors → Option Neighbors
unfolding set_bit_on ◌∖◌ ◌∪◌ is_empty
collect_neighbors c s [] n = some n
collect_neighbors c s (q ∷ qs) n =
    let g = grid_at s q in
    elim (eqb g.color Color.none) [
      | true ↦ collect_neighbors c s qs (record n { liberties = set_bit_on q n.liberties })
      | false ↦ g.block >>= λ i.
          let grids = (block_at s i).grids in
          collect_neighbors c s qs (
            if eqb g.color c
            then (if is_empty (grids ∖ n.own_map)
                then n
                else record n { own_map = n.own_map ∪ grids; own = n.own ++ i ∷ [] })
            else (if is_empty (grids ∖ n.opp_map)
                then n
                else record n { opp_map = n.opp_map ∪ grids; opp = n.opp ++ i ∷ [] }))
    ]

-- The first own block takes the others in.
pub combine_all : ℕ → List ℕ → GoGame → ℕ × GoGame
unfolding combine_blocks
combine_all i [] s = (i, s)
combine_all i (j ∷ js) s = let r = combine_blocks i j s in combine_all r.0 js r.1

module _ (keys : HashKeys) where
  -- The neighbours of the own colour.
  unfoldable pub join_own : Move → Neighbors → GoGame → Option GoGame
  unfolding new_block add_grid_and_liberties_to_block combine_all remove_liberty is_empty
  join_own m n s = elim (is_empty n.own_map) [
    | true ↦ new_block m.color s >>= λ r.
        some (add_grid_and_liberties_to_block keys m r.0 n.liberties r.1)
    | false ↦ elim n.own [
      | [] ↦ none
      | i ∷ rest ↦
          let joined =
            combine_all i rest (add_grid_and_liberties_to_block keys m i n.liberties s) in
          some
            (set_block joined.0 (remove_liberty m.position (block_at joined.1 joined.0)) joined.1)
    ]
  ]

  -- The neighbours of the other colour, which die with their last liberty.
  unfoldable pub capture : ℕ → List ℕ → GoGame → Option GoGame
  unfolding remove_liberty remove_block_and_grids bit_count
  capture p [] s = some s
  capture p (i ∷ js) s =
      let b = remove_liberty p (block_at s i) in
      let t = set_block i b s in
      elim (bit_count b.liberties == 0) [
        | true ↦
            remove_block_and_grids i (record t { hash_key = bit_xor t.hash_key b.hash_key })
            >>= capture p js
        | false ↦ capture p js t
      ]

  abbrev pub with_history : GoGame → GoGame
  with_history s = record s {
    stone_history = s.stone_history ++ s.stones ∷ [];
    hashes = s.hashes ++ s.hash_key ∷ [];
  }

  -- `_Game::play`, and the change of the turn.
  unfoldable pub turned : Move → GoGame → GoGame
  unfolding against_color
  turned m s = record s {
    moves = s.moves ++ m ∷ [];
    turn_color = against_color m.color;
    hash_key = bit_xor s.hash_key keys.turn;
  }

  -- The stone itself.
  unfoldable pub placed : Move → GoGame → GoGame
  unfolding set_color
  placed m s =
      let colored = set_color m.color m.position s in
      record colored { hash_key = bit_xor colored.hash_key (keys.grid_hash m.position m.color) }

  unfoldable pub play : Move → GoGame → Option GoGame
  unfolding turned is_pass no_neighbors placed collect_neighbors join_own capture HashTable.store
  play m s =
      let begun = turned m s in
      elim (is_pass board_size m) [
        | true ↦ some (with_history begun)
        | false ↦
            let stone = placed m begun in
            collect_neighbors m.color stone (get_neighbors m.position) no_neighbors >>= λ n.
            join_own m n stone >>= λ joined. capture m.position n.opp joined >>= λ captured.
            HashTable.store captured.hash_key captured.hash_table >>= λ table.
            some (with_history (record captured { hash_table = table }))
      ]
