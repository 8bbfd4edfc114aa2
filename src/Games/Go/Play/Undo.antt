-- ===== src/Games/Go/Play/Undo.antt =====
-- Games/Go.cpp: `undo`.
use proof_cost_network.Base.{
  ℕ, zero, suc, ◌-◌, true, false, not, List, [], ◌∷◌, Option, none, some, ◌>>=◌, if◌then◌else◌,
  get_or, length, bit_xor, pop_back, back,
}
use proof_cost_network.Board.Color.{Color, black, white, eqb, against_color}
use proof_cost_network.Board.Move.{Move, is_pass}
use proof_cost_network.Board.Bitboard
use proof_cost_network.Board.Bitboard.{
  Bitboard, set_bit_on, set_bit_off, one_hot, ◌∪◌, ◌∩◌, ◌∖◌, bit_count, is_empty, equal,
  bit_scan_forward, dilation, floodfill,
}
use proof_cost_network.Storage.HashTable
use proof_cost_network.Games.Go.Area.{board_size, num_grids, max_num_moves}
use proof_cost_network.Games.Go.Block.{remove_grid_on_boundary, remove_grids}
use proof_cost_network.Games.Go.Grid.{get_neighbors}
use proof_cost_network.Games.Go.State.{
  no_stones, HashKeys, GoGame, grid_at, block_at, set_block, add_liberty, reset, set_color,
  new_block, remove_block, add_grids_and_liberties_to_block,
}

module _ (keys : HashKeys) where
  -- The eaten blocks are built again, one for each region of the eaten stones that are left.
  rebuild : ℕ → Move → Bitboard → Bitboard → GoGame → Option GoGame
  unfolding bit_scan_forward floodfill new_block add_grids_and_liberties_to_block one_hot ◌∖◌
      against_color
  rebuild zero m eaten left s = none
  rebuild (suc fuel) m eaten left s =
      let scan = bit_scan_forward left in
      elim scan.0 [
        | none ↦ some s
        | some p ↦ floodfill max_num_moves board_size eaten p >>= λ grids.
            new_block (against_color m.color) s >>= λ r.
            let built =
              add_grids_and_liberties_to_block keys grids r.0 (one_hot max_num_moves m.position)
                r.1 in
            rebuild fuel m eaten (scan.1 ∖ grids)
              (record built { hash_key = bit_xor built.hash_key (block_at built r.0).hash_key })
      ]

-- The own blocks at the border of the eaten stones lose those liberties.
restore_border : ℕ → Bitboard → Bitboard → GoGame → Option GoGame
unfolding bit_scan_forward dilation ◌∩◌ ◌∖◌
restore_border zero eaten left s = none
restore_border (suc fuel) eaten left s =
    let scan = bit_scan_forward left in
    elim scan.0 [
      | none ↦ some s
      | some p ↦ (grid_at s p).block >>= λ i.
          let b = block_at s i in
          let lost = dilation max_num_moves board_size b.grids ∩ eaten in
          restore_border fuel eaten (scan.1 ∖ b.grids)
            (set_block i (record b { liberties = b.liberties ∖ lost }) s)
    ]

module _ (keys : HashKeys) where
  -- An own neighbour of the stone that is taken back: its block loses the stone, or is split.
  unfoldable pub detach_own : Move → ℕ → ℕ → Bitboard → GoGame → Option (Bitboard × GoGame)
  unfolding set_bit_off floodfill is_empty ◌∖◌ ◌∪◌ ◌∩◌ equal remove_grid_on_boundary dilation
      one_hot new_block add_grids_and_liberties_to_block remove_grids
  detach_own m q i own_map s =
      let b = block_at s i in
      let without = set_bit_off m.position b.grids in
      floodfill max_num_moves board_size without q >>= λ region.
      if is_empty (region ∖ own_map)
      then some (own_map, s)
      else (if equal region without
          then some (
            own_map ∪ region,
            set_block i (remove_grid_on_boundary m.position (keys.grid_hash m.position m.color) b)
                s,
          )
          else new_block m.color s >>= λ r.
              let liberties =
                (dilation max_num_moves board_size region ∩ b.liberties)
                ∪ one_hot max_num_moves m.position in
              let built = add_grids_and_liberties_to_block keys region r.0 liberties r.1 in
              some (
                own_map ∪ region,
                set_block i (remove_grids region (block_at built r.0).hash_key (block_at built i))
                    built,
              ))

  -- The loop over the neighbours of the stone that is taken back. The stones of the blocks of the
  -- other colour are collected by the source and not used.
  unfoldable pub undo_neighbors : Move → List ℕ → Bitboard → GoGame → Option (Bitboard × GoGame)
  unfolding detach_own add_liberty
  undo_neighbors m [] own_map s = some (own_map, s)
  undo_neighbors m (q ∷ qs) own_map s =
      let g = grid_at s q in
      elim (eqb g.color Color.none) [
        | true ↦ undo_neighbors m qs own_map s
        | false ↦ g.block >>= λ i. elim (eqb g.color m.color) [
          | true ↦ detach_own m q i own_map s >>= λ r. undo_neighbors m qs r.0 r.1
          | false ↦
              undo_neighbors m qs own_map (set_block i (add_liberty m.position (block_at s i)) s)
        ]
      ]

  -- The stones that the last move took.
  unfoldable pub get_eaten : Move → GoGame → Bitboard
  unfolding ◌∖◌ one_hot Bitboard.reset
  get_eaten m s =
      let before = get_or s.stone_history (length s.moves - 2) no_stones in
      if eqb m.color black
      then before.white_stones ∖ s.stones.white_stones ∖ one_hot max_num_moves num_grids
      else if eqb m.color white
      then before.black_stones ∖ s.stones.black_stones ∖ one_hot max_num_moves num_grids
      else Bitboard.reset max_num_moves

  -- The stone boards are read at the index behind the last one that is left, where the boards that
  -- were just popped still stand.
  abbrev pub last_removed : Move → GoGame → GoGame
  last_removed m s = record s {
    stones = get_or s.stone_history (length s.moves - 1) no_stones;
    stone_history = pop_back s.stone_history;
    moves = pop_back s.moves;
    turn_color = m.color;
  }

  unfoldable pub restore_eaten : Move → Bitboard → GoGame → Option GoGame
  unfolding is_empty rebuild restore_border dilation one_hot ◌∖◌
  restore_eaten m eaten s =
      if is_empty eaten
      then some s
      else (rebuild keys (suc max_num_moves) m eaten eaten s >>= λ built.
          restore_border (suc max_num_moves) eaten
            (dilation max_num_moves board_size eaten ∖ eaten ∖ one_hot max_num_moves m.position)
            built)

  -- The stone itself is taken back.
  unfoldable pub remove_stone : Move → Bitboard → GoGame → Option GoGame
  unfolding is_empty remove_block set_color
  remove_stone m own_map s =
      (if not (is_empty own_map)
        then some s
        else (grid_at s m.position).block >>= λ i. some (remove_block i s))
      >>= λ t.
          let u = set_color Color.none m.position t in
          some (record u { hashes = pop_back u.hashes })

  abbrev no_move : Move
  no_move = record { color = Color.none; position = 0 }

  -- A move that is no pass and not the first.
  unfoldable pub undo_stone : Move → GoGame → Option GoGame
  unfolding get_eaten restore_eaten undo_neighbors remove_stone HashTable.erase Bitboard.reset
  undo_stone m s =
      let back = last_removed m s in
      HashTable.erase back.hash_key back.hash_table >>= λ table.
      restore_eaten m (get_eaten m s) (record back {
        hash_table = table;
        hash_key = bit_xor back.hash_key (keys.grid_hash m.position m.color);
      })
      >>= λ restored.
          undo_neighbors m (get_neighbors m.position) (Bitboard.reset max_num_moves)
            (record restored { hash_key = bit_xor restored.hash_key keys.turn })
          >>= λ r. remove_stone m r.0 r.1

  unfoldable pub undo : GoGame → Option GoGame
  unfolding reset is_pass undo_stone
  undo s =
      let m = back s.moves no_move in
      elim s.moves [
        | [] ↦ some s
        | _ ∷ rest ↦ elim rest [
          | [] ↦ some (reset s)
          | _ ∷ _ ↦ elim (is_pass board_size m) [
            | true ↦
                let taken = last_removed m s in
                some (record taken {
                  hash_key = bit_xor taken.hash_key keys.turn;
                  hashes = pop_back taken.hashes;
                })
            | false ↦ undo_stone m s
          ]
        ]
      ]
