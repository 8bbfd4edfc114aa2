-- ===== src/Games/Go/Legal/Influence.antt =====
-- Games/Go.cpp: what a move would do.
use proof_cost_network.Base.{
  ℕ, zero, suc, Bool, true, false, List, [], ◌∷◌, Option, none, some, ◌>>=◌, if◌then◌else◌, ◌==◌,
}
use proof_cost_network.Board.Color.{Color, eqb, against_color}
use proof_cost_network.Board.Move.{Move, is_pass}
use proof_cost_network.Board.Bitboard
use proof_cost_network.Board.Bitboard.{
  Bitboard, bit_is_on, set_bit_on, set_bit_off, one_hot, ◌∪◌, ◌∩◌, ◌∖◌, bit_count, is_empty, equal,
  bit_scan_forward, dilation,
}
use proof_cost_network.Games.Go.Area.{board_size, max_num_moves}
use proof_cost_network.Games.Go.Block.{get_num_liberty, get_stone_nbr_map}
use proof_cost_network.Games.Go.Grid.{get_neighbors}
use proof_cost_network.Games.Go.State.{GoGame, grid_at, block_at, stones_of}

-- The own blocks at the neighbours.
own_stones : Color → GoGame → List ℕ → Bitboard → Option Bitboard
unfolding ◌∪◌
own_stones c s [] b = some b
own_stones c s (q ∷ qs) b =
    let g = grid_at s q in
    elim (eqb g.color c) [
      | true ↦ g.block >>= λ i. own_stones c s qs (b ∪ (block_at s i).grids)
      | false ↦ own_stones c s qs b
    ]

unfoldable pub get_stone_bit_board_after_play : Move → GoGame → Option Bitboard
unfolding own_stones get_neighbors Bitboard.reset set_bit_on
get_stone_bit_board_after_play m s =
    own_stones m.color s (get_neighbors m.position) (Bitboard.reset max_num_moves) >>= λ b.
    some (set_bit_on m.position b)

-- The liberties are compared with the set that the number 1 converts to: the position 1 alone.
liberty_loop : Color → GoGame → List ℕ → Bitboard → Bitboard → Option (Bitboard × Bitboard)
unfolding ◌∪◌ ◌∖◌ equal one_hot get_stone_nbr_map against_color
liberty_loop c s [] new exclude = some (new, exclude)
liberty_loop c s (q ∷ qs) new exclude =
    let g = grid_at s q in
    elim (eqb g.color c) [
      | true ↦ g.block >>= λ i. liberty_loop c s qs (new ∪ get_stone_nbr_map (block_at s i)) exclude
      | false ↦ elim (eqb g.color (against_color c)) [
        | true ↦ g.block >>= λ i.
            let b = block_at s i in
            liberty_loop c s qs new
              (if equal b.liberties (one_hot max_num_moves 1) then exclude ∖ b.grids else exclude)
        | false ↦ liberty_loop c s qs new exclude
      ]
    ]

all_on : List ℕ → Bitboard → Bitboard
unfolding set_bit_on
all_on [] b = b
all_on (q ∷ qs) b = all_on qs (set_bit_on q b)

unfoldable pub get_liberty_bit_board_after_play : Move → GoGame → Option Bitboard
unfolding liberty_loop all_on get_neighbors Bitboard.reset set_bit_on set_bit_off ◌∪◌ ◌∖◌
get_liberty_bit_board_after_play m s =
    let nbr = get_neighbors m.position in
    let new = all_on nbr (set_bit_on m.position (Bitboard.reset max_num_moves)) in
    liberty_loop m.color s nbr new (s.stones.black_stones ∪ s.stones.white_stones) >>= λ r.
    some (set_bit_off m.position (r.0 ∖ r.1))

unfoldable pub get_num_liberty_after_play : Move → GoGame → Option ℕ
unfolding get_liberty_bit_board_after_play bit_count
get_num_liberty_after_play m s = get_liberty_bit_board_after_play m s >>= λ b. some (bit_count b)

takes_loop : Color → GoGame → List ℕ → Bool
unfolding get_num_liberty
takes_loop c s [] = false
takes_loop c s (q ∷ qs) =
    let rest = takes_loop c s qs in
    elim (grid_at s q).block [
      | none ↦ rest
      | some i ↦
          if eqb (block_at s i).color c
          then rest
          else if get_num_liberty (block_at s i) == 1
          then true
          else rest
    ]

unfoldable pub is_capture_move : Move → GoGame → Option Bool
unfolding is_pass get_num_liberty_after_play takes_loop get_neighbors
is_capture_move m s = elim (is_pass board_size m) [
  | true ↦ some false
  | false ↦ get_num_liberty_after_play m s >>= λ n.
      some (if n == 0 then false else takes_loop m.color s (get_neighbors m.position))
]

-- The stones of the opponent's blocks that a move takes.
dead_stones : Color → GoGame → List ℕ → Bitboard → Option Bitboard
unfolding ◌∪◌ get_num_liberty
dead_stones c s [] b = some b
dead_stones c s (q ∷ qs) b =
    let g = grid_at s q in
    elim (eqb g.color c) [
      | false ↦ dead_stones c s qs b
      | true ↦ g.block >>= λ i.
          let k = block_at s i in
          dead_stones c s qs (if get_num_liberty k == 1 then b ∪ k.grids else b)
    ]

-- The own blocks next to the dead stones, each once.
own_around : ℕ → GoGame → Bitboard → Bitboard → Option Bitboard
unfolding bit_scan_forward ◌∪◌ ◌∖◌
own_around zero s left b = none
own_around (suc fuel) s left b =
    let scan = bit_scan_forward left in
    elim scan.0 [
      | none ↦ some b
      | some p ↦ (grid_at s p).block >>= λ i.
          own_around fuel s (scan.1 ∖ (block_at s i).grids) (b ∪ (block_at s i).grids)
    ]

-- `getMoveInfluence`: all the stones that a move touches, and the own ones.
unfoldable pub get_move_influence : Move → GoGame → Option (Bitboard × Bitboard)
unfolding is_capture_move dead_stones own_around get_stone_bit_board_after_play is_pass dilation ◌∩◌
    ◌∪◌ Bitboard.reset get_neighbors against_color
get_move_influence m s = is_capture_move m s >>= λ takes. elim takes [
  | true ↦
      dead_stones (against_color m.color) s (get_neighbors m.position)
        (Bitboard.reset max_num_moves)
      >>= λ dead.
          own_around (suc max_num_moves) s
            (dilation max_num_moves board_size dead ∩ stones_of m.color s.stones)
            (Bitboard.reset max_num_moves)
          >>= λ own. some (own ∪ dead, own)
  | false ↦ elim (is_pass board_size m) [
    | true ↦ some (Bitboard.reset max_num_moves, Bitboard.reset max_num_moves)
    | false ↦ get_stone_bit_board_after_play m s >>= λ own. some (own, own)
  ]
]
