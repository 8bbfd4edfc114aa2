-- ===== src/Games/Go/Grid.antt =====
-- Games/Go.h: the class GoGrid, a point of the board.
use proof_cost_network.Base.{
  ℕ, ◌+◌, ◌*◌, ◌/◌, ◌%◌, List, [], ◌∷◌, Option, none, some, ltb, if◌then◌else◌,
}
use proof_cost_network.Base.Int.{ℤ, pos, negsuc, ◌+ℤ◌}
use proof_cost_network.Board.Color.{Color, black, eqb}
use proof_cost_network.Board.Bitboard
use proof_cost_network.Board.Bitboard.{Bitboard, set_bit_on}
use proof_cost_network.Games.Go.Area.{board_size, max_num_moves}

-- A null pointer is `none`; the block and the closed areas of the two colours are indices.
pub record GoGrid : Type 0 where
  pub color : Color
  pub block : Option ℕ
  pub black_area : Option ℕ
  pub white_area : Option ℕ

unfoldable pub clear : GoGrid
clear = record { color = Color.none; block = none; black_area = none; white_area = none }

unfoldable pub get_closed_area : Color → GoGrid → Option ℕ
get_closed_area c g = if eqb c black then g.black_area else g.white_area

unfoldable pub set_closed_area : ℕ → Color → GoGrid → GoGrid
set_closed_area area c g =
    if eqb c black then record g { black_area = some area } else record g { white_area = some area }

unfoldable pub delete_closed_area : GoGrid → GoGrid
delete_closed_area g = record g { black_area = none; white_area = none }

-- `_isOnBoard` of a coordinate, and the coordinate as a number.
abbrev coordinate : ℤ → Option ℕ
coordinate (pos n) = if ltb n board_size then some n else none
coordinate (negsuc n) = none

-- The index of a position, if it is on the board.
abbrev place : ℤ → ℤ → Option ℕ
place x y = elim (coordinate x) [
  | none ↦ none
  | some i ↦ elim (coordinate y) [ none ↦ none | some j ↦ some (j * board_size + i) ]
]

on_board_places : ℕ → List (ℤ × ℤ) → List ℕ
unfolding ◌+ℤ◌
on_board_places p [] = []
on_board_places p ((dx, dy) ∷ rest) =
    elim (place (dx +ℤ pos (p % board_size)) (dy +ℤ pos (p / board_size))) [
      | none ↦ on_board_places p rest
      | some q ↦ q ∷ on_board_places p rest
    ]

-- The two parts of `_initializeNeighbors`.
unfoldable pub get_neighbors : ℕ → List ℕ
unfolding on_board_places
get_neighbors p =
    on_board_places p ((pos 0, pos 1) ∷ (pos 1, pos 0) ∷ (pos 0, negsuc 0) ∷ (negsuc 0, pos 0) ∷ [])

abbrev pub set_bits_on : List ℕ → Bitboard → Bitboard
set_bits_on [] b = b
set_bits_on (p ∷ ps) b = set_bits_on ps (set_bit_on p b)

unfoldable pub get_eye_corners : ℕ → Bitboard
unfolding on_board_places set_bit_on Bitboard.reset
get_eye_corners p =
    set_bits_on
      (on_board_places p
        ((negsuc 0, negsuc 0) ∷ (negsuc 0, pos 1) ∷ (pos 1, negsuc 0) ∷ (pos 1, pos 1) ∷ []))
      (Bitboard.reset max_num_moves)
