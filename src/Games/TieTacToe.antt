-- ===== src/Games/TieTacToe.antt =====
-- Games/TieTacToe.h: tic-tac-toe. The comments of a game, which only its records read, are left out.
pub mod AsGame
pub mod Laws
use package.proof_cost_network.Base.{ℕ, zero, suc, ◌+◌, ◌-◌, ◌*◌, Bool, true, false, not, ◌||◌}
use package.proof_cost_network.Base.{
  List, [], ◌∷◌, ◌++◌, Option, none, some, if◌then◌else◌, get_or, set, replicate, last_of, pop_back,
}
use package.proof_cost_network.Board.Color
use package.proof_cost_network.Board.Color.{Color, black, white, eqb, against_color}
use package.proof_cost_network.Board.Move.{Move}

pub record TieTacToeGame : Type 0 where
  pub turn_color : Color
  pub moves : List Move
  pub board : List Color

abbrev pub board_size : ℕ
board_size = 3

abbrev pub max_num_legal_action : ℕ
max_num_legal_action = 9

unfoldable pub new_game : TieTacToeGame
new_game = record {
  turn_color = black;
  moves = [];
  board = replicate (board_size * board_size) Color.none;
}

-- A cell that is off the board has no colour.
abbrev pub cell : TieTacToeGame → ℕ → Color
cell g p = get_or g.board p Color.color_size

unfoldable pub play : Move → TieTacToeGame → TieTacToeGame
play m g = record {
  moves = g.moves ++ m ∷ [];
  board = set g.board m.position m.color;
  turn_color = against_color m.color;
}

unfoldable pub is_legal_move : TieTacToeGame → Move → Bool
is_legal_move g m = eqb (cell g m.position) Color.none

-- The inner loops of `eval`: every cell of the line has the colour.
unfoldable pub is_full_line : TieTacToeGame → Color → List ℕ → Bool
is_full_line g c [] = true
is_full_line g c (p ∷ ps) = if eqb (cell g p) c then is_full_line g c ps else false

-- A row or a column from its first cell, which must have a colour.
unfoldable pub full_line : TieTacToeGame → ℕ → List ℕ → Option Color
unfolding is_full_line
full_line g first line =
    let c = cell g first in
    if not (eqb c Color.none) then (if is_full_line g c line then some c else none) else none

abbrev pub row : ℕ → List ℕ
row i = (i * board_size + 0) ∷ (i * board_size + 1) ∷ (i * board_size + 2) ∷ []

abbrev pub column : ℕ → List ℕ
column i = (0 * board_size + i) ∷ (1 * board_size + i) ∷ (2 * board_size + i) ∷ []

abbrev pub left_up : List ℕ
left_up = 0 ∷ 4 ∷ 8 ∷ []

abbrev pub left_down : List ℕ
left_down = 2 ∷ 4 ∷ 6 ∷ []

-- The rows and the columns, from `i` on with `left` rounds to go.
unfoldable pub rows_and_columns : TieTacToeGame → ℕ → ℕ → Option Color
unfolding full_line
rows_and_columns g zero i = none
rows_and_columns g (suc left) i =
    let rest = rows_and_columns g left (i + 1) in
    elim (full_line g (i * board_size) (row i)) [
      | some c ↦ some c
      | none ↦ elim (full_line g i (column i)) [ some c ↦ some c | none ↦ rest ]
    ]

-- The diagonals are compared with their first cell, even if that is empty.
unfoldable pub eval : TieTacToeGame → Color
unfolding rows_and_columns is_full_line
eval g = elim (rows_and_columns g board_size 0) [
  | some c ↦ c
  | none ↦
      if is_full_line g (cell g 0) left_up
      then cell g 0
      else if is_full_line g (cell g 2) left_down
      then cell g 2
      else Color.none
]

unfoldable pub has_empty : List Color → Bool
has_empty [] = false
has_empty (c ∷ cs) = if eqb c Color.none then true else has_empty cs

unfoldable pub is_terminal : TieTacToeGame → Bool
unfolding eval has_empty
is_terminal g = not (eqb (eval g) Color.none) || not (has_empty g.board)

-- The initial game stays, where the assertion fails.
unfoldable pub undo : TieTacToeGame → TieTacToeGame
undo g = elim (last_of g.moves) [
  | none ↦ g
  | some m ↦ record {
    board = set g.board m.position Color.none;
    turn_color = m.color;
    moves = pop_back g.moves;
  }
]

unfoldable pub get_final_score : TieTacToeGame → List ℕ
unfolding eval
get_final_score g =
    if eqb (eval g) black
    then b'B' ∷ b'+' ∷ b'0' ∷ []
    else if eqb (eval g) white
    then b'W' ∷ b'+' ∷ b'0' ∷ []
    else b'0' ∷ []
