-- ===== src/Examples/Cells.antt =====
-- Positions of tic-tac-toe with two empty cells.
use proof_cost_network.Base.{◌≡◌, refl, false, [], ◌∷◌}
use proof_cost_network.Board.Color
use proof_cost_network.Board.Color.{black, white}
use proof_cost_network.Games.TieTacToe
use proof_cost_network.Games.TieTacToe.AsGame.{Position, tie_tac_toe}

-- Black wins at 2.
abbrev pub black_to_move : Position
black_to_move = (
  record {
    turn_color = black;
    moves = [];
    board = black ∷ black ∷ Color.none ∷ white ∷ black ∷ white ∷ white ∷ white ∷ Color.none ∷ [];
  },
  refl,
)

-- Black wins next, at 2 or at 8.
abbrev pub white_to_move : Position
white_to_move = (
  record {
    turn_color = white;
    moves = [];
    board = black ∷ black ∷ Color.none ∷ white ∷ black ∷ white ∷ black ∷ white ∷ Color.none ∷ [];
  },
  refl,
)

pub black-running : tie_tac_toe.is_terminal black_to_move ≡ false
unfolding TieTacToe.is_terminal TieTacToe.eval TieTacToe.rows_and_columns TieTacToe.full_line
    TieTacToe.is_full_line TieTacToe.has_empty
black-running = refl
