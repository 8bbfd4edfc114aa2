-- ===== src/Examples/SizeRun.antt =====
-- The size solver on two positions of tic-tac-toe.
use proof_cost_network.Base.{◌≡◌, refl, Bool, true, false, Option, none, some, arith}
use proof_cost_network.Board.Color
use proof_cost_network.Solver.Game
use proof_cost_network.Solver.Size
use proof_cost_network.Solver.Game.{Playable}
use proof_cost_network.Solver.Size.{loss, unsolved, Solved, find_win_tree_size, find_loss_tree_size}
use proof_cost_network.Solver.Size.Fuel.{find_tree_size-returns}
use proof_cost_network.Games.TieTacToe
use proof_cost_network.Games.TieTacToe.AsGame.{tie_tac_toe, always_moves}
use proof_cost_network.Examples.Cells.{black_to_move, white_to_move}

abbrev given : Option (Solved tie_tac_toe) → Bool
given none = false
given (some r) = true

abbrev answer : Option (Solved tie_tac_toe) → Solved tie_tac_toe
answer none = record { outcome = unsolved; size = 0; position = black_to_move }
answer (some r) = r

-- White loses, and the tree that shows it is found.
loss_found : (answer (find_loss_tree_size tie_tac_toe 9 9 white_to_move)).outcome ≡ loss
unfolding find_win_tree_size Size.guarded Size.win_body Size.loss_body Size.win_loop Size.pass_loop
    Size.rest_loop Size.any_passed Size.count_legal Size.try_move Size.negated Size.count_subtree
    Size.ended Game.moves_from TieTacToe.is_terminal TieTacToe.eval TieTacToe.rows_and_columns
    TieTacToe.full_line TieTacToe.is_full_line TieTacToe.has_empty TieTacToe.is_legal_move
    TieTacToe.play TieTacToe.undo Color.against_color Size.max_outcome
loss_found = refl

find_tree_size-returns_example :
    ((r : Solved tie_tac_toe) × (find_win_tree_size tie_tac_toe 9 9 black_to_move ≡ some r))
    × ((r : Solved tie_tac_toe) × (find_loss_tree_size tie_tac_toe 9 9 black_to_move ≡ some r))
find_tree_size-returns_example =
    find_tree_size-returns tie_tac_toe always_moves 9 9 black_to_move (omega arith)
