-- ===== src/Examples/DepthRun.antt =====
-- The depth solver on the start of Gomoku, and on a position of tic-tac-toe that Black wins at 2.
use proof_cost_network.Base.{ℕ, ◌≡◌, refl, ◌↔◌, false, List, length-replicate}
use proof_cost_network.Base.Int.{pos, negsuc}
use proof_cost_network.Board.Move.{Move}
use proof_cost_network.Solver.Game.{Game, all_moves, ◌∈◌}
use proof_cost_network.Solver.Depth.{
  find_winning_path, must_loss_within, find_win_depth, find_loss_depth, find_win_moves,
}
use proof_cost_network.Solver.Depth.Within.{WinsWithin, LosesWithin}
use proof_cost_network.Solver.Depth.Laws.{ListsMoves, Decides, find_winning_path-Decides}
use proof_cost_network.Solver.Depth.Deepening.{
  IsLeast, Wins, find_depth-IsLeast, find_win_moves-lists,
}
use proof_cost_network.Games.TieTacToe.AsGame.{tie_tac_toe}
use proof_cost_network.Games.Gomoku.{new_game}
use proof_cost_network.Games.Gomoku.AsGame as Gomoku
use proof_cost_network.Games.Gomoku.AsGame.{gomoku}
use proof_cost_network.Board.Color
use proof_cost_network.Examples.Cells.{black_to_move, black-running}

-- The moves in the order of their positions.
abbrev network : (game : Game) → game.Position → List Move
network game g = all_moves game g

lists : (game : Game) → ListsMoves game (network game)
lists game g m = (λ h. h, λ p. p.0)

abbrev five : Game
five = gomoku (λ p c. p)

-- The start of Gomoku.
abbrev opening : Gomoku.Position
unfolding new_game
opening = (new_game, (length-replicate 225 Color.none, refl))

find_winning_path-Decides_example :
    ((d : ℕ)
      → Decides five
          (network five)
          (WinsWithin five d)
          (find_winning_path five (network five) (pos d) opening)
          opening
        × Decides five
            (network five)
            (LosesWithin five d)
            (must_loss_within five (network five) (pos d) opening)
            opening)
    × ((d : ℕ)
        → (find_winning_path five (network five) (negsuc d) opening ≡ (false, opening))
          × (must_loss_within five (network five) (negsuc d) opening ≡ (false, opening)))
find_winning_path-Decides_example =
    find_winning_path-Decides five (network five) (lists five) opening

find_depth-IsLeast_example :
    (((find_win_depth tie_tac_toe (network tie_tac_toe) 3 black_to_move).1 ≡ black_to_move)
      × IsLeast
          (λ d. WinsWithin tie_tac_toe d black_to_move)
          0
          4
          (find_win_depth tie_tac_toe (network tie_tac_toe) 3 black_to_move).0)
    × (((find_loss_depth tie_tac_toe (network tie_tac_toe) 3 black_to_move).1 ≡ black_to_move)
        × IsLeast
            (λ d. LosesWithin tie_tac_toe d black_to_move)
            0
            4
            (find_loss_depth tie_tac_toe (network tie_tac_toe) 3 black_to_move).0)
find_depth-IsLeast_example =
    find_depth-IsLeast tie_tac_toe (network tie_tac_toe) (lists tie_tac_toe) 3 black_to_move

find_win_moves-lists_example :
    ((find_win_moves tie_tac_toe (network tie_tac_toe) 2 black_to_move).1 ≡ black_to_move)
    × ((p : ℕ)
        → (p ∈ (find_win_moves tie_tac_toe (network tie_tac_toe) 2 black_to_move).0)
          ↔ Wins tie_tac_toe
              (network tie_tac_toe)
              (lists tie_tac_toe)
              2
              black_to_move
              (all_moves tie_tac_toe black_to_move)
              p)
find_win_moves-lists_example =
    find_win_moves-lists tie_tac_toe (network tie_tac_toe) (lists tie_tac_toe) 2 black_to_move
      black-running
