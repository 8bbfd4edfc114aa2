-- ===== src/Examples/GameRuns.antt =====
-- Moves of the games.
use proof_cost_network.Base.{ℕ, ◌≡◌, refl, bit_xor, arith, false, [], ◌∷◌}
use proof_cost_network.Board.Color.{Color, black, white}
use proof_cost_network.Board.Move
use proof_cost_network.Board.Move.{Move}
use proof_cost_network.Games.Gomoku
use proof_cost_network.Games.Gomoku.{GomokuGame}
use proof_cost_network.Games.Gomoku.Undo.{undo-play}
use proof_cost_network.Games.TieTacToe
use proof_cost_network.Games.TieTacToe.{TieTacToeGame}
use proof_cost_network.Games.TieTacToe.Laws.{undo-play_in_turn, Winner, eval-Winner}

abbrev centre : Move
centre = record { color = black; position = 112 }

abbrev grid_hash : ℕ → Color → ℕ
grid_hash p c = p

undo-play_example :
    Gomoku.undo grid_hash false (Gomoku.play grid_hash false centre Gomoku.new_game)
    ≡ record Gomoku.new_game {
      hash_key =
          bit_xor (bit_xor Gomoku.new_game.hash_key (grid_hash 112 black)) (grid_hash 112 black);
    }
unfolding Gomoku.new_game Move.is_pass
undo-play_example =
    undo-play grid_hash false centre Gomoku.new_game refl refl (omega arith) refl refl

abbrev middle : Move
middle = record { color = black; position = 4 }

undo-play_in_turn_example :
    TieTacToe.undo (TieTacToe.play middle TieTacToe.new_game) ≡ TieTacToe.new_game
unfolding TieTacToe.new_game
undo-play_in_turn_example = undo-play_in_turn middle TieTacToe.new_game refl (omega arith) refl

-- Black has the diagonal from the right.
abbrev won : TieTacToeGame
won = record {
  turn_color = white;
  moves = [];
  board =
      white ∷ white ∷ black ∷ Color.none ∷ black ∷ Color.none ∷ black ∷ Color.none ∷ Color.none
      ∷ [];
}

eval-Winner_example : Winner won (TieTacToe.eval won)
eval-Winner_example = eval-Winner won
