-- ===== src/Solver/Dfpn/Semantics.antt =====
-- What a status claims: the player who moved to a position wins it, or does not.
-- A draw counts against the player who made the last move, as in `evaluate`.
use proof_cost_network.Base.{◌≡◌, ◌≢◌, true, false}
use proof_cost_network.Board.Color.{against_color}
use proof_cost_network.Board.Move.{Move}
use proof_cost_network.Solver.Game.{Game, Playable}
use proof_cost_network.Solver.TreeNode.{
  SolutionStatus, solution_unknown, solution_win, solution_loss,
}

module _ (game : Game) where
  open game use {Position, get_turn_color, is_terminal, eval, play}

  mutual
    pub data MoverWins : Position → Type 0 where
      wins_end :
          {g : Position}
          → is_terminal g ≡ true
          → eval g ≡ against_color (get_turn_color g)
          → MoverWins g
      wins_all :
          {g : Position}
          → is_terminal g ≡ false
          → ((m : Move) → Playable game g m → MoverLoses (play m g))
          → MoverWins g

    pub data MoverLoses : Position → Type 0 where
      loses_end :
          {g : Position}
          → is_terminal g ≡ true
          → eval g ≢ against_color (get_turn_color g)
          → MoverLoses g
      loses_some :
          {g : Position} (m : Move)
          → is_terminal g ≡ false
          → Playable game g m
          → MoverWins (play m g)
          → MoverLoses g

  abbrev pub IsCorrect : Position → SolutionStatus → Type 0
  IsCorrect g solution_unknown = Unit
  IsCorrect g solution_win = MoverWins g
  IsCorrect g solution_loss = MoverLoses g
