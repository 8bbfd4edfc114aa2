-- ===== src/Solver/Size/Forced.antt =====
-- Forced wins and losses of the player to move, a draw being neither.
use proof_cost_network.Base.{◌≡◌, ◌≢◌, true, false}
use proof_cost_network.Board.Color
use proof_cost_network.Board.Move.{Move}
use proof_cost_network.Solver.Game.{Game, Playable}
use proof_cost_network.Solver.Size.{Outcome, loss, unsolved, win}

module _ (game : Game) where
  open game use {Position, get_turn_color, is_terminal, eval, play}

  mutual
    pub data Wins : Position → Type 0 where
      won : {g : Position} → is_terminal g ≡ true → eval g ≡ get_turn_color g → Wins g
      wins_by :
          {g : Position} (m : Move)
          → is_terminal g ≡ false
          → Playable game g m
          → Loses (play m g)
          → Wins g

    pub data Loses : Position → Type 0 where
      lost :
          {g : Position}
          → is_terminal g ≡ true
          → eval g ≢ get_turn_color g
          → eval g ≢ Color.none
          → Loses g
      loses_all :
          {g : Position}
          → is_terminal g ≡ false
          → ((m : Move) → Playable game g m → Wins (play m g))
          → Loses g

  -- What an outcome says of its position.
  abbrev pub Holds : Position → Outcome → Type 0
  Holds g win = Wins g
  Holds g loss = Loses g
  Holds g unsolved = Unit
