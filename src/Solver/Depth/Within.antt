-- ===== src/Solver/Depth/Within.antt =====
-- What the depth solver is to decide: the player to move forces a win, or loses, within `d` moves.
use proof_cost_network.Base.{ℕ, suc, ◌≡◌, ◌≢◌, true, false}
use proof_cost_network.Board.Color
use proof_cost_network.Board.Move.{Move}
use proof_cost_network.Solver.Game.{Game, Playable}

module _ (game : Game) where
  open game use {Position, get_turn_color, is_terminal, eval, play}

  mutual
    pub data WinsWithin : ℕ → Position → Type 0 where
      won :
          {d : ℕ} {g : Position} → is_terminal g ≡ true → eval g ≡ get_turn_color g → WinsWithin d g
      wins_by :
          {d : ℕ} {g : Position} (m : Move)
          → is_terminal g ≡ false
          → Playable game g m
          → LosesWithin d (play m g)
          → WinsWithin (suc d) g

    pub data LosesWithin : ℕ → Position → Type 0 where
      lost :
          {d : ℕ} {g : Position}
          → is_terminal g ≡ true
          → eval g ≢ get_turn_color g
          → eval g ≢ Color.none
          → LosesWithin d g
      loses_all :
          {d : ℕ} {g : Position}
          → is_terminal g ≡ false
          → ((m : Move) → Playable game g m → WinsWithin d (play m g))
          → LosesWithin (suc d) g
