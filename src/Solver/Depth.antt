-- ===== src/Solver/Depth.antt =====
-- MiniZero/DepthSolver.h: depth-limited search for a forced win, with iterative deepening.
-- A position is passed on where the source changes it in place.
pub mod Within
pub mod Laws
pub mod Deepening
pub mod Problems
use package.proof_cost_network.Base.{
  ℕ, zero, suc, ◌+◌, ◌-◌, Bool, true, false, not, List, [], ◌∷◌, Option, none, some,
}
use package.proof_cost_network.Base.{◌&&◌, leb, ltb, if◌then◌else◌, ◌++◌}
use package.proof_cost_network.Base.Int.{ℤ, pos, negsuc}
use package.proof_cost_network.Board.Color
use package.proof_cost_network.Board.Color.{Color, eqb}
use package.proof_cost_network.Board.Move.{Move}
use package.proof_cost_network.Solver.Game.{Game, all_moves}

abbrev pub depth_for_network : ℕ
depth_for_network = 4

-- `network` is the order in which `Network::getProbability` lists the moves of a position.
module _ (game : Game) (network : game.Position → List Move) where
  open game use {Position, get_turn_color, is_terminal, eval, is_legal_move, play, undo}

  -- The loop that stops with `true` at the first legal move after which `test` holds.
  any_reply : (Position → Bool × Position) → List Move → Position → Bool × Position
  any_reply test [] g = (false, g)
  any_reply test (m ∷ ms) g = elim (is_legal_move g m) [
    | false ↦ any_reply test ms g
    | true ↦
        let (opponent_loss, g') = test (play m g) in
        let restored = undo g' in
        elim opponent_loss [ true ↦ (true, restored) | false ↦ any_reply test ms restored ]
  ]

  -- The loop that stops with `false` at the first legal move after which `test` fails.
  all_replies : (Position → Bool × Position) → List Move → Position → Bool × Position
  all_replies test [] g = (true, g)
  all_replies test (m ∷ ms) g = elim (is_legal_move g m) [
    | false ↦ all_replies test ms g
    | true ↦
        let (opponent_win, g') = test (play m g) in
        let restored = undo g' in
        elim opponent_win [ true ↦ all_replies test ms restored | false ↦ (false, restored) ]
  ]

  -- `mustLossWithin(g, 0)`.
  must_loss_now : Position → Bool × Position
  must_loss_now g =
      let player = get_turn_color g in
      if is_terminal g
      then if eqb (eval g) player
        then (false, g)
        else if eqb (eval g) Color.none
        then (false, g)
        else (true, g)
      else (false, g)

  -- From the depth four on, the moves are tried in the order of the network.
  ordered : ℕ → Position → List Move
  ordered depth g = if leb depth_for_network depth then network g else all_moves game g

  -- The look-ahead of `findWinningPath`: a move that wins at once.
  look_ahead : ℕ → Position → Bool × Position
  look_ahead depth g =
      if ltb 1 depth then any_reply must_loss_now (all_moves game g) g else (false, g)

  mutual
    -- `findWinningPath` and `mustLossWithin` at a depth limit that is not negative.
    pub path : ℕ → Position → Bool × Position
    path zero g = if is_terminal g then (eqb (eval g) (get_turn_color g), g) else (false, g)
    path (suc d) g =
        let look = look_ahead (suc d) g in
        let search = any_reply (loss d) (ordered (suc d) look.1) look.1 in
        if is_terminal g
        then (eqb (eval g) (get_turn_color g), g)
        else if look.0
        then (true, look.1)
        else search

    pub loss : ℕ → Position → Bool × Position
    loss zero g = must_loss_now g
    loss (suc d) g =
        let search = all_replies (path d) (ordered (suc d) g) g in
        if is_terminal g then must_loss_now g else search

  unfoldable pub find_winning_path : ℤ → Position → Bool × Position
  unfolding path any_reply all_replies must_loss_now ordered look_ahead
  find_winning_path (negsuc _) g = (false, g)
  find_winning_path (pos d) g = path d g

  unfoldable pub must_loss_within : ℤ → Position → Bool × Position
  unfolding loss any_reply all_replies must_loss_now ordered look_ahead
  must_loss_within (negsuc _) g = (false, g)
  must_loss_within (pos d) g = loss d g

  -- The loops of `findWinDepth` and `findLossDepth`, at `i` with `left` rounds to go; -1 is `none`.
  deepen : (ℕ → Position → Bool × Position) → ℕ → ℕ → Position → Option ℕ × Position
  deepen test zero i g = (none, g)
  deepen test (suc left) i g =
      let (found, g') = test i g in
      elim found [ true ↦ (some i, g') | false ↦ deepen test left (i + 1) g' ]

  unfoldable pub find_win_depth : ℕ → Position → Option ℕ × Position
  unfolding deepen find_winning_path path
  find_win_depth depth_limit g = deepen path (suc depth_limit) 0 g

  unfoldable pub find_loss_depth : ℕ → Position → Option ℕ × Position
  unfolding deepen must_loss_within loss
  find_loss_depth depth_limit g = deepen loss (suc depth_limit) 0 g

  -- The loop of `findWinMoves`, which collects the positions of the winning moves in `found`.
  collect_wins : ℕ → List Move → List ℕ → Position → List ℕ × Position
  unfolding must_loss_within loss
  collect_wins depth [] found g = (found, g)
  collect_wins depth (m ∷ ms) found g = elim (is_legal_move g m) [
    | false ↦ collect_wins depth ms found g
    | true ↦
        let (opponent_loss, g') = loss depth (play m g) in
        collect_wins depth ms (if opponent_loss then found ++ m.position ∷ [] else found) (undo g')
  ]

  unfoldable pub find_win_moves : ℕ → Position → List ℕ × Position
  unfolding collect_wins
  find_win_moves depth_limit g = collect_wins depth_limit (all_moves game g) [] g
