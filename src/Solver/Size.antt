-- ===== src/Solver/Size.antt =====
-- MiniZero/SizeSolver.h: the sizes of the smallest win and loss trees under a size limit.
-- Sizes are counted in ℕ; a limit that is not positive is 0. `none` is the division by the number of
-- legal moves where there are none, and the end of the fuel.
pub mod Forced
pub mod Laws
pub mod Trees
pub mod Fuel
use package.proof_cost_network.Base.{ℕ, zero, suc, ◌+◌, ◌-◌, ◌/◌, min, Bool, true, false, not}
use package.proof_cost_network.Base.{List, [], ◌∷◌, Option, none, some, ◌>>=◌, ◌==◌, if◌then◌else◌}
use package.proof_cost_network.Board.Color
use package.proof_cost_network.Board.Color.{eqb}
use package.proof_cost_network.Board.Move.{Move}
use package.proof_cost_network.Solver.Game.{Game, all_moves}

-- The outcomes -1, 0 and 1 of the player: a loss, unsolved or a draw, and a win.
pub data Outcome : Type 0 where
  loss unsolved win : Outcome

unfoldable pub negated : Outcome → Outcome
negated loss = win
negated unsolved = unsolved
negated win = loss

unfoldable pub max_outcome : Outcome → Outcome → Outcome
max_outcome win _ = win
max_outcome loss o = o
max_outcome unsolved win = win
max_outcome unsolved _ = unsolved

abbrev pub is_win : Outcome → Bool
is_win win = true
is_win _ = false

abbrev pub is_loss : Outcome → Bool
is_loss loss = true
is_loss _ = false

-- The variables of the loop of `findWinTreeSize`; `win_size` is read only after it was written.
pub record WinLoop : Type 0 where
  pub best_outcome : Outcome
  pub tree_size : ℕ
  pub sub_limit : ℕ
  pub win_size : ℕ

unfoldable pub count_subtree : WinLoop → Outcome → ℕ → WinLoop
count_subtree a first second =
    let win_size = if is_win a.best_outcome then min a.win_size second else second in
    record {
      best_outcome = max_outcome a.best_outcome first;
      tree_size = a.tree_size + second;
      sub_limit = if is_win first then win_size - 1 else a.sub_limit;
      win_size = if is_win first then win_size else a.win_size;
    }

module _ (game : Game) where
  open game use {Position, get_turn_color, is_terminal, eval, is_legal_move, play, undo}

  -- The outcome, the size, and the position that is passed on.
  pub record Solved : Type 0 where
    pub outcome : Outcome
    pub size : ℕ
    pub position : Position

  abbrev pub Search : Type 0
  Search = ℕ → Position → Option Solved

  unfoldable pub ended : Position → Solved
  ended g =
      if eqb (eval g) (get_turn_color g)
      then record { outcome = win; size = 1; position = g }
      else if eqb (eval g) Color.none
      then record { outcome = unsolved; size = 1; position = g }
      else record { outcome = loss; size = 1; position = g }

  -- One move: play, search, take back; the outcome is the player's.
  unfoldable pub try_move : Search → ℕ → Move → Position → Option Solved
  try_move search limit m g = search limit (play m g) >>= λ r.
      some (record { outcome = negated r.outcome; size = r.size; position = undo r.position })

  unfoldable pub win_loop : Search → List Move → WinLoop → Position → Option (WinLoop × Position)
  win_loop search [] a g = some (a, g)
  win_loop search (m ∷ ms) a g = elim (is_legal_move g m) [
    | false ↦ win_loop search ms a g
    | true ↦ try_move search a.sub_limit m g >>= λ r.
        win_loop search ms (count_subtree a r.outcome r.size) r.position
  ]

  unfoldable pub count_legal : Position → List Move → ℕ
  count_legal g [] = 0
  count_legal g (m ∷ ms) = (if is_legal_move g m then 1 else 0) + count_legal g ms

  -- The first pass of `findLossTreeSize`: the moves with their flag in `passTable`, and the size.
  unfoldable pub pass_loop :
      Search → ℕ → List Move → ℕ → Position → Option (List (Move × Bool) × ℕ × Position)
  pass_loop search limit [] tree_size g = some ([], tree_size, g)
  pass_loop search limit (m ∷ ms) tree_size g = elim (is_legal_move g m) [
    | false ↦ pass_loop search limit ms tree_size g >>= λ (table, size, h).
        some ((m, false) ∷ table, size, h)
    | true ↦ try_move search limit m g >>= λ r.
        pass_loop search limit ms (if is_loss r.outcome then tree_size + r.size else tree_size)
          r.position
        >>= λ (table, size, h). some ((m, is_loss r.outcome) ∷ table, size, h)
  ]

  unfoldable pub any_passed : List (Move × Bool) → Bool
  any_passed [] = false
  any_passed ((_, passed) ∷ table) = if passed then true else any_passed table

  -- The second pass, over the moves that did not pass.
  unfoldable pub rest_loop : Search → ℕ → List (Move × Bool) → ℕ → Position → Option Solved
  rest_loop search limit [] tree_size g =
      some (record { outcome = loss; size = tree_size; position = g })
  rest_loop search limit ((m, passed) ∷ table) tree_size g = elim (is_legal_move g m) [
    | false ↦ rest_loop search limit table tree_size g
    | true ↦ elim passed [
      | true ↦ rest_loop search limit table tree_size g
      | false ↦ try_move search (limit - tree_size) m g >>= λ r. elim r.outcome [
        | loss ↦ rest_loop search limit table (tree_size + r.size) r.position
        | win ↦ some (record { outcome = win; size = 1 + r.size; position = r.position })
        | unsolved ↦ some (record { outcome = unsolved; size = 0; position = r.position })
      ]
    ]
  ]

  -- The running cases of the two searches, over the search of the opponent.
  unfoldable pub win_body : Search → Search
  unfolding win_loop
  win_body search limit g =
      win_loop search (all_moves game g)
        (record { best_outcome = loss; tree_size = 1; sub_limit = limit - 1; win_size = 0 }) g
      >>= λ (a, h). some (record {
        outcome = a.best_outcome;
        size = if is_win a.best_outcome then 1 + a.win_size else a.tree_size;
        position = h;
      })

  unfoldable pub loss_body : Search → Search
  unfolding pass_loop rest_loop count_legal any_passed
  loss_body search limit g =
      let n_legal_action = count_legal g (all_moves game g) in
      if n_legal_action == 0
      then none
      else if (limit - 1) / n_legal_action == 0
      then some (record { outcome = unsolved; size = 0; position = g })
      else pass_loop search ((limit - 1) / n_legal_action) (all_moves game g) 1 g
        >>= λ (table, size, h).
            if any_passed table
            then rest_loop search limit table size h
            else some (record { outcome = unsolved; size = 0; position = h })

  -- What both searches do first.
  unfoldable pub guarded : Search → Search
  guarded body limit g =
      let inner = body limit g in
      if limit == 0
      then some (record { outcome = unsolved; size = 0; position = g })
      else if is_terminal g
      then some (ended g)
      else inner

  unfoldable mutual
    pub find_win_tree_size : ℕ → ℕ → Position → Option Solved
    find_win_tree_size zero limit g = guarded (λ l h. none) limit g
    find_win_tree_size (suc fuel) limit g = guarded (win_body (find_loss_tree_size fuel)) limit g

    pub find_loss_tree_size : ℕ → ℕ → Position → Option Solved
    find_loss_tree_size zero limit g = guarded (λ l h. none) limit g
    find_loss_tree_size (suc fuel) limit g = guarded (loss_body (find_win_tree_size fuel)) limit g
