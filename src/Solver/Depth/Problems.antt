-- ===== src/Solver/Depth/Problems.antt =====
-- MiniZero/DepthSolver.h: the problems that `solveGame` writes for a position and its sub-positions,
-- as a list in the order of writing. The writing of a problem to its file is left out.
use proof_cost_network.Base.{ℕ, zero, suc, Bool, true, false, List, [], ◌∷◌, ◌++◌, if◌then◌else◌}
use proof_cost_network.Base.Int.{ℤ, pos, negsuc}
use proof_cost_network.Board.Move.{Move}
use proof_cost_network.Solver.Game.{Game, all_moves}
use proof_cost_network.Solver.Depth.{find_winning_path, must_loss_within, find_win_moves}

module _ (game : Game) (network : game.Position → List Move) where
  open game use {Position, get_turn_color, is_legal_move, play, undo}

  -- What `dumpProblem` is given.
  pub record Problem : Type 0 where
    pub position : Position
    pub answer_depth : ℤ
    pub best_moves : List ℕ

  -- The positions of the legal moves after which the test gives `wanted`.
  unfoldable pub collect_moves :
      (Position → Bool × Position) → Bool → List Move → List ℕ → Position → List ℕ × Position
  collect_moves test wanted [] found g = (found, g)
  collect_moves test wanted (m ∷ ms) found g = elim (is_legal_move g m) [
    | false ↦ collect_moves test wanted ms found g
    | true ↦
        let r = test (play m g) in
        let chosen = if r.0 then wanted else (if wanted then false else true) in
        collect_moves test wanted ms (if chosen then found ++ m.position ∷ [] else found) (undo r.1)
  ]

  abbrev pub depth_before : ℕ → ℤ
  depth_before zero = negsuc 0
  depth_before (suc n) = pos n

  abbrev pub player_move : Position → ℕ → Move
  player_move g p = record { color = get_turn_color g; position = p }

  -- At the depth that is one less than the number; only the first move leads to a sub-problem.
  unfoldable mutual
    pub generate_win_subproblem : ℕ → Position → List Problem × Position
    generate_win_subproblem zero g = ([], g)
    generate_win_subproblem (suc n) g =
        let found =
          collect_moves (must_loss_within game network (pos n)) true (all_moves game g) [] g in
        let problem : Problem = record {
          position = found.1;
          answer_depth = pos n;
          best_moves = found.0;
        } in
        elim found.0 [
          | [] ↦ (problem ∷ [], found.1)
          | p ∷ ps ↦
              let below = generate_loss_subproblem n (play (player_move found.1 p) found.1) in
              (problem ∷ below.0, undo below.1)
        ]

    pub generate_loss_subproblem : ℕ → Position → List Problem × Position
    generate_loss_subproblem zero g = ([], g)
    generate_loss_subproblem (suc n) g =
        let found =
          collect_moves (find_winning_path game network (depth_before n)) false (all_moves game g)
            [] g in
        let problem : Problem = record {
          position = found.1;
          answer_depth = pos n;
          best_moves = found.0;
        } in
        elim found.0 [
          | [] ↦ (problem ∷ [], found.1)
          | p ∷ ps ↦
              let below = generate_win_subproblem n (play (player_move found.1 p) found.1) in
              (problem ∷ below.0, undo below.1)
        ]

  -- The least depth at which there are winning moves, and these; -1 and none otherwise.
  unfoldable pub search_depth : ℕ → ℕ → Position → ℤ × List ℕ
  search_depth zero i g = (negsuc 0, [])
  search_depth (suc left) i g =
      let wins = (find_win_moves game network i g).0 in
      let rest = search_depth left (suc i) g in elim wins [ [] ↦ rest | p ∷ ps ↦ (pos i, p ∷ ps) ]

  -- The sub-problems of every winning move, each on a copy of the position.
  unfoldable pub subproblems : ℤ → List ℕ → Position → List Problem
  subproblems depth [] g = []
  subproblems (negsuc n) (p ∷ ps) g = subproblems (negsuc n) ps g
  subproblems (pos n) (p ∷ ps) g =
      (generate_loss_subproblem n (play (player_move g p) g)).0 ++ subproblems (pos n) ps g

  unfoldable pub solve_game : ℕ → Position → List Problem
  unfolding search_depth subproblems
  solve_game problem_size g =
      let found = search_depth (suc problem_size) 0 g in
      record { position = g; answer_depth = found.0; best_moves = found.1 }
      ∷ subproblems found.0 found.1 g
