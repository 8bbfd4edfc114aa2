-- ===== src/Solver/Mcts.antt =====
-- MiniZero/MCTSSolver.cpp: how the solver passes the statuses of solved positions up the path of
-- selected nodes, with its transposition table. The nodes stand in an array, and a pointer to a node
-- is its index. The values and the visits are those of Solver.BaseMcts.
pub mod Status
pub mod Laws
use package.proof_cost_network.Base.{
  ℕ, zero, suc, ◌+◌, Bool, true, false, not, ◌||◌, List, [], ◌∷◌, Option, none, some, ◌>>=◌,
  if◌then◌else◌, get_or, set,
}
use package.proof_cost_network.Board.Color
use package.proof_cost_network.Board.Color.{eqb}
use package.proof_cost_network.Board.Move.{Move}
use package.proof_cost_network.Storage.OpenAddress.{Table}
use package.proof_cost_network.Solver.Game.{Game}
use package.proof_cost_network.Solver.Double.{Double}
use package.proof_cost_network.Solver.TreeNode.{
  SolutionStatus, solution_unknown, solution_win, solution_loss, is_loss, is_unknown, TreeNode,
  reset,
}
use package.proof_cost_network.Solver.TranspositionTable.{
  TtEntry, lookup, store, get_entry, is_full,
}

module _ (game : Game) (double : Double) where
  open game use {Position, is_terminal, eval, undo, get_tt_hash_key}

  pub record Mcts : Type 0 where
    pub position : Position
    pub nodes : List (TreeNode double)
    pub tt : Table TtEntry
    pub found_in_tt : Bool

  abbrev pub no_node : TreeNode double
  no_node = reset double (record { color = Color.none; position = 0 })

  abbrev pub node_at : List (TreeNode double) → ℕ → TreeNode double
  node_at nodes i = get_or nodes i no_node

  unfoldable pub set_solution_status :
      ℕ → SolutionStatus → List (TreeNode double) → List (TreeNode double)
  set_solution_status i status nodes = set nodes i (record (node_at nodes i) { status = status })

  -- The `n` nodes from `first` on.
  unfoldable pub all_loss : List (TreeNode double) → ℕ → ℕ → Bool
  all_loss nodes first zero = true
  all_loss nodes first (suc n) =
      let rest = all_loss nodes (first + 1) n in
      if not (is_loss (node_at nodes first).status) then false else rest

  unfoldable pub is_all_children_solution_loss : ℕ → List (TreeNode double) → Bool
  unfolding all_loss
  is_all_children_solution_loss i nodes =
      let node = node_at nodes i in
      elim node.first_child [
        | none ↦ all_loss nodes 0 node.n_children
        | some first ↦ all_loss nodes first node.n_children
      ]

  -- The status that the last node of the path takes: of the entry, or of the end of the game.
  unfoldable pub update_leaf : ℕ → Mcts → Option Mcts
  unfolding set_solution_status
  update_leaf leaf s = elim s.found_in_tt [
    | true ↦ lookup (get_tt_hash_key s.position) s.tt >>= λ index. index >>= λ j.
        some
          (record s { nodes = set_solution_status leaf (get_entry j s.tt).solution_status s.nodes })
    | false ↦
        let won = eqb (node_at s.nodes leaf).move.color (eval s.position) in
        some (record s {
          nodes = set_solution_status leaf (if won then solution_win else solution_loss) s.nodes;
        })
  ]

  -- `Configure::USE_TRANSPOSITION_TABLE`.
  module _ (use_transposition_table : Bool) where
    unfoldable pub found_entry_in_tt : Mcts → Option Bool
    found_entry_in_tt s = elim use_transposition_table [
      | false ↦ some false
      | true ↦ lookup (get_tt_hash_key s.position) s.tt >>= λ index.
          some (elim index [ none ↦ false | some _ ↦ true ])
    ]

    -- A full table is waited for without end.
    unfoldable pub store_tt : ℕ → Mcts → Option Mcts
    unfolding found_entry_in_tt
    store_tt i s = elim use_transposition_table [
      | false ↦ some s
      | true ↦ found_entry_in_tt s >>= λ found. elim found [
        | true ↦ some s
        | false ↦ elim (is_full s.tt) [
          | true ↦ none
          | false ↦
              store (get_tt_hash_key s.position)
                (record { solution_status = (node_at s.nodes i).status }) s.tt
              >>= λ tt. some (record s { tt = tt })
        ]
      ]
    ]

    -- The loop of `update`, from the last node of the path to the root.
    unfoldable pub update_loop : List ℕ → Mcts → Option Mcts
    unfolding set_solution_status is_all_children_solution_loss store_tt
    update_loop [] s = some s
    update_loop (i ∷ []) s = some s
    update_loop (i ∷ p ∷ path) s =
        let up = update_loop (p ∷ path) in
        elim (node_at s.nodes i).status [
          | solution_win ↦
              store_tt p (record s {
                nodes = set_solution_status p solution_loss s.nodes;
                position = undo s.position;
              })
              >>= up
          | solution_loss ↦
              let back = record s { position = undo s.position } in
              elim (is_all_children_solution_loss p s.nodes) [
                | true ↦
                    store_tt p (record back { nodes = set_solution_status p solution_win s.nodes })
                    >>= up
                | false ↦ some back
              ]
          | solution_unknown ↦ up s
        ]

    -- `update` after the values: `path` is the path of selected nodes, the last one first.
    unfoldable pub update : List ℕ → Mcts → Option Mcts
    unfolding update_leaf update_loop
    update [] s = some s
    update (leaf ∷ path) s =
        if is_terminal s.position || s.found_in_tt
        then update_leaf leaf s >>= update_loop (leaf ∷ path)
        else some s
