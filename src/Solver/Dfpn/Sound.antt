-- ===== src/Solver/Dfpn/Sound.antt =====
-- The search is sound: what it writes to its nodes and to its table is true of the positions.
use proof_cost_network.Base.{ℕ, ◌≡◌, false, List, some}
use proof_cost_network.Board.Color.{Color, against_color}
use proof_cost_network.Board.Move.{Move}
use proof_cost_network.Solver.Game.{Game}
use proof_cost_network.Solver.Double.{Double}
use proof_cost_network.Solver.TreeNode.{TreeNode}
use proof_cost_network.Solver.Dfpn.Numbers.{Configure}
use proof_cost_network.Solver.Dfpn.Entries.{Environment, TtTable, Solver}
use proof_cost_network.Solver.Dfpn.Mid.{mid, mid_loop}
use proof_cost_network.Solver.Dfpn.Semantics.{IsCorrect}
use proof_cost_network.Solver.Dfpn.Truth.{Covers, IsTrueTable}
use proof_cost_network.Solver.Dfpn.Children.{ChildrenOk}

module _ (game : Game) (double : Double) (cfg : Configure double) (env : Environment game double)
    (root_color : Color) where
  open game use {Position, is_terminal, eval, get_turn_color, play, undo, get_tt_hash_key}
  open double use {D}

  -- A node that `mid` may be called on at a position.
  pub record Ready (g : Position) (node : TreeNode double) : Type 0 where
    pub hashkey : node.hashkey ≡ get_tt_hash_key g
    pub mover : node.move.color ≡ against_color (get_turn_color g)
    pub correct : IsCorrect game g node.status
    pub leaf : node.n_children ≡ 0

  -- What `mid` leaves: the node with a true status, a true table, and the last move taken back.
  pub record Returned (g : Position) (node : TreeNode double)
      (r : TreeNode double × Solver game double) : Type 0 where
    pub correct : IsCorrect game g r.0.status
    pub table : IsTrueTable game double cfg.pns_mode r.1.table
    pub position : r.1.position ≡ undo g
    pub move : r.0.move ≡ node.move
    pub hashkey : r.0.hashkey ≡ node.hashkey
    pub leaf : r.0.n_children ≡ 0

  abbrev MidSound : ℕ → Type 0
  MidSound fuel =
      (node : TreeNode double) (p d : D) (s : Solver game double)
      → Ready s.position node
      → IsTrueTable game double cfg.pns_mode s.table
      → (r : TreeNode double × Solver game double)
      → mid game double cfg env root_color fuel node p d s ≡ some r
      → Returned s.position node r

  -- What the loop keeps.
  record Inside (g : Position) (table : TtTable game double) (node : TreeNode double)
      (children : List (TreeNode double)) (cs : List (Move × D)) : Type 0 where
    running : is_terminal g ≡ false
    hashkey : node.hashkey ≡ get_tt_hash_key g
    correct : IsCorrect game g node.status
    children_ok : ChildrenOk game double g children
    candidates : Covers game double cfg.pns_mode g cs
    true_table : IsTrueTable game double cfg.pns_mode table

  abbrev LoopSound : ℕ → Type 0
  LoopSound fuel =
      (node : TreeNode double) (children : List (TreeNode double)) (cs : List (Move × D))
      (pv dv p d : D) (s : Solver game double)
      → Inside s.position s.table node children cs
      → (r : TreeNode double × Solver game double)
      → mid_loop game double cfg env root_color fuel node children cs pv dv p d s ≡ some r
      → Returned s.position node r
