-- ===== src/Solver/TreeNode.antt =====
-- MiniZero/TreeNode.h: a node of the search tree, and the status of its position.
use proof_cost_network.Base.{ℕ, Bool, true, false, not, ◌==◌, Option, none}
use proof_cost_network.Board.Move.{Move}
use proof_cost_network.Solver.Double.{Double}
use proof_cost_network.Solver.StatisticData.{StatisticData}

-- The player who made the move to the node wins, does not win, or it is not known.
pub data SolutionStatus : Type 0 where
  solution_unknown solution_win solution_loss : SolutionStatus

abbrev pub is_win : SolutionStatus → Bool
is_win solution_win = true
is_win _ = false

abbrev pub is_loss : SolutionStatus → Bool
is_loss solution_loss = true
is_loss _ = false

abbrev pub is_unknown : SolutionStatus → Bool
is_unknown solution_unknown = true
is_unknown _ = false

unfoldable pub get_reverse_solution_status : SolutionStatus → SolutionStatus
get_reverse_solution_status solution_unknown = solution_unknown
get_reverse_solution_status solution_win = solution_loss
get_reverse_solution_status solution_loss = solution_win

module _ (double : Double) where
  open double use {D, zero}

  -- The children stand in an array of their own; `first_child` is the index of the first.
  pub record TreeNode : Type 0 where
    pub move : Move
    pub n_children : ℕ
    pub n_branching_factor : ℕ
    pub value : D
    pub probability : D
    pub probability_with_noise : D
    pub hashkey : ℕ
    pub proof_number : D
    pub disproof_number : D
    pub uct_data : StatisticData double
    pub first_child : Option ℕ
    pub status : SolutionStatus

  unfoldable pub reset : Move → TreeNode
  reset m = record {
    move = m;
    n_children = 0;
    n_branching_factor = 0;
    value = zero;
    probability = zero;
    probability_with_noise = zero;
    hashkey = 0;
    proof_number = zero;
    disproof_number = zero;
    uct_data = record { mean = zero; count = zero };
    first_child = none;
    status = solution_unknown;
  }

  unfoldable pub has_children : TreeNode → Bool
  has_children n = not (n.n_children == 0)
