-- ===== src/Solver/Dfpn/Numbers.antt =====
-- MiniZero/DFPNSolver.cpp: the status and the numbers of a node from those of its children, and the
-- choice of the most proving child.
pub mod Status
pub mod Select
use package.proof_cost_network.Base.{
  ℕ, zero, suc, ◌+◌, ◌-◌, Bool, true, false, not, ◌&&◌, ◌==◌, if◌then◌else◌,
}
use package.proof_cost_network.Base.{List, [], ◌∷◌, Option, none, some, length}
use package.proof_cost_network.Board.Color
use package.proof_cost_network.Board.Color.{Color}
use package.proof_cost_network.Solver.Double.{Double}
use package.proof_cost_network.Solver.TreeNode.{
  TreeNode, SolutionStatus, solution_unknown, solution_win, solution_loss,
}
use package.proof_cost_network.Solver.TreeNode.{is_win, is_loss, is_unknown, has_children}

pub data PnsMode : Type 0 where
  vanilla_pns policy_pns focused_pns : PnsMode

-- MiniZero/BaseSolver.h.
pub data SimControl : Type 0 where
  sim_control_count sim_control_time sim_control_tt_node sim_control_mid : SimControl

-- The fields of `Configure` that the solver reads.
pub record Configure (double : Double) : Type 0 where
  pub pns_mode : PnsMode
  pub pns_enable_weak_pns : Bool
  pub pns_enable_1_plus_epsilon : Bool
  pub pns_epsilon_value : double.D
  pub pns_focused_widening_factor : double.D
  pub pns_focused_children_base : ℕ
  pub pns_num_expansion : ℕ
  pub sim_control : SimControl
  pub time_limit : double.D
  pub net_value_space_complexity : Bool
  pub net_num_output_v : double.D
  pub aot_proof_color : Color

module _ (double : Double) where
  open double use {D, dbl_max, one, add, sub, mul, neg, fmin, fmax, ceil, ltb, of_nat, trunc}

  -- The loop of `updateSolutionStatus`, with the node's status and `bAllChildrenLoss`.
  status_loop : List (TreeNode double) → SolutionStatus → Bool → SolutionStatus × Bool
  status_loop [] status all_loss = (status, all_loss)
  status_loop (c ∷ cs) status all_loss =
      status_loop cs (if is_win c.status then solution_loss else status)
        (is_loss c.status && all_loss)

  unfoldable pub update_solution_status : TreeNode double → List (TreeNode double) → TreeNode double
  unfolding status_loop
  update_solution_status node children =
      let (status, all_loss) = status_loop children node.status true in
      if not (has_children double node)
      then node
      else record node { status = if all_loss then solution_win else status }

  unfoldable pub get_adjusted_value : TreeNode double → D
  get_adjusted_value node = fmin (fmax (neg node.value) (neg one)) one

  unfoldable pub num_live_children : List (TreeNode double) → ℕ
  num_live_children [] = 0
  num_live_children (c ∷ cs) = (if is_unknown c.status then 1 else 0) + num_live_children cs

  -- The variables of the loop of `updatePNDN`.
  pub record Sums : Type 0 where
    pub live : ℕ
    pub min_proof_number : D
    pub sum_disproof_number : D
    pub max_disproof_number : D

  -- The output arguments and the result of `selectBestChild`; the child is its index, and no child
  -- is `none`.
  pub record Selected : Type 0 where
    pub best : Option ℕ
    pub pn_of_min_dn_child : D
    pub min_dn : D
    pub second_min_dn : D

  module _ (cfg : Configure double) where
    unfoldable pub get_num_limit_size : TreeNode double → List (TreeNode double) → ℕ
    unfolding num_live_children get_adjusted_value
    get_num_limit_size node children = focused cfg.pns_mode
      where
        ratio : D
        ratio =
            if cfg.net_value_space_complexity
            then cfg.pns_focused_widening_factor
            else fmin cfg.pns_focused_widening_factor (add one (get_adjusted_value node))

        focused : PnsMode → ℕ
        focused focused_pns = trunc (
            add (of_nat cfg.pns_focused_children_base)
              (ceil (mul ratio (of_nat (num_live_children children)))))
        focused _ = node.n_children

    add_child : TreeNode double → Sums → Sums
    add_child c a = record {
      live = a.live + 1;
      min_proof_number = fmin a.min_proof_number c.disproof_number;
      sum_disproof_number = add a.sum_disproof_number c.proof_number;
      max_disproof_number =
          if ltb a.max_disproof_number c.proof_number
          then c.proof_number
          else a.max_disproof_number;
    }

    sums_loop : ℕ → List (TreeNode double) → Sums → Sums
    unfolding add_child
    sums_loop limit [] a = a
    sums_loop limit (c ∷ cs) a =
        let next = sums_loop limit cs (if is_unknown c.status then add_child c a else a) in
        if is_unknown c.status && (a.live + 1 == limit) then add_child c a else next

    -- The last branch takes the numbers that the caller gives to a leaf.
    unfoldable pub update_pndn : TreeNode double → List (TreeNode double) → D → D → TreeNode double
    unfolding sums_loop get_num_limit_size has_children
    update_pndn node children init_pn init_dn = by_status node.status
      where
        final : Sums
        final = sums_loop (get_num_limit_size node children) children (record {
          live = 0;
          min_proof_number = dbl_max;
          sum_disproof_number = double.zero;
          max_disproof_number = double.zero;
        })

        by_status : SolutionStatus → TreeNode double
        by_status solution_win = record node {
          proof_number = dbl_max;
          disproof_number = double.zero;
        }
        by_status solution_loss = record node {
          proof_number = double.zero;
          disproof_number = dbl_max;
        }
        by_status solution_unknown =
            if has_children double node
            then record node {
              proof_number = final.min_proof_number;
              disproof_number =
                  if cfg.pns_enable_weak_pns
                  then add final.max_disproof_number (sub (of_nat final.live) one)
                  else final.sum_disproof_number;
            }
            else record node { proof_number = init_pn; disproof_number = init_dn }

    first_win : ℕ → List (TreeNode double) → Option ℕ
    first_win i [] = none
    first_win i (c ∷ cs) = if is_win c.status then some i else first_win (i + 1) cs

    take_child : ℕ → TreeNode double → Selected → Selected
    take_child i c a =
        let dn = c.disproof_number in
        if ltb dn a.min_dn
        then record {
          best = some i;
          pn_of_min_dn_child = c.proof_number;
          min_dn = dn;
          second_min_dn = a.min_dn;
        }
        else if ltb dn a.second_min_dn
        then record a { second_min_dn = dn }
        else a

    select_loop : ℕ → ℕ → ℕ → List (TreeNode double) → Selected → Selected
    unfolding take_child
    select_loop limit live i [] a = a
    select_loop limit live i (c ∷ cs) a =
        let seen = is_unknown c.status in
        let next =
          select_loop limit (if seen then live + 1 else live) (i + 1) cs
            (if seen then take_child i c a else a) in
        if seen && (live + 1 == limit) then take_child i c a else next

    unfoldable pub select_best_child : TreeNode double → List (TreeNode double) → Selected
    unfolding first_win select_loop get_num_limit_size
    select_best_child node children =
        let start : Selected = record {
          best = none;
          pn_of_min_dn_child = double.zero;
          min_dn = dbl_max;
          second_min_dn = dbl_max;
        } in
        elim (first_win 0 children) [
          | some i ↦ record start { best = some i }
          | none ↦ select_loop (get_num_limit_size node children) 0 0 children start
        ]
