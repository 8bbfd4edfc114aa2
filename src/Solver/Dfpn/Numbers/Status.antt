-- ===== src/Solver/Dfpn/Numbers/Status.antt =====
-- The status rule: what the loop of `updateSolutionStatus` computes.
use proof_cost_network.Base.{
  ◌≡◌, refl, Bool, true, not, ◌&&◌, List, [], ◌∷◌, arith, ◌⊎◌, inl, inr, Bool-cases,
}
use proof_cost_network.Solver.Double.{Double}
use proof_cost_network.Solver.Game.{◌∈◌}
use proof_cost_network.Solver.TreeNode.{
  TreeNode, SolutionStatus, solution_unknown, solution_win, solution_loss, is_win, is_loss,
  has_children,
}
use proof_cost_network.Solver.Dfpn.Numbers.{status_loop, update_solution_status}

module _ (double : Double) where
  -- The statuses that the loop may return.
  pub data Rule (cs : List (TreeNode double)) (before : SolutionStatus)
      : SolutionStatus → Type 0 where
    unchanged : Rule cs before before
    child_wins :
        (c : TreeNode double) → c ∈ cs → c.status ≡ solution_win → Rule cs before solution_loss
    all_lose :
        ((c : TreeNode double) → c ∈ cs → c.status ≡ solution_loss) → Rule cs before solution_win

  is_loss→≡ : (s : SolutionStatus) → is_loss s ≡ true → s ≡ solution_loss
  is_loss→≡ solution_unknown h = cc
  is_loss→≡ solution_win h = cc
  is_loss→≡ solution_loss h = refl

  pub is_win→≡ : (s : SolutionStatus) → is_win s ≡ true → s ≡ solution_win
  is_win→≡ solution_unknown h = cc
  is_win→≡ solution_win h = refl
  is_win→≡ solution_loss h = cc

  loop-all_loss :
      (cs : List (TreeNode double)) (status : SolutionStatus) (all_loss : Bool)
      → (status_loop double cs status all_loss).1 ≡ true
      → (all_loss ≡ true) × ((c : TreeNode double) → c ∈ cs → c.status ≡ solution_loss)
  unfolding status_loop
  loop-all_loss [] status all_loss h = (h, λ c at. absurd at)
  loop-all_loss (c ∷ cs) status all_loss h =
      let (both, others) = loop-all_loss cs _ (is_loss c.status && all_loss) h in
      let here : (is_loss c.status ≡ true) × (all_loss ≡ true) = ground arith in
      (here.1, λ d. elim [ inl e ↦ rw e (is_loss→≡ c.status here.0) | inr at ↦ others d at ])

  -- The status after the loop is the one before, or a loss with a winning child behind it.
  loop-status :
      (cs : List (TreeNode double)) (status : SolutionStatus) (all_loss : Bool)
      → ((status_loop double cs status all_loss).0 ≡ status)
        ⊎ ((status_loop double cs status all_loss).0 ≡ solution_loss)
          × ((c : TreeNode double) × (c ∈ cs) × (c.status ≡ solution_win))
  unfolding status_loop
  loop-status [] status all_loss = inl refl
  loop-status (c ∷ cs) status all_loss = elim (Bool-cases (is_win c.status)) [
    | inl won ↦
        rw (won, status_loop)
          (elim (loop-status cs solution_loss (is_loss c.status && all_loss)) [
            | inl e ↦ inr (e, (c, inl refl, is_win→≡ c.status won))
            | inr (e, (d, at, w)) ↦ inr (e, (d, inr at, w))
          ])
    | inr not_won ↦
        rw (not_won, status_loop)
          (elim (loop-status cs status (is_loss c.status && all_loss)) [
            | inl e ↦ inl e
            | inr (e, (d, at, w)) ↦ inr (e, (d, inr at, w))
          ])
  ]

  pub update_solution_status-Rule :
      (node : TreeNode double) (cs : List (TreeNode double))
      → Rule cs node.status (update_solution_status double node cs).status
  unfolding update_solution_status
  update_solution_status-Rule node cs = elim (Bool-cases (not (has_children double node))) [
    | inl leaf ↦ rw (leaf, update_solution_status) unchanged
    | inr inner ↦ elim (Bool-cases (status_loop double cs node.status true).1) [
      | inl all ↦
          rw (inner, update_solution_status, all)
            (all_lose (loop-all_loss cs node.status true all).1)
      | inr some_not ↦
          rw (inner, update_solution_status, some_not)
            (elim (loop-status cs node.status true) [
              | inl e ↦ rw e unchanged
              | inr (e, (c, at, w)) ↦ rw e (child_wins c at w)
            ])
    ]
  ]
