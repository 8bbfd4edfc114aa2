-- ===== src/Solver/Dfpn/Numbers/Select.antt =====
-- What `selectBestChild` chooses.
use proof_cost_network.Base.{
  ℕ, suc, ◌+◌, ◌<◌, ◌≤◌, ◌≡◌, subst, ◌==◌, List, [], ◌∷◌, length, Option, none, some, arith, inl,
  inr, Bool-cases, Option-cases,
}
use proof_cost_network.Solver.Double.{Double}
use proof_cost_network.Solver.TreeNode.{TreeNode, is_win, is_unknown}
use proof_cost_network.Solver.Dfpn.Numbers.{
  Configure, Selected, first_win, take_child, select_loop, select_best_child, get_num_limit_size,
}

module _ (double : Double) (cfg : Configure double) where
  first_win-lt :
      (i j : ℕ) (cs : List (TreeNode double))
      → first_win double cfg i cs ≡ some j
      → j < i + length cs
  unfolding first_win
  first_win-lt i j [] h = cc
  first_win-lt i j (c ∷ cs) h = elim (Bool-cases (is_win c.status)) [
    | inl w ↦ ground (arith, w, h)
    | inr w ↦ let rest = first_win-lt (i + 1) j cs (ground (arith, w, h)) in omega (arith, rest)
  ]

  Below : ℕ → Option ℕ → Type 0
  Below n none = Unit
  Below n (some j) = j < n

  Below-le : (i n : ℕ) (o : Option ℕ) → Below i o → i ≤ n → Below n o
  unfolding Below
  Below-le i n none h e = h
  Below-le i n (some j) h e = omega arith

  take_child-Below :
      (i : ℕ) (c : TreeNode double) (a : Selected double)
      → Below i a.best
      → Below (i + 1) (take_child double cfg i c a).best
  unfolding take_child Below
  take_child-Below i c a h = elim (Bool-cases (double.ltb c.disproof_number a.min_dn)) [
    | inl less ↦ rw less (omega arith)
    | inr more ↦ elim (Bool-cases (double.ltb c.disproof_number a.second_min_dn)) [
      | inl second ↦ rw (more, second) (Below-le i (i + 1) a.best h (omega arith))
      | inr other ↦ rw (more, other) (Below-le i (i + 1) a.best h (omega arith))
    ]
  ]

  select_loop-Below :
      (limit live i : ℕ) (cs : List (TreeNode double)) (a : Selected double)
      → Below i a.best
      → Below (i + length cs) (select_loop double cfg limit live i cs a).best
  unfolding select_loop
  select_loop-Below limit live i [] a h = Below-le i (i + 0) a.best h (omega arith)
  select_loop-Below limit live i (c ∷ cs) a h = elim (Bool-cases (is_unknown c.status)) [
    | inl seen ↦
        let taken = take_child-Below i c a h in
        elim (Bool-cases (live + 1 == limit)) [
          | inl last ↦
              rw (seen, last) (Below-le (i + 1) (i + suc (length cs)) _ taken (omega arith))
          | inr more ↦
              rw (seen, more) (rw shift (select_loop-Below limit (live + 1) (i + 1) cs _ taken))
        ]
    | inr unseen ↦ rw unseen (
        rw shift
          (select_loop-Below limit live (i + 1) cs a (Below-le i (i + 1) a.best h (omega arith))))
  ]
    where
      shift : i + suc (length cs) ≡ i + 1 + length cs
      shift = omega arith

  -- The child that is chosen is one of the children.
  pub select_best_child-lt :
      (node : TreeNode double) (cs : List (TreeNode double)) (i : ℕ)
      → (select_best_child double cfg node cs).best ≡ some i
      → i < length cs
  unfolding select_best_child Below
  select_best_child-lt node cs i h = elim (Option-cases (first_win double cfg 0 cs)) [
    | inl no_win ↦
        let all =
          select_loop-Below (get_num_limit_size double cfg node cs) 0 0 cs
            (record {
              best = none;
              pn_of_min_dn_child = double.zero;
              min_dn = double.dbl_max;
              second_min_dn = double.dbl_max;
            })
            tt in
        subst (λ o. Below (length cs) o) (rw (no_win, select_best_child) at h)
          (Below-le (0 + length cs) (length cs) _ all (omega arith))
    | inr (j, found) ↦
        let lt = first_win-lt 0 j cs found in ground (arith, lt, rw (found, select_best_child) at h)
  ]
