-- ===== src/Solver/BaseMcts/Selection.antt =====
-- What `selectChild` chooses.
use proof_cost_network.Base.{
  ℕ, zero, suc, ◌+◌, ◌<◌, ◌≡◌, refl, sym, ◌∙◌, ap, subst, true, false, List, [], ◌∷◌, length,
  Option, none, some, ◌⊎◌, inl, inr, Bool-cases, true≢false, get_or, arith,
}
use proof_cost_network.Board.Color.{Color}
use proof_cost_network.Solver.Double.{Double, IsOrdered}
use proof_cost_network.Solver.Game.{Game}
use proof_cost_network.Solver.TreeNode.{TreeNode}
use proof_cost_network.Solver.BaseMcts.Values.{
  Settings, Functions, ValueMap, get_sim_count, calculate_init_q_value, calculate_move_score,
}
use proof_cost_network.Solver.BaseMcts.{
  least_score, BaseMcts, no_node, node_at, nodes_from, children_of, root_turn, best_loop,
  select_child,
}

module _ (game : Game) (double : Double) (ordered : IsOrdered double) (f : Functions double)
    (cfg : Settings double) where
  asym : (a b : double.D) → double.ltb a b ≡ true → double.ltb b a ≡ false
  asym a b h = elim (Bool-cases (double.ltb b a)) [
    | inr no_less ↦ no_less
    | inl less ↦ absurd (true≢false (sym (ordered.ltb_trans a b a h less) ∙ ordered.ltb_irrefl a))
  ]

  module _ (turn : Color) (values : ValueMap double) (sim : ℕ) (init : double.D) where
    abbrev score : List (TreeNode double) → ℕ → double.D
    score ns k =
        calculate_move_score double f cfg turn values sim init (get_or ns k (no_node game double))

    -- The first of the highest scores stands at `k`.
    pub record Best (ns : List (TreeNode double)) (k : ℕ) : Type 0 where
      pub inside : k < length ns
      pub highest : (j : ℕ) → j < length ns → double.ltb (score ns k) (score ns j) ≡ false
      pub first : (j : ℕ) → j < k → double.ltb (score ns j) (score ns k) ≡ true

    abbrev Found : ℕ → List (TreeNode double) → double.D → Option ℕ → Option ℕ → Type 0
    Found i ns b best r =
        ((r ≡ best) × ((j : ℕ) → j < length ns → double.ltb b (score ns j) ≡ false))
        ⊎ ((k : ℕ) × (r ≡ some (i + k)) × (double.ltb b (score ns k) ≡ true) × Best ns k)

    none_above :
        (n : TreeNode double) (ns : List (TreeNode double)) (b : double.D)
        → double.ltb b (score (n ∷ ns) 0) ≡ false
        → ((j : ℕ) → j < length ns → double.ltb b (score ns j) ≡ false)
        → (j : ℕ) → j < suc (length ns)
        → double.ltb b (score (n ∷ ns) j) ≡ false
    none_above n ns b first rest zero h = first
    none_above n ns b first rest (suc j) h = rest j (omega (arith, h))

    later :
        (n : TreeNode double) (ns : List (TreeNode double)) (k : ℕ)
        → Best ns k
        → double.ltb (score (n ∷ ns) 0) (score ns k) ≡ true
        → Best (n ∷ ns) (suc k)
    later n ns k best less = record {
      inside = omega (arith, best.inside);
      highest = λ j. by_index j;
      first = λ j. before j;
    }
      where
        by_index :
            (j : ℕ) → j < suc (length ns) → double.ltb (score ns k) (score (n ∷ ns) j) ≡ false
        by_index zero h = asym _ _ less
        by_index (suc j) h = best.highest j (omega (arith, h))

        before : (j : ℕ) → j < suc k → double.ltb (score (n ∷ ns) j) (score ns k) ≡ true
        before zero h = less
        before (suc j) h = best.first j (omega (arith, h))

    best_loop-Found :
        (i : ℕ) (ns : List (TreeNode double)) (b : double.D) (best : Option ℕ)
        → Found i ns b best (best_loop game double f cfg turn values sim init i ns b best)
    unfolding best_loop
    best_loop-Found i [] b best = inl (refl, λ j h. absurd (omega (arith, h)))
    best_loop-Found i (n ∷ ns) b best =
        let s0 = score (n ∷ ns) 0 in
        let here : i ≡ i + 0 = omega arith in
        let shift : (k : ℕ) → i + 1 + k ≡ i + suc k = λ k. omega arith in
        elim (Bool-cases (double.ltb b s0)) [
          | inr below_b ↦
              rw (below_b, best_loop)
                (elim (best_loop-Found (i + 1) ns b best) [
                  | inl (same, rest) ↦ inl (same, none_above n ns b below_b rest)
                  | inr (k, e, above, found) ↦ inr (
                    suc k,
                    e ∙ ap some (shift k),
                    above,
                    later n ns k found (ordered.ltb_total b s0 (score ns k) below_b above),
                  )
                ])
          | inl more ↦
              rw (more, best_loop)
                (elim (best_loop-Found (i + 1) ns s0 (some i)) [
                  | inl (same, rest) ↦ inr (
                    0,
                    same ∙ ap some here,
                    more,
                    record {
                      inside = omega arith;
                      highest = none_above n ns s0 (ordered.ltb_irrefl s0) rest;
                      first = λ j h. absurd (omega (arith, h));
                    },
                  )
                  | inr (k, e, above, found) ↦ inr (
                    suc k,
                    e ∙ ap some (shift k),
                    ordered.ltb_trans b s0 (score ns k) more above,
                    later n ns k found above,
                  )
                ])
        ]

  length-nodes_from :
      (nodes : List (TreeNode double)) (first n : ℕ)
      → length (nodes_from game double nodes first n) ≡ n
  length-nodes_from nodes first zero = refl
  length-nodes_from nodes first (suc n) = ap suc (length-nodes_from nodes (first + 1) n)

  pub get_or-nodes_from :
      (nodes : List (TreeNode double)) (first n k : ℕ)
      → k < n
      → get_or (nodes_from game double nodes first n) k (no_node game double)
        ≡ node_at game double nodes (first + k)
  get_or-nodes_from nodes first zero k h = absurd (omega (arith, h))
  get_or-nodes_from nodes first (suc n) zero h = ap (node_at game double nodes) first_plus
    where
      first_plus : first ≡ first + 0
      first_plus = omega arith
  get_or-nodes_from nodes first (suc n) (suc k) h =
      let e : first + 1 + k ≡ first + suc k = omega arith in
      get_or-nodes_from nodes (first + 1) n k (omega (arith, h)) ∙ ap (node_at game double nodes) e

  -- The score of the `k`th child of the node `i`.
  abbrev pub child_score : BaseMcts game double → ℕ → ℕ → double.D
  child_score s i k =
      let children = children_of game double s.nodes i in
      let turn = root_turn game double s in
      score turn s.value_map (get_sim_count double (node_at game double s.nodes i))
        (calculate_init_q_value double f cfg turn s.value_map children) children k

  -- Over numbers whose order is linear (there is no NaN), a node with a child `c` whose score is
  -- above the number that the loop starts with has a best child: the selection returns the first of
  -- the children with the highest score.
  pub select_child-IsBest :
      (s : BaseMcts game double) (i c : ℕ)
      → c < (node_at game double s.nodes i).n_children
      → double.ltb (least_score double) (child_score s i c) ≡ true
      → (k : ℕ) × (select_child game double f cfg s i ≡ some k)
        × (k < (node_at game double s.nodes i).n_children)
        × ((j : ℕ)
            → j < (node_at game double s.nodes i).n_children
            → double.ltb (child_score s i k) (child_score s i j) ≡ false)
        × ((j : ℕ) → j < k → double.ltb (child_score s i j) (child_score s i k) ≡ true)
  unfolding select_child
  select_child-IsBest s i c some_child above_least =
      let from_zero : (k : ℕ) → 0 + k ≡ k = λ k. omega arith in
      let n = (node_at game double s.nodes i).n_children in
      let children = children_of game double s.nodes i in
      let len : length children ≡ n = length-nodes_from s.nodes _ n in
      elim (best_loop-Found (root_turn game double s) s.value_map
        (get_sim_count double (node_at game double s.nodes i))
        (calculate_init_q_value double f cfg (root_turn game double s) s.value_map children) 0
        children (least_score double) none) [
          | inl (_, none_higher) ↦ absurd (
              true≢false
                (sym above_least ∙ none_higher c (subst (λ x. c < x) (sym len) some_child)))
          | inr (k, e, _, best) ↦ (
            k,
            e ∙ ap some (from_zero k),
            subst (λ x. k < x) len best.inside,
            λ j h. best.highest j (subst (λ x. j < x) (sym len) h),
            best.first,
          )
        ]
