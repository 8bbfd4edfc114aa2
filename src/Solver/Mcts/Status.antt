-- ===== src/Solver/Mcts/Status.antt =====
-- What the status of a node rests on, the statuses of its children, and a change of one status.
use proof_cost_network.Base.{
  ℕ, zero, suc, ◌+◌, ◌≤◌, ◌<◌, ◌≡◌, ◌≢◌, refl, sym, ◌∙◌, ap, true, List, [], ◌∷◌, some, true≢false,
  ◌⊎◌, inl, inr, arith, get_or-set_cases, Bool-cases, subst, ◌==◌, ==→≡,
}
use proof_cost_network.Solver.Game.{Game, ◌∈◌}
use proof_cost_network.Solver.Double.{Double}
use proof_cost_network.Solver.TreeNode.{
  SolutionStatus, solution_unknown, solution_win, solution_loss, is_loss, TreeNode,
}
use proof_cost_network.Solver.Mcts.{
  node_at, no_node, set_solution_status, all_loss, is_all_children_solution_loss,
}

pub SolutionStatus-cases :
    (s : SolutionStatus) → (s ≡ solution_unknown) ⊎ (s ≡ solution_win) ⊎ (s ≡ solution_loss)
SolutionStatus-cases solution_unknown = inl refl
SolutionStatus-cases solution_win = inr (inl refl)
SolutionStatus-cases solution_loss = inr (inr refl)

is_loss→≡ : (s : SolutionStatus) → is_loss s ≡ true → s ≡ solution_loss
is_loss→≡ solution_unknown h = cc
is_loss→≡ solution_win h = cc
is_loss→≡ solution_loss h = refl

win≢unknown : solution_win ≢ solution_unknown
win≢unknown h = cc

loss≢unknown : solution_loss ≢ solution_unknown
loss≢unknown h = cc

pub win≢loss : solution_win ≢ solution_loss
win≢loss h = cc

module _ (game : Game) (double : Double) where
  open game use {Position, get_tt_hash_key, undo, is_terminal, eval}

  abbrev pub Nodes : Type 0
  Nodes = List (TreeNode double)

  abbrev pub at : Nodes → ℕ → TreeNode double
  at nodes i = node_at game double nodes i

  abbrev pub mark : ℕ → SolutionStatus → Nodes → Nodes
  mark p st nodes = set_solution_status game double p st nodes

  -- `i` is a child of `p`.
  abbrev pub ChildOf : Nodes → ℕ → ℕ → Type 0
  ChildOf nodes p i =
      (f : ℕ) × ((at nodes p).first_child ≡ some f) × (f ≤ i) × (i < f + (at nodes p).n_children)

  -- A loss of the mover has an answer that wins, and a win has answers that all lose.
  pub record Justified (nodes : Nodes) (p : ℕ) : Type 0 where
    pub of_loss :
        (at nodes p).status ≡ solution_loss
        → (i : ℕ) × ChildOf nodes p i × ((at nodes i).status ≡ solution_win)
    pub of_win :
        (at nodes p).status ≡ solution_win
        → (i : ℕ) → ChildOf nodes p i
        → (at nodes i).status ≡ solution_loss

  abbrev pub AllJustified : (ℕ → Type 0) → Nodes → Type 0
  AllJustified Given nodes = (p : ℕ) → Given p ⊎ Justified nodes p

  -- The last node first, each node but the last without a status, and none twice.
  abbrev pub OnPath : Nodes → List ℕ → Type 0
  OnPath nodes [] = Unit
  OnPath nodes (i ∷ []) = Unit
  OnPath nodes (i ∷ p ∷ path) =
      ChildOf nodes p i
      × ((at nodes p).status ≡ solution_unknown)
      × (¬ (p ∈ path))
      × OnPath nodes (p ∷ path)

  mark-shape :
      (p : ℕ) (st : SolutionStatus) (nodes : Nodes) (q : ℕ)
      → ((at (mark p st nodes) q).first_child ≡ (at nodes q).first_child)
        × ((at (mark p st nodes) q).n_children ≡ (at nodes q).n_children)
  unfolding set_solution_status
  mark-shape p st nodes q =
      elim (get_or-set_cases nodes p q (record (at nodes p) { status = st })
        (no_node game double)) [
          | inl (e, h) ↦ (
            ap (λ n. n.first_child) h ∙ ap (λ j. (at nodes j).first_child) e,
            ap (λ n. n.n_children) h ∙ ap (λ j. (at nodes j).n_children) e,
          )
          | inr h ↦ (ap (λ n. n.first_child) h, ap (λ n. n.n_children) h)
        ]

  mark-status :
      (p : ℕ) (st : SolutionStatus) (nodes : Nodes) (q : ℕ)
      → (p ≡ q) × ((at (mark p st nodes) q).status ≡ st)
        ⊎ ((at (mark p st nodes) q).status ≡ (at nodes q).status)
  unfolding set_solution_status
  mark-status p st nodes q =
      elim (get_or-set_cases nodes p q (record (at nodes p) { status = st })
        (no_node game double)) [
          | inl (e, h) ↦ inl (e, ap (λ n. n.status) h)
          | inr h ↦ inr (ap (λ n. n.status) h)
        ]

  -- A status that another node has stays.
  mark-keeps :
      (p : ℕ) (st : SolutionStatus) (nodes : Nodes) (q : ℕ)
      → p ≢ q
      → (at (mark p st nodes) q).status ≡ (at nodes q).status
  mark-keeps p st nodes q ne = elim (mark-status p st nodes q) [
    | inl (e, _) ↦ absurd (ne e)
    | inr h ↦ h
  ]

  ChildOf-mark :
      (p : ℕ) (st : SolutionStatus) (nodes : Nodes) (q i : ℕ)
      → ChildOf nodes q i
      → ChildOf (mark p st nodes) q i
  ChildOf-mark p st nodes q i (f, e, low, high) =
      let shape = mark-shape p st nodes q in (f, shape.0 ∙ e, low, rw shape.1 high)

  ChildOf-unmark :
      (p : ℕ) (st : SolutionStatus) (nodes : Nodes) (q i : ℕ)
      → ChildOf (mark p st nodes) q i
      → ChildOf nodes q i
  ChildOf-unmark p st nodes q i (f, e, low, high) =
      let shape = mark-shape p st nodes q in (f, sym shape.0 ∙ e, low, rw (← shape.1) high)

  differs :
      (nodes : Nodes) (p i : ℕ) (st : SolutionStatus)
      → (at nodes p).status ≡ solution_unknown
      → (at nodes i).status ≡ st
      → st ≢ solution_unknown
      → p ≢ i
  differs nodes p i st unknown known ne e =
      ne (sym known ∙ ap (λ j. (at nodes j).status) (sym e) ∙ unknown)

  pub OnPath-mark :
      (p : ℕ) (st : SolutionStatus) (nodes : Nodes) (i : ℕ) (path : List ℕ)
      → ¬ (p ∈ path)
      → OnPath nodes (i ∷ path)
      → OnPath (mark p st nodes) (i ∷ path)
  OnPath-mark p st nodes i [] new h = h
  OnPath-mark p st nodes i (q ∷ path) new (child, unknown, once, rest) = (
    ChildOf-mark p st nodes q i child,
    mark-keeps p st nodes q (λ e. new (inl e)) ∙ unknown,
    once,
    OnPath-mark p st nodes q path (λ h. new (inr h)) rest,
  )

  -- What the status that a node gets must rest on.
  abbrev pub Reason : Nodes → ℕ → SolutionStatus → Type 0
  Reason nodes p st =
      (st ≡ solution_loss → (i : ℕ) × ChildOf nodes p i × ((at nodes i).status ≡ solution_win))
      × (st ≡ solution_win → (i : ℕ) → ChildOf nodes p i → (at nodes i).status ≡ solution_loss)

  Reason-mark :
      (p : ℕ) (st : SolutionStatus) (nodes : Nodes) (q : ℕ) (now : SolutionStatus)
      → (at nodes p).status ≡ solution_unknown
      → (at (mark p st nodes) q).status ≡ now
      → Reason nodes q now
      → Justified (mark p st nodes) q
  Reason-mark p st nodes q now unknown is_now (of_loss, of_win) = record {
    of_loss = λ h.
        let (i, child, won) = of_loss (sym is_now ∙ h) in
        (
          i,
          ChildOf-mark p st nodes q i child,
          mark-keeps p st nodes i (differs nodes p i _ unknown won win≢unknown) ∙ won,
        );
    of_win = λ h i child.
        let lost = of_win (sym is_now ∙ h) i (ChildOf-unmark p st nodes q i child) in
        mark-keeps p st nodes i (differs nodes p i _ unknown lost loss≢unknown) ∙ lost;
  }

  pub AllJustified-mark :
      (given : ℕ → Type 0) (p : ℕ) (st : SolutionStatus) (nodes : Nodes)
      → (at nodes p).status ≡ solution_unknown
      → given p ⊎ Reason nodes p st
      → AllJustified given nodes
      → AllJustified given (mark p st nodes)
  AllJustified-mark given p st nodes unknown reason all q = elim (all q) [
    | inl g ↦ inl g
    | inr old ↦ elim (mark-status p st nodes q) [
      | inr same ↦
          inr (Reason-mark p st nodes q (at nodes q).status unknown same (old.of_loss, old.of_win))
      | inl (e, now) ↦ elim reason [
        | inl g ↦ inl (subst given e g)
        | inr r ↦ inr (Reason-mark p st nodes q st unknown now (subst (λ j. Reason nodes j st) e r))
      ]
    ]
  ]

  all_loss_sound :
      (nodes : Nodes) (f n i : ℕ)
      → all_loss game double nodes f n ≡ true
      → f ≤ i
      → i < f + n
      → (at nodes i).status ≡ solution_loss
  unfolding all_loss
  all_loss_sound nodes f zero i h low high = absurd (omega (arith, low, high))
  all_loss_sound nodes f (suc n) i h low high = elim (Bool-cases (is_loss (at nodes f).status)) [
    | inr e ↦ absurd (true≢false (sym (rw e at h)))
    | inl e ↦ elim (Bool-cases (f == i)) [
      | inl same ↦ is_loss→≡ _ (rw (← ==→≡ f i same) e)
      | inr other ↦
          all_loss_sound nodes (f + 1) n i (rw e at h) (ground (arith, other, low))
            (omega (arith, high))
    ]
  ]

  pub children_sound :
      (nodes : Nodes) (p i : ℕ)
      → is_all_children_solution_loss game double p nodes ≡ true
      → ChildOf nodes p i
      → (at nodes i).status ≡ solution_loss
  unfolding is_all_children_solution_loss
  children_sound nodes p i h (f, e, low, high) =
      all_loss_sound nodes f (at nodes p).n_children i (rw (e, is_all_children_solution_loss) at h)
        low high
