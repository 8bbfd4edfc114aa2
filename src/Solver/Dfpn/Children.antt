-- ===== src/Solver/Dfpn/Children.antt =====
-- The children of a node stand for the moves of its position, and their statuses are true.
use proof_cost_network.Base.{
  ℕ, zero, suc, ◌<◌, ◌≡◌, refl, sym, ◌∙◌, ap, subst, false, not, List, [], ◌∷◌, length, get_or, set,
  arith, ◌⊎◌, inl, inr, Bool-cases,
}
use proof_cost_network.Board.Color.{against_color, against_color-against_color}
use proof_cost_network.Board.Move.{Move}
use proof_cost_network.Solver.Game.{Game, all_moves-InTurn, Playable, ◌∈◌}
use proof_cost_network.Solver.Double.{Double}
use proof_cost_network.Solver.TreeNode.{
  TreeNode, SolutionStatus, solution_unknown, solution_win, solution_loss, has_children,
}
use proof_cost_network.Solver.Dfpn.Numbers.{Configure, update_solution_status, update_pndn}
use proof_cost_network.Solver.Dfpn.Numbers.Status.{
  Rule, unchanged, child_wins, all_lose, update_solution_status-Rule,
}
use proof_cost_network.Solver.Dfpn.Semantics.{MoverLoses, wins_all, loses_some, IsCorrect}

-- Members of an array after a write, and the member at an index.
module _ {A : Type 0} where
  pub get_or-∈ : (xs : List A) (i : ℕ) (d : A) → i < length xs → get_or xs i d ∈ xs
  get_or-∈ [] i d h = elim h [ ]
  get_or-∈ (x ∷ xs) zero d h = inl refl
  get_or-∈ (x ∷ xs) (suc i) d h = inr (get_or-∈ xs i d (omega arith))

  pub ∈-set : (xs : List A) (i : ℕ) (v x : A) → x ∈ set xs i v → (x ≡ v) ⊎ (x ∈ xs)
  ∈-set [] i v x h = absurd h
  ∈-set (y ∷ xs) zero v x (inl e) = inl e
  ∈-set (y ∷ xs) zero v x (inr h) = inr (inr h)
  ∈-set (y ∷ xs) (suc i) v x (inl e) = inr (inl e)
  ∈-set (y ∷ xs) (suc i) v x (inr h) = elim (∈-set xs i v x h) [
    | inl e ↦ inl e
    | inr k ↦ inr (inr k)
  ]

  pub set-∈ :
      (xs : List A) (i : ℕ) (v d x : A)
      → x ∈ xs
      → (x ∈ set xs i v) ⊎ (v ∈ set xs i v) × (x ≡ get_or xs i d)
  set-∈ [] i v d x h = absurd h
  set-∈ (y ∷ xs) zero v d x (inl e) = inr (inl refl, e)
  set-∈ (y ∷ xs) zero v d x (inr h) = inl (inr h)
  set-∈ (y ∷ xs) (suc i) v d x (inl e) = inl (inl e)
  set-∈ (y ∷ xs) (suc i) v d x (inr h) = elim (set-∈ xs i v d x h) [
    | inl k ↦ inl (inr k)
    | inr (k, e) ↦ inr (inr k, e)
  ]

status-cases :
    (s : SolutionStatus) → (s ≡ solution_unknown) ⊎ (s ≡ solution_win) ⊎ (s ≡ solution_loss)
status-cases solution_unknown = inl refl
status-cases solution_win = inr (inl refl)
status-cases solution_loss = inr (inr refl)

module _ (game : Game) (double : Double) where
  open game use {Position, is_terminal, get_turn_color, get_tt_hash_key, play}
  open double use {D}

  pub record ChildOk (g : Position) (c : TreeNode double) : Type 0 where
    pub playable : Playable game g c.move
    pub keyed : c.hashkey ≡ get_tt_hash_key (play c.move g)
    pub correct : IsCorrect game (play c.move g) c.status
    pub leaf : c.n_children ≡ 0

  pub record ChildrenOk (g : Position) (cs : List (TreeNode double)) : Type 0 where
    pub each : (c : TreeNode double) → c ∈ cs → ChildOk g c
    pub covered : (m : Move) → Playable game g m → (c : TreeNode double) × (c ∈ cs) × (c.move ≡ m)

  -- The player of the move to a child is the opponent of the player there.
  pub move-color :
      (g : Position) (c : TreeNode double)
      → is_terminal g ≡ false
      → ChildOk g c
      → c.move.color ≡ against_color (get_turn_color (play c.move g))
  move-color g c running ok = sym (
      ap against_color (
        game.get_turn_color-play g c.move running ok.playable.1
          (all_moves-InTurn game g c.move ok.playable.0))
      ∙ (against_color-against_color c.move.color).0)

  -- The status rule is right when the children's statuses are.
  pub update_solution_status-IsCorrect :
      (g : Position) (node : TreeNode double) (cs : List (TreeNode double))
      → is_terminal g ≡ false
      → ChildrenOk g cs
      → IsCorrect game g node.status
      → IsCorrect game g (update_solution_status double node cs).status
  update_solution_status-IsCorrect g node cs running ok before =
      by_rule _ (update_solution_status-Rule double node cs)
    where
      by_rule : (s : SolutionStatus) → Rule double cs node.status s → IsCorrect game g s
      by_rule _ unchanged = before
      by_rule _ (child_wins c at won) =
          let child = ok.each c at in
          loses_some c.move running child.playable (rw won at child.correct)
      by_rule _ (all_lose lost) = wins_all running (λ m p.
          let (c, at, e) = ok.covered m p in
          let child = (ok.each c at).correct in
          subst (λ x. MoverLoses game (play x g)) e (rw (lost c at) at child))

  -- A child's new status may replace the old one.
  pub set-ChildrenOk :
      (g : Position) (cs : List (TreeNode double)) (i : ℕ) (c d : TreeNode double)
      → ChildrenOk g cs
      → ChildOk g c
      → c.move ≡ (get_or cs i d).move
      → ChildrenOk g (set cs i c)
  set-ChildrenOk g cs i c d ok new same = record {
    each = λ x at. elim (∈-set cs i c x at) [ inl e ↦ rw e new | inr old ↦ ok.each x old ];
    covered = λ m p.
        let (x, at, e) = ok.covered m p in
        elim (set-∈ cs i c d x at) [
          | inl kept ↦ (x, kept, e)
          | inr (here, gone) ↦ (c, here, same ∙ ap (λ (y : TreeNode double). y.move) (sym gone) ∙ e)
        ];
  }

  module _ (cfg : Configure double) where
    -- The numbers are written to the node, and nothing else.
    pub record SameNode (m n : TreeNode double) : Type 0 where
      pub move : m.move ≡ n.move
      pub hashkey : m.hashkey ≡ n.hashkey
      pub status : m.status ≡ n.status
      pub n_children : m.n_children ≡ n.n_children

    pub update_pndn-SameNode :
        (node : TreeNode double) (cs : List (TreeNode double)) (p d : D)
        → SameNode (update_pndn double cfg node cs p d) node
    unfolding update_pndn
    update_pndn-SameNode node cs p d = elim (status-cases node.status) [
      | inl e ↦ elim (Bool-cases (has_children double node)) [
        | inl inner ↦
            rw (e, inner, update_pndn)
              (record { move = refl; hashkey = refl; status = refl; n_children = refl })
        | inr leaf ↦
            rw (e, leaf, update_pndn)
              (record { move = refl; hashkey = refl; status = refl; n_children = refl })
      ]
      | inr (inl e) ↦
          rw (e, update_pndn)
            (record { move = refl; hashkey = refl; status = refl; n_children = refl })
      | inr (inr e) ↦
          rw (e, update_pndn)
            (record { move = refl; hashkey = refl; status = refl; n_children = refl })
    ]

    pub update_solution_status-same :
        (node : TreeNode double) (cs : List (TreeNode double))
        → ((update_solution_status double node cs).move ≡ node.move)
          × ((update_solution_status double node cs).hashkey ≡ node.hashkey)
          × ((update_solution_status double node cs).n_children ≡ node.n_children)
    unfolding update_solution_status
    update_solution_status-same node cs = elim (Bool-cases (not (has_children double node))) [
      | inl leaf ↦ rw (leaf, update_solution_status) (refl, refl, refl)
      | inr inner ↦ rw (inner, update_solution_status) (refl, refl, refl)
    ]

    pub update_solution_status-leaf :
        (node : TreeNode double) (cs : List (TreeNode double))
        → node.n_children ≡ 0
        → update_solution_status double node cs ≡ node
    unfolding update_solution_status has_children
    update_solution_status-leaf node cs leaf = rw leaf refl
