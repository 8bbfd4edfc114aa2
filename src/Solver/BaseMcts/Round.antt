-- ===== src/Solver/BaseMcts/Round.antt =====
-- A round of the search ends, and takes back the moves that it played.
use proof_cost_network.Base.{
  ℕ, zero, suc, ◌+◌, ◌<◌, ◌≤◌, ◌≡◌, refl, ◌∙◌, ap, true, false, ◌==◌, List, [], ◌∷◌, length, Option,
  some, inl, inr, Bool-cases, ltb, arith, set,
}
use proof_cost_network.Board.Move.{Move}
use proof_cost_network.Solver.Double.{Double, IsOrdered}
use proof_cost_network.Solver.Game.{Game}
use proof_cost_network.Solver.TreeNode.{TreeNode, has_children}
use proof_cost_network.Solver.BaseMcts.Values.{Settings, Functions}
use proof_cost_network.Solver.BaseMcts.{
  BaseMcts, least_score, node_at, first_of, roll_back_loop, rollback_game, selection_loop,
  selection, expansion, update_loop, update, update_by_win_lose, update_by_space_complexity,
  evaluated, round,
}
use proof_cost_network.Solver.BaseMcts.Selection.{child_score, select_child-IsBest}

module _ (game : Game) where
  open game use {Position, get_turn_color, is_terminal, is_legal_move, play, undo, undo-play}

  -- `h` is `n` legal moves in turn after `g`.
  pub data Played (g : Position) : Position → ℕ → Type 0 where
    here : Played g g 0
    step :
        {h : Position} {n : ℕ}
        → Played g h n
        → (m : Move) → is_terminal h ≡ false
        → is_legal_move h m ≡ true
        → m.color ≡ get_turn_color h
        → Played g (play m h) (suc n)

  -- The number of moves that the game keeps grows by one with a move.
  abbrev pub Counts : (Position → ℕ) → Type 0
  Counts num_moves =
      (g : Position) (m : Move)
      → is_terminal g ≡ false
      → is_legal_move g m ≡ true
      → m.color ≡ get_turn_color g
      → num_moves (play m g) ≡ suc (num_moves g)

  num_moves-Played :
      (num_moves : Position → ℕ)
      → Counts num_moves
      → {g h : Position} {n : ℕ} → Played g h n
      → num_moves h ≡ n + num_moves g
  num_moves-Played num_moves counts here = omega arith
  num_moves-Played num_moves counts (step {h} {n} p m go legal mover) =
      omega (arith, counts h m go legal mover, num_moves-Played num_moves counts p)

  module _ (double : Double) where
    -- The tree at the node `i`, of height `d` at most, has legal moves in turn from the position on.
    abbrev pub Sound : ℕ → List (TreeNode double) → ℕ → Position → Type 0
    Sound zero nodes i g = (node_at game double nodes i).n_children ≡ 0
    Sound (suc d) nodes i g =
        (k : ℕ)
        → k < (node_at game double nodes i).n_children
        → let child = first_of game double (node_at game double nodes i) + k in
          let m = (node_at game double nodes child).move in
          (is_terminal g ≡ false)
          × (is_legal_move g m ≡ true)
          × (m.color ≡ get_turn_color g)
          × Sound d nodes child (play m g)

    roll_back_loop_restores :
        (num_moves : Position → ℕ)
        → Counts num_moves
        → (g : Position) {n : ℕ} (h : Position) → Played g h n
        → (fuel : ℕ) → n ≤ fuel
        → (s : BaseMcts game double) → s.backup_move ≡ num_moves g
        → roll_back_loop game double num_moves fuel (record s { position = h })
          ≡ record s { position = g }
    unfolding roll_back_loop
    roll_back_loop_restores num_moves counts g h here zero room s back = refl
    roll_back_loop_restores num_moves counts g h here (suc fuel) room s back =
        let stop : ltb s.backup_move (num_moves g) ≡ false = ground (arith, back) in
        rw (stop, roll_back_loop) refl
    roll_back_loop_restores num_moves counts g _ (step {h} {n} p m go legal mover) zero room s
          back =
        absurd (omega (arith, room))
    roll_back_loop_restores num_moves counts g _ (step {h} {n} p m go legal mover) (suc fuel) room s
          back =
        let more : ltb s.backup_move (num_moves (play m h)) ≡ true =
          ground (arith, back, counts h m go legal mover, num_moves-Played num_moves counts p) in
        rw (more, roll_back_loop)
          (ap (λ x. roll_back_loop game double num_moves fuel (record s { position = x }))
              (undo-play h m go legal mover)
            ∙ roll_back_loop_restores num_moves counts g h p fuel (omega (arith, room)) s back)

    rollback_game_restores :
        (num_moves : Position → ℕ)
        → Counts num_moves
        → (g : Position) {n : ℕ} (h : Position) → Played g h n
        → (s : BaseMcts game double) → s.backup_move ≡ num_moves g
        → rollback_game game double num_moves (record s { position = h })
          ≡ record s { position = g }
    unfolding rollback_game
    rollback_game_restores num_moves counts g {n} h p s back =
        roll_back_loop_restores num_moves counts g h p (num_moves h)
          (omega (arith, num_moves-Played num_moves counts p)) s back

    module _ (ordered : IsOrdered double) (f : Functions double) (cfg : Settings double) where
      -- The scores of the children are above the number that the selection starts with.
      abbrev pub Finite : BaseMcts game double → Type 0
      Finite s =
          (i k : ℕ)
          → k < (node_at game double s.nodes i).n_children
          → double.ltb (least_score double) (child_score game double ordered f cfg s i k) ≡ true

      -- The selection ends in a leaf, some legal moves later.
      abbrev Selects : BaseMcts game double → Option (BaseMcts game double) → Type 0
      Selects s o =
          (h : Position) × (n : ℕ) × (selected : List ℕ) × Played s.position h n
          × (o ≡ some (record s { position = h; selected = selected }))

      selection_loop-Selects :
          (d fuel i : ℕ) (s : BaseMcts game double) (g : Position) {n : ℕ}
          → Sound d s.nodes i s.position
          → d < fuel
          → Finite s
          → Played g s.position n
          → (h : Position) × (n' : ℕ) × (selected : List ℕ) × Played g h n'
            × (selection_loop game double f cfg fuel i s
                ≡ some (record s { position = h; selected = selected }))
      unfolding selection_loop has_children
      selection_loop-Selects d zero i s g sound room finite p = absurd (omega (arith, room))
      selection_loop-Selects zero (suc fuel) i s g {n} sound room finite p =
          (s.position, n, s.selected, p, rw (sound, selection_loop) refl)
      selection_loop-Selects (suc d) (suc fuel) i s g {n} sound room finite p =
          let node = node_at game double s.nodes i in
          elim (Bool-cases (node.n_children == 0)) [
            | inl leaf ↦ (s.position, n, s.selected, p, rw (leaf, selection_loop) refl)
            | inr inner ↦
                let (k, e, inside, _, _) =
                  select_child-IsBest game double ordered f cfg s i 0 (ground (arith, inner))
                    (finite i 0 (ground (arith, inner))) in
                let (go, legal, mover, sound') = sound k inside in
                let child = first_of game double node + k in
                let m = (node_at game double s.nodes child).move in
                let u = record s { position = play m s.position; selected = child ∷ s.selected } in
                let (h, n', selected, p', e') =
                  selection_loop-Selects d fuel child u g sound' (omega (arith, room)) finite
                    (step p m go legal mover) in
                (h, n', selected, p', rw (inner, selection_loop) (rw e e'))
          ]

      -- Neither of the steps after the selection changes the position or its backup.
      abbrev Stays : BaseMcts game double → BaseMcts game double → Type 0
      Stays s t =
          (t.position ≡ s.position)
          × (t.backup_move ≡ s.backup_move)
          × (t.simulation ≡ s.simulation)
          × (t.node_used_index ≡ s.node_used_index)

      update_loop-Stays :
          (path : List ℕ) (value : double.D) (s : BaseMcts game double)
          → Stays s (update_loop game double f cfg path value s)
      unfolding update_loop update_by_win_lose update_by_space_complexity
      update_loop-Stays [] value s = (refl, refl, refl, refl)
      update_loop-Stays (i ∷ path) value s = elim (Bool-cases cfg.net_value_winloss) [
        | inl win ↦
            rw (win, update_loop)
              (let (a, b, c, d) =
                  update_loop-Stays path (double.neg value)
                    (update_by_win_lose game double f cfg i value s) in
                (a, b, c, d))
        | inr space ↦
            rw (space, update_loop)
              (let (a, b, c, d) =
                  update_loop-Stays path value
                    (update_by_space_complexity game double f cfg i value s) in
                (a, b, c, d))
      ]

      update-Stays : (s : BaseMcts game double) → Stays s (update game double f cfg s)
      unfolding update
      update-Stays s = by_path s.selected refl
        where
          by_path : (path : List ℕ) → s.selected ≡ path → Stays s (update game double f cfg s)
          by_path [] e = rw (e, update) (refl, refl, refl, refl)
          by_path (leaf ∷ path) e =
              rw (e, update)
                (let (a, b, c, d) = update_loop-Stays (leaf ∷ path) s.value (record s {
                  nodes =
                      set s.nodes leaf
                        (record (node_at game double s.nodes leaf) { value = s.value });
                }) in
                  (a, b, c, d))

      -- The expansion takes a new node for each move of the policy at most.
      abbrev Expands : BaseMcts game double → BaseMcts game double → Type 0
      Expands s t =
          (t.position ≡ s.position)
          × (t.backup_move ≡ s.backup_move)
          × (t.simulation ≡ s.simulation)
          × (t.node_used_index ≤ s.node_used_index + length s.probability)

      expansion-Expands :
          (noise : ℕ → List double.D) (s : BaseMcts game double)
          → Expands s (expansion game double f cfg noise s)
      unfolding expansion
      expansion-Expands noise s = by_path s.selected refl
        where
          by_path :
              (path : List ℕ) → s.selected ≡ path → Expands s (expansion game double f cfg noise s)
          by_path [] e = rw (e, expansion) (refl, refl, refl, omega arith)
          by_path (parent ∷ path) e = elim (Bool-cases (is_terminal s.position)) [
            | inl over ↦ rw (e, expansion) (rw over (refl, refl, refl, omega arith))
            | inr go ↦ rw (e, expansion) (rw go (refl, refl, refl, omega arith))
          ]

      -- In a game with the laws of Solver.Game that counts its moves, over a tree of legal moves in
      -- turn whose height is not above the number of used nodes, with numbers of a linear order and
      -- scores above the number that the selection starts with, and with the backup at the number
      -- of moves: a round ends, the position is that before it, the simulation is counted, and no
      -- more nodes are taken than the policy at the selected leaf has moves.
      pub round-Restores :
          (num_moves : Position → ℕ)
          → Counts num_moves
          → (evaluate : BaseMcts game double → double.D × List (Move × double.D))
          → (noise : ℕ → ℕ → List double.D) → (d : ℕ) (s : BaseMcts game double)
          → Sound d s.nodes 0 s.position
          → d ≤ s.node_used_index
          → Finite s
          → s.backup_move ≡ num_moves s.position
          → (t : BaseMcts game double) × (leaf : BaseMcts game double) × (selection game double f
                cfg s
              ≡ some leaf)
            × (round game double f cfg num_moves evaluate noise s ≡ some t)
            × (t.position ≡ s.position)
            × (t.simulation ≡ s.simulation + 1)
            × (t.node_used_index ≤ s.node_used_index + length (evaluate leaf).1)
      unfolding round selection
      round-Restores num_moves counts evaluate noise d s sound low finite back =
          let (h, n, selected, played, e) =
            selection_loop-Selects d (s.node_used_index + 1) 0 (record s { selected = 0 ∷ [] })
              s.position sound (omega (arith, low)) finite here in
          let leaf = record s { position = h; selected = selected } in
          let value = evaluated game double f cfg num_moves evaluate noise leaf in
          let grown = expansion game double f cfg (noise s.simulation) value in
          let (a, b, c, few) = expansion-Expands (noise s.simulation) value in
          let updated = update game double f cfg grown in
          let (a', b', c', same) = update-Stays grown in
          let restored =
            rollback_game_restores num_moves counts s.position h played updated (b' ∙ b ∙ back) in
          let counted : BaseMcts game double → Option (BaseMcts game double) =
            λ x. some (record x { simulation = x.simulation + 1 }) in
          let at_leaf : updated.position ≡ h = a' ∙ a in
          let undone : rollback_game game double num_moves updated
              ≡ record updated { position = s.position } =
            ap (λ x. rollback_game game double num_moves (record updated { position = x })) at_leaf
            ∙ restored in
          (
            record updated { position = s.position; simulation = updated.simulation + 1 },
            leaf,
            e,
            rw (e, round) (ap counted undone),
            refl,
            ap (λ x. x + 1) (c' ∙ c),
            omega (arith, same, few),
          )
