-- ===== src/Solver/Mcts/Laws.antt =====
-- What the statuses on the path of the MCTS solver rest on: the statuses of the children.
use proof_cost_network.Base.{
  ℕ, suc, ◌+◌, ◌<◌, ◌≡◌, refl, sym, ◌∙◌, ap, Bool, true, false, ◌||◌, List, [], ◌∷◌, Option, none,
  some, ◌>>=◌, inl, inr, arith, length, Bool-cases, if◌then◌else◌, subst, Option-cases,
}
use proof_cost_network.Board.Color.{eqb}
use proof_cost_network.Storage.OpenAddress
use proof_cost_network.Storage.OpenAddress.{Table}
use proof_cost_network.Storage.OpenAddress.Laws as Oa
use proof_cost_network.Solver.Game.{Game, ◌∈◌}
use proof_cost_network.Solver.Double.{Double}
use proof_cost_network.Solver.TreeNode.{
  SolutionStatus, solution_unknown, solution_win, solution_loss, TreeNode,
}
use proof_cost_network.Solver.TranspositionTable.{
  TtEntry, clean_tt_entry, get_entry, lookup, store, is_full,
}
use proof_cost_network.Solver.Mcts.{
  Mcts, node_at, set_solution_status, found_entry_in_tt, store_tt, is_all_children_solution_loss,
  update_loop, update_leaf, update,
}
use proof_cost_network.Solver.Mcts.Status.{
  SolutionStatus-cases, win≢loss, OnPath, OnPath-mark, AllJustified, AllJustified-mark, Reason,
  children_sound,
}

module _ (game : Game) (double : Double) where
  open game use {Position, get_tt_hash_key, undo, is_terminal, eval}

  abbrev at : List (TreeNode double) → ℕ → TreeNode double
  at nodes i = node_at game double nodes i

  abbrev mark : ℕ → SolutionStatus → List (TreeNode double) → List (TreeNode double)
  mark p st nodes = set_solution_status game double p st nodes

  -- Room in the table for `n` more entries, with a free slot left.
  abbrev pub Capacity : ℕ → Mcts game double → Type 0
  Capacity n s = Oa.IsValid clean_tt_entry s.tt × (s.tt.count + n < s.tt.size)

  not_full : (n : ℕ) (s : Mcts game double) → Capacity (suc n) s → is_full s.tt ≡ false
  unfolding is_full OpenAddress.is_full
  not_full n s (valid, fits) = ground (arith, fits)

  room_left : (n : ℕ) (s : Mcts game double) → Capacity (suc n) s → Oa.HasRoom clean_tt_entry s.tt
  unfolding is_full
  room_left n s (valid, fits) =
      Oa.is_full-HasRoom clean_tt_entry s.tt valid (not_full n s (valid, fits))

  store_tt-new :
      (p : ℕ) (s : Mcts game double) (t : Table TtEntry)
      → found_entry_in_tt game double true s ≡ some false
      → is_full s.tt ≡ false
      → store (get_tt_hash_key s.position) (record { solution_status = (at s.nodes p).status }) s.tt
        ≡ some t
      → store_tt game double true p s ≡ some (record s { tt = t })
  unfolding store_tt
  store_tt-new p s t found full stored = rw found (
      ap
        (λ (b : Bool). elim b [
          | true ↦ none
          | false ↦
              store (get_tt_hash_key s.position)
                (record { solution_status = (at s.nodes p).status }) s.tt
              >>= λ tt. some (record s { tt = tt })
        ])
        full
      ∙ ap (λ o. o >>= λ tt. some (record s { tt = tt })) stored)

  store_tt-known :
      (p : ℕ) (s : Mcts game double)
      → found_entry_in_tt game double true s ≡ some true
      → store_tt game double true p s ≡ some s
  unfolding store_tt
  store_tt-known p s found = rw found refl

  found_entry-lookup :
      (s : Mcts game double) (r : Option ℕ)
      → lookup (get_tt_hash_key s.position) s.tt ≡ some r
      → found_entry_in_tt game double true s ≡ some (elim r [ none ↦ false | some _ ↦ true ])
  unfolding found_entry_in_tt
  found_entry-lookup s r looked = rw looked refl

  store_tt-returns :
      (use_tt : Bool) (p n : ℕ) (s : Mcts game double)
      → Capacity (suc n) s
      → (u : Mcts game double) × (store_tt game double use_tt p s ≡ some u)
        × Capacity n u
        × (u.nodes ≡ s.nodes)
  unfolding store_tt lookup store
  store_tt-returns false p n s (valid, fits) = (s, refl, (valid, omega (arith, fits)), refl)
  store_tt-returns true p n s (valid, fits) =
      let room = room_left n s (valid, fits) in
      let key = get_tt_hash_key s.position in
      let (r, looked, _) = Oa.lookup-Locates clean_tt_entry s.tt valid room key in
      elim (Option-cases r) [
        | inr (j, e) ↦ (
          s,
          store_tt-known p s (found_entry-lookup s (some j) (looked ∙ ap some e)),
          (valid, omega (arith, fits)),
          refl,
        )
        | inl e ↦
            let (t, stored, valid', size, count, _, _) =
              Oa.store-Stores clean_tt_entry s.tt valid room key
                (record { solution_status = (at s.nodes p).status }) in
            (
              record s { tt = t },
              store_tt-new p s t (found_entry-lookup s none (looked ∙ ap some e))
                  (not_full n s (valid, fits)) stored,
              (valid', omega (arith, size, count, fits)),
              refl,
            )
      ]

  -- The parent takes its status, which is stored, and the loop goes on from there.
  climb :
      (use_tt : Bool) (given : ℕ → Type 0) (i p : ℕ) (path : List ℕ) (s : Mcts game double)
      → Capacity (length (i ∷ p ∷ path)) s
      → OnPath game double s.nodes (i ∷ p ∷ path)
      → AllJustified game double given s.nodes
      → ((t : Mcts game double)
          → Capacity (length (p ∷ path)) t
          → OnPath game double t.nodes (p ∷ path)
          → AllJustified game double given t.nodes
          → (u : Mcts game double) × (update_loop game double use_tt (p ∷ path) t ≡ some u)
            × AllJustified game double given u.nodes)
      → (st : SolutionStatus) → Reason game double s.nodes p st
      → (u : Mcts game double) × ((store_tt game double use_tt p
              (record s { nodes = mark p st s.nodes; position = undo s.position })
            >>= update_loop game double use_tt (p ∷ path))
          ≡ some u)
        × AllJustified game double given u.nodes
  climb use_tt given i p path s fits (child, unknown, once, rest) all go_on st reason =
      let marked : Mcts game double = record s {
        nodes = mark p st s.nodes;
        position = undo s.position;
      } in
      let (t, stored, fits', same) = store_tt-returns use_tt p (length (p ∷ path)) marked fits in
      let (u, h, done) =
        go_on t fits'
          (subst (λ nodes. OnPath game double nodes (p ∷ path)) (sym same)
            (OnPath-mark game double p st s.nodes p path once rest))
          (subst (AllJustified game double given) (sym same)
            (AllJustified-mark game double given p st s.nodes unknown (inr reason) all)) in
      (u, rw stored h, done)

  update_loop-Justifies :
      (use_tt : Bool) (given : ℕ → Type 0) (path : List ℕ) (s : Mcts game double)
      → Capacity (length path) s
      → OnPath game double s.nodes path
      → AllJustified game double given s.nodes
      → (u : Mcts game double) × (update_loop game double use_tt path s ≡ some u)
        × AllJustified game double given u.nodes
  unfolding update_loop
  update_loop-Justifies use_tt given [] s fits on_path all = (s, refl, all)
  update_loop-Justifies use_tt given (i ∷ []) s fits on_path all = (s, refl, all)
  update_loop-Justifies use_tt given (i ∷ p ∷ path) s fits (child, unknown, once, rest) all =
      elim (SolutionStatus-cases (at s.nodes i).status) [
        | inl e ↦
            let (u, h, done) =
              update_loop-Justifies use_tt given (p ∷ path) s (fits.0, omega (arith, fits.1)) rest
                all in
            (u, rw (e, update_loop) h, done)
        | inr (inl e) ↦
            let (u, h, done) =
              climb use_tt given i p path s fits (child, unknown, once, rest) all
                (update_loop-Justifies use_tt given (p ∷ path)) solution_loss
                ((λ _. (i, child, e)), λ h. absurd (win≢loss (sym h))) in
            (u, rw (e, update_loop) h, done)
        | inr (inr e) ↦ elim (Bool-cases (is_all_children_solution_loss game double p s.nodes)) [
          | inl lost ↦
              let (u, h, done) =
                climb use_tt given i p path s fits (child, unknown, once, rest) all
                  (update_loop-Justifies use_tt given (p ∷ path)) solution_win
                  (
                    (λ h. absurd (win≢loss h)),
                    λ _ j c. children_sound game double s.nodes p j lost c,
                  ) in
              (u, rw (e, update_loop) (rw lost h), done)
          | inr not_all ↦
              (record s { position = undo s.position }, rw (e, update_loop) (rw not_all refl), all)
        ]
      ]

  -- The last node takes some status, and nothing else changes.
  update_leaf-marks :
      (leaf : ℕ) (s : Mcts game double)
      → (s.found_in_tt ≡ true
          → (j : ℕ) × (lookup (get_tt_hash_key s.position) s.tt ≡ some (some j)))
      → (st : SolutionStatus) × (update_leaf game double leaf s
          ≡ some (record s { nodes = mark leaf st s.nodes }))
  unfolding update_leaf
  update_leaf-marks leaf s found = elim (Bool-cases s.found_in_tt) [
    | inr none_found ↦ (
      if eqb (at s.nodes leaf).move.color (eval s.position) then solution_win else solution_loss,
      rw none_found refl,
    )
    | inl e ↦ let (j, h) = found e in ((get_entry j s.tt).solution_status, rw e (rw h refl))
  ]

  -- With room in the table for the path, a path of distinct nodes from a child to its parent, all without
  -- a status, and an entry in the table if one was found: `update` returns, and if every status but
  -- those that are given (the last node's among them) was justified before, every one is after.
  pub update-Justifies :
      (use_tt : Bool) (given : ℕ → Type 0) (leaf : ℕ) (path : List ℕ) (s : Mcts game double)
      → Capacity (length (leaf ∷ path)) s
      → OnPath game double s.nodes (leaf ∷ path)
      → ¬ (leaf ∈ path)
      → (at s.nodes leaf).status ≡ solution_unknown
      → given leaf
      → (s.found_in_tt ≡ true
          → (j : ℕ) × (lookup (get_tt_hash_key s.position) s.tt ≡ some (some j)))
      → AllJustified game double given s.nodes
      → (u : Mcts game double) × (update game double use_tt (leaf ∷ path) s ≡ some u)
        × AllJustified game double given u.nodes
  unfolding update
  update-Justifies use_tt given leaf path s fits on_path once unknown is_given found all =
      elim (Bool-cases (is_terminal s.position || s.found_in_tt)) [
        | inr neither ↦ (s, rw neither refl, all)
        | inl some_end ↦
            let (st, e) = leaf_status in
            let (u, h, done) =
              update_loop-Justifies use_tt given (leaf ∷ path)
                (record s { nodes = mark leaf st s.nodes }) fits
                (OnPath-mark game double leaf st s.nodes leaf path once on_path)
                (AllJustified-mark game double given leaf st s.nodes unknown (inl is_given) all) in
            (
              u,
              rw some_end (ap (λ o. o >>= update_loop game double use_tt (leaf ∷ path)) e ∙ h),
              done,
            )
      ]
    where
      leaf_status :
          (st : SolutionStatus) × (update_leaf game double leaf s
            ≡ some (record s { nodes = mark leaf st s.nodes }))
      leaf_status = update_leaf-marks leaf s found
