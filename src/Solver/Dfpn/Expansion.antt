-- ===== src/Solver/Dfpn/Expansion.antt =====
-- What an expansion gives: a child for every legal move, with a true status.
use proof_cost_network.Base.{
  ℕ, ◌≡◌, refl, sym, ◌∙◌, ap, subst, ◌↔◌, true, false, List, [], ◌∷◌, length, Option, none, some,
  >>=-eq-some, some_inj, true≢false, map, ◌⊎◌, inl, inr, Bool-cases, Option-cases,
}
use proof_cost_network.Board.Color.{Color}
use proof_cost_network.Board.Move.{Move}
use proof_cost_network.Storage.OpenAddress.Laws.{lookup-hit}
use proof_cost_network.Solver.Game.{Game, all_moves-InTurn, Playable, all_moves, ◌∈◌}
use proof_cost_network.Solver.Double.{Double}
use proof_cost_network.Solver.TreeNode.{TreeNode, reset}
use proof_cost_network.Solver.Dfpn.Numbers.{
  Configure, PnsMode, vanilla_pns, policy_pns, focused_pns,
}
use proof_cost_network.Solver.Dfpn.Entries.{
  Environment, Solver, clean_entry, get_tt_entry, get_tt_entry_index, get_pndn_from_tt,
}
use proof_cost_network.Solver.Dfpn.Expand.{
  Expanded, expand, expand_vanilla_node, expand_cnn_node, make_child, make_children, legal_only,
  vanilla_moves, unweighted, cnn_outputs, entry_of, init_numbers,
}
use proof_cost_network.Solver.Dfpn.Semantics.{IsCorrect}
use proof_cost_network.Solver.Dfpn.Truth.{AreMoves, moves_of, Covers, IsTrueTable}
use proof_cost_network.Solver.Dfpn.Children.{ChildOk, ChildrenOk, update_pndn-SameNode}

module _ (game : Game) (double : Double) (cfg : Configure double) (env : Environment game double)
    (root_color : Color) where
  open game use {Position, is_terminal, is_legal_move, play, get_tt_hash_key}
  open double use {D}

  -- A child made at a running position of the game.
  pub record Made (g : Position) (m : Move) (s t : Solver game double) (c : TreeNode double)
      : Type 0 where
    pub ok : ChildOk game double g c
    pub move : c.move ≡ m
    pub position : t.position ≡ g
    pub table : t.table ≡ s.table

  child_ok :
      (g : Position) (m : Move) (c : TreeNode double)
      → c.move ≡ m
      → Playable game g m
      → c.hashkey ≡ get_tt_hash_key (play m g)
      → IsCorrect game (play m g) c.status
      → c.n_children ≡ 0
      → ChildOk game double g c
  child_ok g m c e may key right leaf = record {
    playable = subst (λ x. Playable game g x) (sym e) may;
    keyed = key ∙ ap (λ x. get_tt_hash_key (play x g)) (sym e);
    correct = subst (λ x. IsCorrect game (play x g) c.status) (sym e) right;
    leaf = leaf;
  }

  make_child-Made :
      (p pn dn : D) (m : Move) (s : Solver game double)
      → is_terminal s.position ≡ false
      → Playable game s.position m
      → IsTrueTable game double cfg.pns_mode s.table
      → (r : TreeNode double × Solver game double)
      → make_child game double cfg env root_color p pn dn m s ≡ some r
      → Made s.position m s r.1 r.0
  unfolding make_child get_tt_entry_index get_pndn_from_tt get_tt_entry reset
  make_child-Made p pn dn m s running may good r run =
      let (index, found, rest) =
        >>=-eq-some (get_tt_entry_index game double (get_tt_hash_key (play m s.position)) s.table) _
          run in
      elim (Option-cases index) [
        | inl e ↦
            let same = update_pndn-SameNode game double cfg _ [] pn dn in
            subst (λ x. Made s.position m s x.1 x.0) (some_inj (rw e at rest))
              (record {
                ok =
                    child_ok s.position m _ same.move may same.hashkey
                      (subst (λ x. IsCorrect game (play m s.position) x) (sym same.status) tt)
                      same.n_children;
                move = same.move;
                position = back;
                table = refl;
              })
        | inr (i, e) ↦
            let (taken, key) =
              lookup-hit (clean_entry game double) s.table _ i (found ∙ ap some e) in
            subst (λ x. Made s.position m s x.1 x.0) (some_inj (rw e at rest))
              (record {
                ok =
                    child_ok s.position m _ refl may refl
                      (good i taken (play m s.position) (sym key)).0 refl;
                move = refl;
                position = back;
                table = refl;
              })
      ]
    where
      back : game.undo (play m s.position) ≡ s.position
      back = game.undo-play s.position m running may.1 (all_moves-InTurn game s.position m may.0)

  -- The children made for a list of legal moves.
  record AllMade (s : Solver game double) (ms : List Move) (t : Solver game double)
      (cs : List (TreeNode double)) : Type 0 where
    each : (c : TreeNode double) → c ∈ cs → ChildOk game double s.position c
    covered : (m : Move) → m ∈ ms → (c : TreeNode double) × (c ∈ cs) × (c.move ≡ m)
    position : t.position ≡ s.position
    table : t.table ≡ s.table

  make_children-AllMade :
      (init : Move → D × D) (ms : List (Move × D)) (s : Solver game double)
      → is_terminal s.position ≡ false
      → ((m : Move) → m ∈ moves_of game double ms → Playable game s.position m)
      → IsTrueTable game double cfg.pns_mode s.table
      → (r : List (TreeNode double) × Solver game double)
      → make_children game double cfg env root_color init ms s ≡ some r
      → AllMade s (moves_of game double ms) r.1 r.0
  unfolding make_children
  make_children-AllMade init [] s running may good r run =
      subst (λ x. AllMade s [] x.1 x.0) (some_inj run)
        (record {
          each = λ c at. absurd at;
          covered = λ m at. absurd at;
          position = refl;
          table = refl;
        })
  make_children-AllMade init ((m, p) ∷ ms) s running may good r run =
      let (first, made, rest) = >>=-eq-some _ _ run in
      let (others, more, last) = >>=-eq-some _ _ rest in
      let one = make_child-Made p _ _ m s running (may m (inl refl)) good first made in
      let many =
        make_children-AllMade init ms first.1 (rw one.position running)
          (λ x at. subst (λ g. Playable game g x) (sym one.position) (may x (inr at)))
          (subst (λ t. IsTrueTable game double cfg.pns_mode t) (sym one.table) good) others more in
      subst (λ x. AllMade s (m ∷ moves_of game double ms) x.1 x.0) (some_inj last)
        (record {
          each = λ c. elim [
            | inl e ↦ subst (λ x. ChildOk game double s.position x) (sym e) one.ok
            | inr at ↦ subst (λ g. ChildOk game double g c) one.position (many.each c at)
          ];
          covered = λ x. elim [
            | inl e ↦ (first.0, inl refl, one.move ∙ sym e)
            | inr at ↦ let (c, in_rest, e) = many.covered x at in (c, inr in_rest, e)
          ];
          position = many.position ∙ one.position;
          table = many.table ∙ one.table;
        })

  -- What the solver relies on: the shuffle keeps the moves, and the network names the legal moves.
  pub record IsFaithful : Type 0 where
    pub shuffled : (n : ℕ) (ms : List Move) (m : Move) → (m ∈ env.shuffle n ms) ↔ (m ∈ ms)
    pub network :
        (g : Position)
        → is_terminal g ≡ false
        → AreMoves game double g (moves_of game double (env.get_probability g))

  legal_only-∈ :
      (g : Position) (ms : List Move) (m : Move)
      → (m ∈ legal_only game double cfg env root_color g ms) ↔ (m ∈ ms) × (is_legal_move g m ≡ true)
  unfolding legal_only
  legal_only-∈ g [] m = (λ h. absurd h, λ h. absurd h.0)
  legal_only-∈ g (x ∷ ms) m =
      let (there, back) = legal_only-∈ g ms m in
      elim (Bool-cases (is_legal_move g x)) [
        | inl legal ↦ rw legal (
          (λ at. elim at [
            | inl e ↦ (inl e, rw e legal)
            | inr rest ↦ let (in_ms, ok) = there rest in (inr in_ms, ok)
          ]),
          (λ h. elim h.0 [ inl e ↦ inl e | inr in_ms ↦ inr (back (in_ms, h.1)) ]),
        )
        | inr illegal ↦ rw illegal (
          (λ at. let (in_ms, ok) = there at in (inr in_ms, ok)),
          (λ h. elim h.0 [
            | inl e ↦ absurd (true≢false (sym h.1 ∙ ap (is_legal_move g) e ∙ illegal))
            | inr in_ms ↦ back (in_ms, h.1)
          ]),
        )
      ]

  moves_of-unweighted :
      (ms : List Move)
      → moves_of game double (map (unweighted game double cfg env root_color) ms) ≡ ms
  moves_of-unweighted [] = refl
  moves_of-unweighted (m ∷ ms) = ap (λ l. m ∷ l) (moves_of-unweighted ms)

  -- The legal moves of the player, as candidates.
  pub legal-AreMoves :
      (g : Position)
      → AreMoves game double g (
          moves_of game double (
            map
              (unweighted game double cfg env root_color)
              (legal_only game double cfg env root_color g (all_moves game g))))
  legal-AreMoves g = rw moves_of-unweighted (λ m. legal_only-∈ g (all_moves game g) m)

  -- An expansion of a node at a running position.
  pub record Expands (s : Solver game double) (node : TreeNode double)
      (ex : Expanded game double cfg env root_color) : Type 0 where
    pub children : ChildrenOk game double s.position ex.children
    pub candidates : Covers game double cfg.pns_mode s.position ex.candidates
    pub move : ex.node.move ≡ node.move
    pub hashkey : ex.node.hashkey ≡ node.hashkey
    pub status : ex.node.status ≡ node.status
    pub position : ex.solver.position ≡ s.position
    pub table : ex.solver.table ≡ s.table

  children_ok :
      (s : Solver game double) (ms : List Move) (t : Solver game double)
      (cs : List (TreeNode double))
      → AreMoves game double s.position ms
      → AllMade s ms t cs
      → ChildrenOk game double s.position cs
  children_ok s ms t cs same made = record {
    each = made.each;
    covered = λ m p. made.covered m ((same m).1 p);
  }

  vanilla-Covers :
      (mode : PnsMode) (g : Position) (cs : List (Move × D))
      → mode ≡ vanilla_pns
      → Covers game double mode g cs
  vanilla-Covers mode g cs e = rw e tt

  vanilla_moves-AreMoves :
      IsFaithful
      → (s : Solver game double)
      → AreMoves game double s.position (vanilla_moves game double cfg env root_color s)
  unfolding vanilla_moves
  vanilla_moves-AreMoves faithful s m =
      let (shown, hidden) = faithful.shuffled s.n_mid _ m in
      let (there, back) = legal_only-∈ s.position (all_moves game s.position) m in
      (λ at. there (shown at), λ p. hidden (back p))

  expand_vanilla_node-Expands :
      IsFaithful
      → (s : Solver game double) (node : TreeNode double)
        (ex : Expanded game double cfg env root_color)
      → cfg.pns_mode ≡ vanilla_pns
      → is_terminal s.position ≡ false
      → IsTrueTable game double cfg.pns_mode s.table
      → expand_vanilla_node game double cfg env root_color node s ≡ some ex
      → Expands s node ex
  unfolding expand_vanilla_node
  expand_vanilla_node-Expands faithful s node ex mode running good run =
      let (r, made, rest) =
        >>=-eq-some
          (make_children game double cfg env root_color (λ _. (double.one, double.one)) moves s) _
          run in
      let all =
        make_children-AllMade (λ _. (double.one, double.one)) moves s running (λ m. (same m).0) good
          r made in
      subst (λ x. Expands s node x) (some_inj rest)
        (record {
          children = children_ok s (moves_of game double moves) r.1 r.0 same all;
          candidates = vanilla-Covers cfg.pns_mode s.position [] mode;
          move = refl;
          hashkey = refl;
          status = refl;
          position = all.position;
          table = all.table;
        })
    where
      moves : List (Move × D)
      moves =
          map (unweighted game double cfg env root_color)
            (vanilla_moves game double cfg env root_color s)

      same : AreMoves game double s.position (moves_of game double moves)
      same = rw moves_of-unweighted (vanilla_moves-AreMoves faithful s)

  -- The modes with a network, in which the candidates are the moves.
  abbrev UsesNetwork : PnsMode → Type 0
  UsesNetwork mode =
      (g : Position) (cs : List (Move × D))
      → Covers game double mode g cs
        ↔ (is_terminal g ≡ false → AreMoves game double g (moves_of game double cs))

  cnn_outputs-Covers :
      IsFaithful
      → UsesNetwork cfg.pns_mode
      → (s : Solver game double) (node : TreeNode double) (index : Option ℕ)
      → node.hashkey ≡ get_tt_hash_key s.position
      → IsTrueTable game double cfg.pns_mode s.table
      → get_tt_entry_index game double node.hashkey s.table ≡ some index
      → Covers game double cfg.pns_mode s.position
          (cnn_outputs game double cfg env root_color
            (entry_of game double cfg env root_color index s.table)
            s.position
            node).candidates
  unfolding cnn_outputs entry_of get_tt_entry get_tt_entry_index
  cnn_outputs-Covers faithful uses s node none key good found =
      (uses s.position _).1 (faithful.network s.position)
  cnn_outputs-Covers faithful uses s node (some i) key good found =
      let (taken, same) = lookup-hit (clean_entry game double) s.table _ i found in
      (good i taken s.position (sym key ∙ sym same)).1

  expand_cnn_node-Expands :
      IsFaithful
      → UsesNetwork cfg.pns_mode
      → (s : Solver game double) (node : TreeNode double)
        (ex : Expanded game double cfg env root_color)
      → node.hashkey ≡ get_tt_hash_key s.position
      → is_terminal s.position ≡ false
      → IsTrueTable game double cfg.pns_mode s.table
      → expand_cnn_node game double cfg env root_color node s ≡ some ex
      → Expands s node ex
  unfolding expand_cnn_node
  expand_cnn_node-Expands faithful uses s node ex key running good run =
      let (index, found, next) =
        >>=-eq-some (get_tt_entry_index game double node.hashkey s.table) _ run in
      let out =
        cnn_outputs game double cfg env root_color
          (entry_of game double cfg env root_color index s.table) s.position node in
      let covers = cnn_outputs-Covers faithful uses s node index key good found in
      let same = (uses s.position out.candidates).0 covers running in
      let init =
        init_numbers game double cfg env root_color (length out.candidates) out.proof_value
          out.disproof_value in
      let (r, made, rest) =
        >>=-eq-some (make_children game double cfg env root_color init out.candidates s) _ next in
      let all = make_children-AllMade init out.candidates s running (λ m. (same m).0) good r made in
      subst (λ x. Expands s node x) (some_inj rest)
        (record {
          children = children_ok s (moves_of game double out.candidates) r.1 r.0 same all;
          candidates = covers;
          move = refl;
          hashkey = refl;
          status = refl;
          position = all.position;
          table = all.table;
        })

  policy-UsesNetwork : (mode : PnsMode) → mode ≡ policy_pns → UsesNetwork mode
  policy-UsesNetwork mode e g cs = rw e (λ x. x, λ x. x)

  focused-UsesNetwork : (mode : PnsMode) → mode ≡ focused_pns → UsesNetwork mode
  focused-UsesNetwork mode e g cs = rw e (λ x. x, λ x. x)

  mode-cases : (mode : PnsMode) → (mode ≡ vanilla_pns) ⊎ (mode ≡ policy_pns) ⊎ (mode ≡ focused_pns)
  mode-cases vanilla_pns = inl refl
  mode-cases policy_pns = inr (inl refl)
  mode-cases focused_pns = inr (inr refl)

  pub expand-Expands :
      IsFaithful
      → (s : Solver game double) (node : TreeNode double)
        (ex : Expanded game double cfg env root_color)
      → node.hashkey ≡ get_tt_hash_key s.position
      → is_terminal s.position ≡ false
      → IsTrueTable game double cfg.pns_mode s.table
      → expand game double cfg env root_color node s ≡ some ex
      → Expands s node ex
  unfolding expand
  expand-Expands faithful s node ex key running good run = elim (mode-cases cfg.pns_mode) [
    | inl e ↦ expand_vanilla_node-Expands faithful s node ex e running good (rw (e, expand) at run)
    | inr (inl e) ↦
        expand_cnn_node-Expands faithful (policy-UsesNetwork cfg.pns_mode e) s node ex key running
          good (rw (e, expand) at run)
    | inr (inr e) ↦
        expand_cnn_node-Expands faithful (focused-UsesNetwork cfg.pns_mode e) s node ex key running
          good (rw (e, expand) at run)
  ]
