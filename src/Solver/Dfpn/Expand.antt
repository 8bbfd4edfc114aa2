-- ===== src/Solver/Dfpn/Expand.antt =====
-- MiniZero/DFPNSolver.cpp: the expansion of a node, with and without the network.
use proof_cost_network.Base.{ℕ, not, if◌then◌else◌}
use proof_cost_network.Base.{List, [], ◌∷◌, Option, none, some, ◌>>=◌, length, map}
use proof_cost_network.Board.Color.{Color, eqb, against_color}
use proof_cost_network.Board.Move.{Move}
use proof_cost_network.Solver.Game.{Game, all_moves}
use proof_cost_network.Solver.Double.{Double}
use proof_cost_network.Solver.TreeNode.{TreeNode, reset}
use proof_cost_network.Solver.Dfpn.Numbers.{Configure, PnsMode, vanilla_pns}
use proof_cost_network.Solver.Dfpn.Numbers.{update_pndn}
use proof_cost_network.Solver.Dfpn.Entries.{
  Environment, DfpnTtEntry, TtTable, Solver, get_tt_entry, get_tt_entry_index, get_pndn_from_tt,
  proof_color,
}

module _ (game : Game) (double : Double) where
  open game use {
    Position, get_turn_color, is_terminal, eval, is_legal_move, play, undo, get_tt_hash_key,
  }
  open double use {D}

  module _ (cfg : Configure double) (env : Environment game double) (root_color : Color) where
    -- The legal ones of the player's moves, and their children's keys after play and undo.
    unfoldable pub legal_only : Position → List Move → List Move
    legal_only g [] = []
    legal_only g (m ∷ ms) = if is_legal_move g m then m ∷ legal_only g ms else legal_only g ms

    -- One round of the loop that makes the children: reset, key, and the numbers from the table or
    -- of a new leaf. The game is played and taken back.
    unfoldable pub make_child :
        D → D → D → Move → Solver game double → Option (TreeNode double × Solver game double)
    make_child probability init_pn init_dn m s =
        let fresh : TreeNode double = record (reset double m) { probability = probability } in
        let played = play m s.position in
        let child = record fresh { hashkey = get_tt_hash_key played } in
        let s' = record s { position = undo played } in
        get_tt_entry_index game double child.hashkey s.table >>= λ index. elim index [
          | some i ↦ some (get_pndn_from_tt game double i s.table child, s')
          | none ↦ some (update_pndn double cfg child [] init_pn init_dn, s')
        ]

    -- The initial numbers of a leaf, in the space-complexity mode by the colour of its move; for
    -- another colour the reset values stay.
    unfoldable pub init_numbers : ℕ → D → D → Move → D × D
    init_numbers n proof_value disproof_value m =
        if not cfg.net_value_space_complexity
        then (double.one, double.one)
        else if eqb m.color (proof_color game double cfg env root_color)
        then (double.div disproof_value (double.of_nat n), proof_value)
        else if eqb m.color (against_color (proof_color game double cfg env root_color))
        then (double.div proof_value (double.of_nat n), disproof_value)
        else (double.zero, double.zero)

    unfoldable pub make_children :
        (Move → D × D)
        → List (Move × D)
        → Solver game double
        → Option (List (TreeNode double) × Solver game double)
    make_children init [] s = some ([], s)
    make_children init ((m, p) ∷ ms) s = make_child p (init m).0 (init m).1 m s >>= λ r.
        make_children init ms r.1 >>= λ rest. some (r.0 ∷ rest.0, rest.1)

    -- What the expansion of a node gives.
    pub record Expanded : Type 0 where
      pub node : TreeNode double
      pub children : List (TreeNode double)
      pub candidates : List (Move × D)
      pub proof_value : D
      pub disproof_value : D
      pub solver : Solver game double

    abbrev pub unweighted : Move → Move × D
    unweighted m = (m, double.zero)

    unfoldable pub vanilla_moves : Solver game double → List Move
    unfolding legal_only
    vanilla_moves s = env.shuffle s.n_mid (legal_only s.position (all_moves game s.position))

    -- A vanilla child has no probability, and the search stores no candidates.
    unfoldable pub expand_vanilla_node : TreeNode double → Solver game double → Option Expanded
    unfolding vanilla_moves make_children make_child
    expand_vanilla_node node s =
        let moves = map unweighted (vanilla_moves s) in
        make_children (λ _. (double.one, double.one)) moves s >>= λ r. some (record {
          node = record node { n_children = length moves };
          children = r.0;
          candidates = [];
          proof_value = double.zero;
          disproof_value = double.zero;
          solver = r.1;
        })

    -- What `expandCNNNode` reads: from the entry of the table, or from the network. The second value
    -- of the win-loss mode is the value that the node gets.
    pub record Outputs : Type 0 where
      pub candidates : List (Move × D)
      pub proof_value : D
      pub disproof_value : D
      pub node_value : D

    unfoldable pub cnn_outputs :
        Option (DfpnTtEntry game double) → Position → TreeNode double → Outputs
    cnn_outputs (some entry) g node = record {
      candidates = entry.candidates;
      proof_value = if cfg.net_value_space_complexity then entry.proof_value else double.zero;
      disproof_value = if cfg.net_value_space_complexity then entry.disproof_value else double.zero;
      node_value = if cfg.net_value_space_complexity then node.value else entry.proof_value;
    }
    cnn_outputs none g node = record {
      candidates = env.get_probability g;
      proof_value =
          if cfg.net_value_space_complexity
          then env.get_color_value g (proof_color game double cfg env root_color)
          else env.get_value g;
      disproof_value =
          if cfg.net_value_space_complexity
          then env.get_color_value g (against_color (proof_color game double cfg env root_color))
          else double.zero;
      node_value =
          if cfg.net_value_space_complexity
          then node.value
          else double.mul (double.neg double.one) (env.get_value g);
    }

    unfoldable pub entry_of : Option ℕ → TtTable game double → Option (DfpnTtEntry game double)
    unfolding get_tt_entry
    entry_of none table = none
    entry_of (some i) table = some (get_tt_entry game double i table)

    unfoldable pub expand_cnn_node : TreeNode double → Solver game double → Option Expanded
    unfolding cnn_outputs entry_of init_numbers make_children make_child
    expand_cnn_node node s = get_tt_entry_index game double node.hashkey s.table >>= λ index.
        let out = cnn_outputs (entry_of index s.table) s.position node in
        let n = length out.candidates in
        make_children (init_numbers n out.proof_value out.disproof_value) out.candidates s >>= λ r.
        some (record {
          node = record node { n_children = n; value = out.node_value };
          children = r.0;
          candidates = out.candidates;
          proof_value = out.proof_value;
          disproof_value = out.disproof_value;
          solver = r.1;
        })

    unfoldable pub expand : TreeNode double → Solver game double → Option Expanded
    unfolding expand_vanilla_node expand_cnn_node
    expand node s = by_mode cfg.pns_mode
      where
        by_mode : PnsMode → Option Expanded
        by_mode vanilla_pns = expand_vanilla_node node s
        by_mode _ = expand_cnn_node node s
