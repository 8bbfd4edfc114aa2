-- ===== src/Solver/Dfpn/Mid.antt =====
-- MiniZero/DFPNSolver.cpp: the search itself, `MID`.
use proof_cost_network.Base.{ℕ, zero, suc, ◌+◌, ◌-◌, ◌^◌, Bool, true, false, ◌||◌, if◌then◌else◌}
use proof_cost_network.Base.{List, [], Option, none, some, ◌>>=◌, set, get_or}
use proof_cost_network.Board.Color.{Color, against_color}
use proof_cost_network.Board.Move.{Move}
use proof_cost_network.Storage.OpenAddress
use proof_cost_network.Storage.OpenAddress.{Table, entry_at}
use proof_cost_network.Solver.Game.{Game}
use proof_cost_network.Solver.Double.{Double}
use proof_cost_network.Solver.TreeNode.{TreeNode, reset, is_win}
use proof_cost_network.Solver.Dfpn.Numbers.{Configure}
use proof_cost_network.Solver.Dfpn.Numbers.{
  update_solution_status, update_pndn, Selected, select_best_child,
}
use proof_cost_network.Solver.Dfpn.Entries.{
  Environment, DfpnTtEntry, clean_entry, TtTable, Solver, store_tt_entry, get_tt_entry,
  set_tt_entry, get_tt_entry_index, evaluate, set_terminal_value, is_expansion_end,
}
use proof_cost_network.Solver.Dfpn.Expand.{expand}

module _ (game : Game) (double : Double) where
  open game use {
    Position, get_turn_color, is_terminal, eval, is_legal_move, play, undo, get_tt_hash_key,
  }
  open double use {D}

  module _ (cfg : Configure double) (env : Environment game double) (root_color : Color) where
    -- The entry that a node leaves in the table on its first visit, and the update of a later one.
    abbrev pub entry_for : TreeNode double → D → D → List (Move × D) → DfpnTtEntry game double
    entry_for node proof_value disproof_value candidates = record {
      proof_value = proof_value;
      disproof_value = disproof_value;
      proof_number = node.proof_number;
      disproof_number = node.disproof_number;
      status = node.status;
      candidates = candidates;
    }

    unfoldable pub save :
        TreeNode double
        → D
        → D
        → List (Move × D)
        → TtTable game double
        → Option (TtTable game double)
    unfolding get_tt_entry_index store_tt_entry get_tt_entry set_tt_entry
    save node proof_value disproof_value candidates table =
        get_tt_entry_index game double node.hashkey table >>= λ index. elim index [
          | none ↦
              store_tt_entry game double node.hashkey
                (entry_for node proof_value disproof_value candidates) table
          | some i ↦
              let old = get_tt_entry game double i table in
              some (
                set_tt_entry game double i
                  (record old {
                    proof_number = node.proof_number;
                    disproof_number = node.disproof_number;
                    status = node.status;
                  })
                  table)
        ]

    -- The thresholds of the chosen child.
    abbrev pub next_dn_threshold : D → Selected double → D
    next_dn_threshold pn_threshold best = double.fmin pn_threshold (
        if cfg.pns_enable_1_plus_epsilon
        then double.ceil
            (double.mul best.second_min_dn (double.add double.one cfg.pns_epsilon_value))
        else double.add best.second_min_dn double.one)

    abbrev pub next_pn_threshold : D → TreeNode double → Selected double → D
    next_pn_threshold dn_threshold node best =
        if double.eqb dn_threshold double.dbl_max
        then dn_threshold
        else double.add (double.sub dn_threshold node.disproof_number) best.pn_of_min_dn_child

    -- The exit test of the loop, which reads the clock only if the numbers do not decide.
    unfoldable pub stops : TreeNode double → D → D → Solver game double → Bool × Solver game double
    unfolding is_expansion_end
    stops node pn_threshold dn_threshold s =
        if double.geb node.proof_number pn_threshold || double.geb node.disproof_number dn_threshold
        then (true, s)
        else is_expansion_end game double cfg env root_color s

    -- `updateSolutionStatus` and `updatePNDN`, as they stand together at both places.
    unfoldable pub update_node : TreeNode double → List (TreeNode double) → TreeNode double
    update_node node children =
        update_pndn double cfg (update_solution_status double node children) children double.one
          double.one

    -- The end of the game: its value, status and numbers go to the table, and the move is taken back.
    unfoldable pub end_node :
        TreeNode double → Solver game double → Option (TreeNode double × Solver game double)
    unfolding update_node
    end_node node s =
        let ended =
          update_node (set_terminal_value game double cfg env root_color s.position node) [] in
        store_tt_entry game double ended.hashkey (entry_for ended double.zero double.zero [])
          s.table
        >>= λ table. some (ended, record s { table = table; position = undo s.position })

    -- The exit of the loop.
    unfoldable pub leave_node :
        TreeNode double
        → D
        → D
        → List (Move × D)
        → Solver game double
        → Option (TreeNode double × Solver game double)
    unfolding save
    leave_node node proof_value disproof_value candidates s =
        save node proof_value disproof_value candidates s.table >>= λ table.
        some
          (record node { n_children = 0 }, record s { table = table; position = undo s.position })

    -- `MID` and its loop. Each call and each round takes one unit of fuel.
    unfoldable mutual
      pub mid :
          ℕ
          → TreeNode double
          → D
          → D
          → Solver game double
          → Option (TreeNode double × Solver game double)
      mid zero node pn_threshold dn_threshold s = none
      mid (suc fuel) node pn_threshold dn_threshold s =
          let counted = record s { n_mid = s.n_mid + 1 } in
          let evaluated = evaluate game double s.position node in
          elim (is_terminal s.position) [
            | true ↦ end_node evaluated counted
            | false ↦ expand game double cfg env root_color evaluated counted >>= λ ex.
                mid_loop fuel ex.node ex.children ex.candidates ex.proof_value ex.disproof_value
                  pn_threshold dn_threshold ex.solver
          ]

      pub mid_loop :
          ℕ
          → TreeNode double
          → List (TreeNode double)
          → List (Move × D)
          → D
          → D
          → D
          → D
          → Solver game double
          → Option (TreeNode double × Solver game double)
      mid_loop zero node children candidates proof_value disproof_value pn_threshold dn_threshold
            s =
          none
      mid_loop (suc fuel) node children candidates proof_value disproof_value pn_threshold
            dn_threshold s =
          let updated = update_node node children in
          let stop = stops updated pn_threshold dn_threshold s in
          elim stop.0 [
            | true ↦ leave_node updated proof_value disproof_value candidates stop.1
            | false ↦
                let best = select_best_child double cfg updated children in
                best.best >>= λ i.
                let child = get_or children i (reset double updated.move) in
                elim (is_win child.status) [
                  | true ↦
                      mid_loop fuel updated children candidates proof_value disproof_value
                        pn_threshold dn_threshold stop.1
                  | false ↦
                      mid fuel child (next_pn_threshold dn_threshold updated best)
                        (next_dn_threshold pn_threshold best)
                        (record stop.1 { position = play child.move stop.1.position })
                      >>= λ r.
                          mid_loop fuel updated (set children i r.0) candidates proof_value
                            disproof_value pn_threshold dn_threshold r.1
                ]
          ]

    -- `newTree` on the root: the root stands for a move of the opponent at -1, here as unsigned.
    unfoldable pub new_root : Position → TreeNode double
    new_root g =
        let before : Move = record {
          color = against_color (get_turn_color g);
          position = 2 ^ 32 - 1;
        } in
        record (reset double before) { hashkey = get_tt_hash_key g }

    -- The table is cleared, the search takes back the last move, and it is played again.
    unfoldable pub solve :
        ℕ → Move → Solver game double → Option (TreeNode double × Solver game double)
    unfolding new_root
    solve fuel last_move s =
        let cleared = record s {
          n_mid = 0;
          table = OpenAddress.clear (clean_entry game double) s.table;
        } in
        mid fuel (new_root s.position) double.dbl_max double.dbl_max cleared >>= λ r.
        some (r.0, record r.1 { position = play last_move r.1.position })
