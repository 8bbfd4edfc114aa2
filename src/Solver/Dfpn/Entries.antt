-- ===== src/Solver/Dfpn/Entries.antt =====
-- MiniZero/DFPNSolver.h and .cpp: the entries of the transposition table, the state of the search,
-- the evaluation of a node, and the test of its budget.
use proof_cost_network.Base.{ℕ, ◌+◌, Bool, false, if◌then◌else◌, leb}
use proof_cost_network.Base.{List, [], Option, none, set}
use proof_cost_network.Board.Color.{Color, eqb, against_color}
use proof_cost_network.Board.Move.{Move}
use proof_cost_network.Storage.OpenAddress
use proof_cost_network.Storage.OpenAddress.{Table, entry_at}
use proof_cost_network.Solver.Game.{Game}
use proof_cost_network.Solver.Double.{Double}
use proof_cost_network.Solver.TreeNode.{
  TreeNode, SolutionStatus, solution_unknown, solution_win, solution_loss,
}
use proof_cost_network.Solver.Dfpn.Numbers.{Configure}
use proof_cost_network.Solver.Dfpn.Numbers.{SimControl, sim_control_tt_node, sim_control_time}

module _ (game : Game) (double : Double) where
  open game use {
    Position, get_turn_color, is_terminal, eval, is_legal_move, play, undo, get_tt_hash_key,
  }
  open double use {D}

  -- What the solver takes from outside: the shuffled order of moves at each node, the network, and
  -- the readings of the clock.
  pub record Environment : Type 0 where
    pub shuffle : ℕ → List Move → List Move
    pub get_probability : Position → List (Move × D)
    pub get_value : Position → D
    pub get_color_value : Position → Color → D
    pub elapsed_time : ℕ → D

  pub record DfpnTtEntry : Type 0 where
    pub proof_value : D
    pub disproof_value : D
    pub proof_number : D
    pub disproof_number : D
    pub status : SolutionStatus
    pub candidates : List (Move × D)

  -- `DFPNTTEntry()`, which is also what `clear` leaves.
  abbrev pub clean_entry : DfpnTtEntry
  clean_entry = record {
    proof_value = double.zero;
    disproof_value = double.zero;
    proof_number = double.neg double.one;
    disproof_number = double.neg double.one;
    status = solution_unknown;
    candidates = [];
  }

  abbrev pub TtTable : Type 0
  TtTable = Table DfpnTtEntry

  -- The members of the solver that the search changes, and the number of readings of the clock.
  pub record Solver : Type 0 where
    pub position : Position
    pub table : TtTable
    pub n_mid : ℕ
    pub readings : ℕ

  unfoldable pub store_tt_entry : ℕ → DfpnTtEntry → TtTable → Option TtTable
  store_tt_entry key entry table =
      if OpenAddress.is_full table then none else OpenAddress.store clean_entry key entry table

  unfoldable pub get_tt_entry : ℕ → TtTable → DfpnTtEntry
  get_tt_entry index table = (entry_at clean_entry table index).content

  -- The update of an entry through its reference.
  unfoldable pub set_tt_entry : ℕ → DfpnTtEntry → TtTable → TtTable
  set_tt_entry index entry table = record table {
    entries =
        set table.entries index (record (entry_at clean_entry table index) { content = entry });
  }

  unfoldable pub get_tt_entry_index : ℕ → TtTable → Option (Option ℕ)
  get_tt_entry_index key table = OpenAddress.lookup clean_entry key table

  -- `getPNDNfromTT` at the index that was found.
  unfoldable pub get_pndn_from_tt : ℕ → TtTable → TreeNode double → TreeNode double
  unfolding get_tt_entry
  get_pndn_from_tt index table node =
      let entry = get_tt_entry index table in
      record node {
        status = entry.status;
        proof_number = entry.proof_number;
        disproof_number = entry.disproof_number;
      }

  unfoldable pub evaluate : Position → TreeNode double → TreeNode double
  evaluate g node =
      if is_terminal g
      then record node {
        status = if eqb node.move.color (eval g) then solution_win else solution_loss;
      }
      else node

  module _ (cfg : Configure double) (env : Environment) (root_color : Color) where
    abbrev pub proof_color : Color
    proof_color =
        if eqb cfg.aot_proof_color Color.none then against_color root_color else cfg.aot_proof_color

    unfoldable pub set_terminal_value : Position → TreeNode double → TreeNode double
    set_terminal_value g node =
        let winner = eval g in
        record node {
          value =
              if cfg.net_value_space_complexity
              then if eqb winner proof_color then double.zero else cfg.net_num_output_v
              else if eqb winner Color.none
              then double.zero
              else if eqb winner node.move.color
              then double.one
              else double.neg double.one;
        }

    unfoldable pub is_expansion_end : Solver → Bool × Solver
    is_expansion_end s = by_control cfg.sim_control
      where
        by_control : SimControl → Bool × Solver
        by_control sim_control_tt_node = (leb cfg.pns_num_expansion s.table.count, s)
        by_control sim_control_time = (
          double.geb (env.elapsed_time s.readings) cfg.time_limit,
          record s { readings = s.readings + 1 },
        )
        by_control _ = (false, s)
