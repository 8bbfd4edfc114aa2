-- ===== src/Solver/Dfpn/Solve.antt =====
-- MiniZero/DFPNSolver.cpp: `solve`, from a cleared table.
use proof_cost_network.Board.Color.{Color}
use proof_cost_network.Board.Move.{Move}
use proof_cost_network.Storage.OpenAddress
use proof_cost_network.Storage.OpenAddress.{Entry, Table, entry_at, out_of_range}
use proof_cost_network.Solver.Game.{Game}
use proof_cost_network.Solver.Double.{Double}
use proof_cost_network.Solver.TreeNode.{TreeNode}
use proof_cost_network.Solver.Dfpn.Entries.{Solver}
