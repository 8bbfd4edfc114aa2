-- ===== src/Solver.antt =====
-- The search programs of MiniZero: the depth and size solvers, df-pn, the tree search and its solver.
pub mod Game
pub mod Double
pub mod TreeNode
pub mod Depth
pub mod Dfpn
pub mod Size
pub mod TranspositionTable
pub mod StatisticData
pub mod Mcts
pub mod BaseMcts
