-- ===== src/Solver/Dfpn.antt =====
-- MiniZero/DFPNSolver: depth-first proof-number search with a transposition table.
pub mod Numbers
pub mod Entries
pub mod Expand
pub mod Mid
pub mod Semantics
pub mod Truth
pub mod Children
pub mod Expansion
pub mod Sound
pub mod Solve
