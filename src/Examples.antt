-- ===== src/Examples.antt =====
-- Concrete inputs for the theorems: a game of seven positions, small tables, and boards.
pub mod Toy
pub mod DfpnRun
pub mod Tables
pub mod DepthRun
pub mod SizeRun
pub mod GameRuns
pub mod Boards
pub mod MctsRun
pub mod GoRuns
pub mod Capture
pub mod Cells
pub mod SearchRun
