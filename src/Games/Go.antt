-- ===== src/Games/Go.antt =====
-- Games/Go.h and Games/Go.cpp: the game of Go on a board of 9 by 9, with its blocks of stones,
-- super-ko, closed areas and Benson's test of life. The attributes of a grid that its constructor
-- computes and nothing changes (the position, the neighbours, the eye corners) are functions of it.
pub mod Area
pub mod Block
pub mod Grid
pub mod State
pub mod Play
pub mod Legal
pub mod Benson
pub mod End
