-- ===== src/Board.antt =====
-- The values that every part of the program uses: colours, moves, points and sets of points.
pub mod Color
pub mod Move
pub mod Point
pub mod Bitboard
