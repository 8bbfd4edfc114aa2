-- ===== src/Games.antt =====
-- Games: the games of the repository.
pub mod Gomoku
pub mod TieTacToe
pub mod Go
