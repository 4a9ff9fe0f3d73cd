-- ===== src/Game.antt =====
-- src/TetrisGame/Game.h and Game.cpp: the game that one connection plays.
pub mod Blocks
pub mod Board
pub mod Draw
pub mod Moves
pub mod Lines
pub mod Drop
pub mod Start
pub mod Play
