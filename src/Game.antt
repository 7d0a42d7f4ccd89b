-- ===== src/Game.antt =====
-- snakelab/game: the rules of Snake on immutable states, and the environment of one simulation.
pub mod Position
pub mod Direction
pub mod State
pub mod Moves
pub mod Rules
pub mod Environment
pub mod Snapshot
