-- ===== src/Tests.antt =====
-- Runs of the definitions, and the theorems at concrete inputs.
pub mod Game
pub mod Nn
pub mod Zmq
pub mod Server
pub mod Life
pub mod Simulator
pub mod Client
pub mod Database
