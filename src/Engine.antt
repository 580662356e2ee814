-- ===== src/Engine.antt =====
-- The simulation in src/snake_server/SnakeServer.cpp: the state that the game rules read and write
-- (State), and the functions on it.
pub mod State
pub mod Move
pub mod Collide
pub mod Food
pub mod Input
pub mod Arena
pub mod Update
pub mod Order
pub mod Standing
pub mod Verdict
pub mod Rules
pub mod Chain
pub mod Chosen
pub mod Destroyed
pub mod Collisions
pub mod Counts
pub mod Tick
pub mod Reach
pub mod Refill
mod Tests
