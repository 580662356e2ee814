-- ===== src/Client.antt =====
-- The programs that play: what they keep of a broadcast, and their network side.
pub mod GameState
pub mod Network
pub mod Shown
pub mod Guided
pub mod Play
pub mod Screen
pub mod Display
pub mod Latest
pub mod Meadow
mod Tests
