-- ===== src/Server.antt =====
-- `SnakeServer::run` of src/snake_server/SnakeServer.cpp: stamping, logging, the handlers that send,
-- and the body of the loop. `client_ids` are those that `NetworkServer` has a connection for, and
-- `sent` is what was handed to it, newest first.
pub mod State
pub mod Handle
pub mod Poll
pub mod Start
pub mod Size
pub mod Served
pub mod Stamps
pub mod Records
pub mod Replay
pub mod Total
mod Tests
