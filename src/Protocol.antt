-- ===== src/Protocol.antt =====
-- include/common/Protocol.h, the wire format of client, server and message log: the structs
-- (Types), the raw reads and writes (Bytes), `serialise` (Write), `deserialise` (Read), and what
-- they promise together.
pub mod Bytes
pub mod Types
pub mod Write
pub mod Valid
pub mod Layout
pub mod Size
pub mod Reads
pub mod RoundTrip
pub mod Kinds
pub mod Read
mod Tests
