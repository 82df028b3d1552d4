-- ===== src/Client.antt =====
-- api/rust: what the Rust client library computes for a config.
pub mod Node
pub mod Sent
pub mod Generators
pub mod Cycle
