-- ===== src/Focus.antt =====
-- src/focus.rs: who has the focus.
pub mod Topmost
pub mod Stack
pub mod Windows
pub mod Outputs
pub mod ZOrder
