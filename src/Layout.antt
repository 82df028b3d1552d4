-- ===== src/Layout.antt =====
-- src/layout.rs: layouts.
pub mod Request
pub mod Pending
pub mod Tree
pub mod Received
pub mod Placing
