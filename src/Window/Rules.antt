-- ===== src/Window/Rules.antt =====
-- src/window/rules.rs: window rules. Each client that has rules is sent a request for a new window
-- and answers by raising its counter; the window's initial configure waits for all of them.
pub mod Requests
pub mod Apply
pub mod Finished
