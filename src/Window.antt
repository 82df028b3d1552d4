-- ===== src/Window.antt =====
-- Windows (src/window): layout modes.
pub mod LayoutMode
pub mod State
pub mod Queries
pub mod Configure
pub mod Rules
pub mod Api
