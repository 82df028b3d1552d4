-- ===== src/Input.antt =====
-- src/input/bind.rs: key and mouse binds.
pub mod Bind
pub mod Layers
pub mod Keybinds
pub mod Mousebinds
