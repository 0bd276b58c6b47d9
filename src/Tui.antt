-- ===== src/Tui.antt =====
-- internal/tui: the state machines of two overlays and of the login screen of the terminal interface.
pub mod Seed
pub mod SwapOverlay
pub mod Login
