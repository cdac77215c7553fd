-- ===== src/Runtime.antt =====
-- Package agent/internal/runtime: the state that command handlers share, and their dispatch.
pub mod Link
pub mod Dispatch
