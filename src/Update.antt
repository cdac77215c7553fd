-- ===== src/Update.antt =====
-- Package agent/internal/update: the agent's update of itself.
pub mod Policy
pub mod Manager
pub mod Swap
