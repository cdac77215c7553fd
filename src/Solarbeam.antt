-- ===== src/Solarbeam.antt =====
-- Package agent/internal/solarbeam: the engine and the bridge of a session.
pub mod Manager
pub mod Interactive
pub mod Archive
pub mod Service
pub mod Managed
