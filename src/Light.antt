-- ===== src/Light.antt =====
-- Command agent/cmd/lightagent: the commands that the light agent handles, and its own lifecycle.
pub mod Handlers
pub mod Urls
pub mod Startup
pub mod Tray
pub mod Prompt
pub mod Command
pub mod Wiring
pub mod Inventory
