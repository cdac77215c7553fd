-- ===== src/Tests.antt =====
-- The properties at concrete inputs.
mod Downloads
mod Updates
mod Clients
mod Files
mod Sessions
mod Commands
mod Engine
mod Installs
mod Swaps
mod Connections
mod Services
mod Payloads
mod Icons
mod Screens
mod Installing
