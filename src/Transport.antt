-- ===== src/Transport.antt =====
-- Package agent/internal/transport: the connection to the server.
pub mod Backoff
pub mod Client
pub mod Messages
pub mod Connection
pub mod Dialing
