-- ===== src/Verify.antt =====
-- Package agent/internal/verify: what every download of a signed artifact goes through.
pub mod Hex
pub mod Download
pub mod SingleFlight
pub mod Authenticode
