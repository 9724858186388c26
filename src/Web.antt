-- ===== src/Web.antt =====
-- The configuration of the gateway and the HTTP dashboard that changes it:
-- gateway-board/src/config.rs and gateway-board/src/net/http.
pub mod Config
pub mod Stored
pub mod Flash
pub mod Reload
pub mod Dashboard
pub mod Gate
pub mod Http
pub mod Server
pub mod Client
pub mod Pages
pub mod Api
