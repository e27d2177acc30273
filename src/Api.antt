-- ===== src/Api.antt =====
-- The API server, src/esphome_api.c.
mod Tests
pub mod Receive
pub mod Server
pub mod Send
pub mod Handlers
pub mod Connections
