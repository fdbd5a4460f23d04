-- ===== src/Models.antt =====
-- src/models: the data that the server keeps.
pub mod Tunnel
pub mod TunnelId
pub mod Examples
