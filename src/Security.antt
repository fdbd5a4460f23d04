-- ===== src/Security.antt =====
-- src/security: who may connect. The address allowlist is in Allowlist.
pub mod Tokens
pub mod TokenText
pub mod Acceptance
pub mod Rotation
pub mod Examples
