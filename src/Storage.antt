-- ===== src/Storage.antt =====
-- src/storage: the cache with expiry, and the registry of tunnels over it.
pub mod Cache
pub mod CacheLaws
pub mod Registry
pub mod RegistryExpiry
pub mod Examples
