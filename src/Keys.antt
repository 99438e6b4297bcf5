-- ===== src/Keys.antt =====
-- src/idr/auth/api_keys.py: the keys by which publishers are known.
pub mod Hash
pub mod Manager
pub mod Consistent
pub mod Manage
pub mod Lifecycle
mod Tests
