-- ===== src/Bidders.antt =====
-- src/idr/bidders: the registry of custom bidders.
pub mod Code
pub mod Model
pub mod Redis
pub mod Storage
pub mod Publishers
pub mod Fresh
pub mod Url
pub mod Manager
pub mod Indexed
pub mod Registry
pub mod Active
pub mod Create
mod Tests
