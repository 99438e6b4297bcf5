-- ===== src/Resolver.antt =====
-- src/idr/config/config_resolver.py and feature_config.py: settings of ad units, sites, publishers.
pub mod Settings
pub mod Resolve
pub mod Precedence
pub mod Resolved
pub mod Cache
pub mod Coherent
pub mod Refinement
pub mod Store
pub mod Prefixes
pub mod Saved
mod Tests
