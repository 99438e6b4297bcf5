-- ===== src/Privacy.antt =====
-- The package src/idr/privacy: consent signals, and the filter of bidders by them.
pub mod Tcf
pub mod UsPrivacy
pub mod Gpp
pub mod Signals
pub mod Bidders
pub mod Filter
pub mod Jurisdiction
mod Tests
