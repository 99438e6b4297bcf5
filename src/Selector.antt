-- ===== src/Selector.antt =====
-- src/idr/selector/partner_selector.py: which bidders take part in an auction.
pub mod Categories
pub mod Config
pub mod Steps
pub mod Select
pub mod Adds
mod Growth
mod Explore
pub mod Rank
mod Privacy
pub mod Normal
pub mod Partition
pub mod Bounds
pub mod Greedy
pub mod Diversity
pub mod Safety
pub mod Anchors
mod Tests
