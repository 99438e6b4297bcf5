-- ===== src/Scorer.antt =====
-- src/idr/scorer: the scores of the bidders for a classified request.
pub mod Preferences
pub mod LookupKey
pub mod Metrics
pub mod Components
pub mod Score
pub mod Fallback
mod Tests
