-- ===== src/Events.antt =====
-- src/idr/database/event_pipeline.py: events, the pipeline with its threads, and the one without.
pub mod Model
pub mod Keywords
pub mod Process
pub mod Pipeline
pub mod Account
pub mod Untouched
pub mod Queue
pub mod Sync
mod Tests
