-- ===== src/Metrics.antt =====
-- src/idr/database: the metrics of bidders, in real time and past, and the store that combines them.
pub mod RealTime
pub mod MockRedis
pub mod Redis
pub mod Timescale
pub mod Sampling
pub mod Snapshot
pub mod Combination
pub mod Store
pub mod Clients
mod Tests
