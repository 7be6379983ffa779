-- ===== src/Starling.antt =====
-- common/concurrency-starling.
pub mod Sequencers
pub mod Pool
