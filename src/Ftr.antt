-- ===== src/Ftr.antt =====
-- workers/src/marketmind_workers/ftr, the research pipeline and its paper trader.
pub mod Splits
pub mod Floats
pub mod Guards
pub mod Broker
pub mod Gates
mod Exact
