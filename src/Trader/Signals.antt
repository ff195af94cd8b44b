-- ===== src/Trader/Signals.antt =====
-- workers/src/marketmind_workers/trader/signal_engine.py: one pass over the strategy versions.
pub mod Store
pub mod Pair
pub mod Cycle
pub mod Counted
pub mod Summary
pub mod Contained
pub mod States
pub mod Repeated
mod Tests
