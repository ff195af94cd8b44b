-- ===== src/Trader/Risk.antt =====
-- workers/src/marketmind_workers/trader/risk.py, the gatekeeper between signals and orders.
pub mod Checks
pub mod Gate
pub mod Outcome
pub mod Sizing
pub mod State
pub mod Cycle
pub mod Turn
pub mod Progress
pub mod Drained
mod Tests
