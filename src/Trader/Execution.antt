-- ===== src/Trader/Execution.antt =====
-- workers/src/marketmind_workers/trader/execution.py, the paper execution engine.
pub mod Fills
pub mod Cycle
pub mod Writes
pub mod Advances
pub mod Accounts
pub mod Conflict
mod Tests
