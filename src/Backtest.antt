-- ===== src/Backtest.antt =====
-- workers/src/marketmind_workers/backtest: the sequential simulator of the stateful strategies and its
-- sibling for the live trader.
pub mod Floats
pub mod History
pub mod Schema
pub mod Levels
pub mod Sizing
pub mod Positions
pub mod Shadow
pub mod Phantom
pub mod Iterative
pub mod Conditions
pub mod Evaluators
pub mod Compile
pub mod Live
mod Exact
mod Tests
