-- ===== src/Trader.antt =====
-- The paper trader: its tables, the risk manager, the executor and the portfolio snapshots.
pub mod Schema
pub mod Tables
mod Scenario
pub mod Risk
pub mod Execution
pub mod Portfolio
pub mod Jobs
pub mod Ingestion
pub mod Runs
pub mod Alerts
pub mod Signals
