-- ===== src/TxPlanner.antt =====
-- app/crates/core/tx-planner/src/plan: the choice of notes to spend, and the plan of transactions.
pub mod Selection
pub mod Combination
pub mod Plan
pub mod Session
