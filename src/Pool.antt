-- ===== src/Pool.antt =====
-- The pool contract, contracts/pool/src.
pub mod Tree
pub mod State
pub mod Amounts
pub mod Contract
