-- ===== src/Merkle.antt =====
-- The mathematics of an append-only Merkle tree that the contracts and the wallet share: the nodes
-- of one level, the next level above them, and the root of the perfect tree.
pub mod Levels
pub mod Root
pub mod Frontier
pub mod Climb
