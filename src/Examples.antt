-- ===== src/Examples.antt =====
-- Tests, and the theorems at concrete inputs.
mod Hosts
mod PoolRuns
mod ClientMerkleRuns
mod AspRuns
mod AmountRuns
mod NonMembershipRuns
mod PlannerRuns
mod SessionRuns
mod RegistryRuns
mod VerifierRuns
