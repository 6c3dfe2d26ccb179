-- ===== src/Merkle/Climb.antt =====
-- The loop of `insert_two_leaves` (contracts/pool/src/merkle_with_history.rs) and of `insert_leaf`
-- (contracts/asp-membership/src/lib.rs), which is the same text over two contracts' stores. Each
-- round reads or writes one `FilledSubtree` and hashes with it or with the level's zero hash.
pub mod Correct
use stellar_private_payments.Prelude.{
  ◌>>=◌, ℕ, zero, suc, ◌+◌, ◌/◌, ◌%◌, some, ◌==◌, if◌then◌else◌, update, Outcome, ok, ok_or,
}
use stellar_private_payments.Merkle.Frontier.{Levels}
use stellar_private_payments.Poseidon.{Host, poseidon2_compress}

module _ {E : Type 0} (host : Host) (not_initialized : E) (zeroes : Levels) where
  -- One round: the hash of the parent, and the stored subtrees.
  pub level_step : ℕ → ℕ → ℕ → Levels → Outcome E (ℕ × Levels)
  level_step lvl index hash filled =
      if index % 2 == 1
      then (do
        left ← ok_or (filled lvl) not_initialized
        parent ← poseidon2_compress host left hash
        ok (parent, filled))
      else (do
        zero_val ← ok_or (zeroes lvl) not_initialized
        parent ← poseidon2_compress host hash zero_val
        ok (parent, update filled lvl (some hash)))

  -- `for lvl in lvl..lvl + k`
  unfoldable pub climb : ℕ → ℕ → ℕ → ℕ → Levels → Outcome E (ℕ × Levels)
  unfolding level_step
  climb zero lvl index hash filled = ok (hash, filled)
  climb (suc k) lvl index hash filled = do
    r ← level_step lvl index hash filled
    climb k (lvl + 1) (index / 2) r.0 r.1
