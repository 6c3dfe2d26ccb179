-- ===== src/Merkle/Climb/Correct.antt =====
-- The loop computes the root, and keeps in the store what the next insertion needs.
use stellar_private_payments.Prelude.{
  ℕ, zero, suc, ◌+◌, ◌%◌, ◌<◌, ◌≡◌, refl, Option, some, none, ok, List, arith, length,
}
use stellar_private_payments.Poseidon.{
  Host, IsCanonical, bn256_modulus, compression, compression-lt, poseidon2_compress-eq-ok,
}
use stellar_private_payments.Merkle.Levels.{
  pairs, pending, parent, parity, pending-parity, length-pairs, All-pending, All-pairs,
}
use stellar_private_payments.Merkle.Root.{top}
use stellar_private_payments.Merkle.Frontier.{
  Canonical, ZeroesStored, Levels, Stored, store_unless, Frontier, stored, Frontier-store_unless,
}
use stellar_private_payments.Merkle.Climb.{level_step, climb}

module _ {E : Type 0} (host : Host) (canonical : IsCanonical host) (not_initialized : E)
    (zeroes : Levels) (empty : ℕ → ℕ) where
  -- One round, by whether a node waits on the level.
  level_step_on :
      (lvl n h : ℕ) (filled : Levels) (o : Option ℕ)
      → (zeroes lvl ≡ some (empty lvl)) × (empty lvl < bn256_modulus)
      → ((a : ℕ) → o ≡ some a → a < bn256_modulus)
      → h < bn256_modulus
      → Stored filled lvl o
      → n % 2 ≡ parity o
      → level_step host not_initialized zeroes lvl n h filled
        ≡ ok (parent (compression host) (empty lvl) o h, store_unless filled lvl o h)
  unfolding level_step
  level_step_on lvl n h filled none z c hh s e =
      rw (e, z.0, poseidon2_compress-eq-ok {E = E} host canonical h (empty lvl) hh z.1)
  level_step_on lvl n h filled (some a) z c hh s e =
      rw (e, s, poseidon2_compress-eq-ok {E = E} host canonical a h (c a refl) hh)

  parent-lt : (e h : ℕ) (o : Option ℕ) → parent (compression host) e o h < bn256_modulus
  parent-lt e h none = compression-lt host h e
  parent-lt e h (some a) = compression-lt host a h

  -- The loop succeeds on a store that holds the waiting nodes and the zero hashes: it gives what
  -- climbs to the top, and stores the new waiting nodes.
  pub climb-eq-ok :
      (k lvl h : ℕ) (filled : Levels) (xs : List ℕ)
      → ZeroesStored zeroes empty k lvl
      → Canonical xs
      → h < bn256_modulus
      → Frontier (compression host) k lvl filled xs
      → climb host not_initialized zeroes k lvl (length xs) h filled
        ≡ ok (
          top (compression host) empty k lvl xs h,
          stored (compression host) empty k lvl xs h filled,
        )
  unfolding climb top stored
  climb-eq-ok zero lvl h filled xs z c hh f = refl
  climb-eq-ok (suc k) lvl h filled xs z c hh f =
      rw
        (
          level_step_on lvl (length xs) h filled (pending xs) (z lvl (omega arith) (omega arith))
              (λ a e. All-pending (λ x. x < bn256_modulus) xs a c e) hh f.0 (pending-parity xs),
          ← length-pairs (compression host) xs,
        )
        (climb-eq-ok k (lvl + 1) _ (store_unless filled lvl (pending xs) h)
          (pairs (compression host) xs) (λ i from to. z i (omega arith) (omega arith))
          (All-pairs (λ x. x < bn256_modulus) (compression host) (compression-lt host) xs)
          (parent-lt (empty lvl) h (pending xs))
          (Frontier-store_unless (compression host) k lvl h filled (pending xs)
            (pairs (compression host) xs) f.1))
