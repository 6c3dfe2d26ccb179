-- ===== src/Examples/Hosts.antt =====
-- Concrete hosts: a permutation whose compression has the contracts' zero hashes as a chain, and
-- spreads other inputs.
use stellar_private_payments.Prelude.{
  ℕ, ◌+◌, ◌-◌, ◌*◌, ◌%◌, ◌≡◌, List, [], ◌∷◌, ◌==◌, if◌then◌else◌, arith, refl,
}
use stellar_private_payments.Poseidon.{
  Host, IsCanonical, bn256_modulus, bn256_modulus_pos, get_zeroes, compression, empty_subtree,
}

-- The value whose sum with `a` is the entry after `a` in the list, in the field.
unfoldable pub successor_of : ℕ → List ℕ → ℕ → ℕ
successor_of a [] other = other
successor_of a (x ∷ []) other = other
successor_of a (x ∷ y ∷ r) other =
    let rest = successor_of a (y ∷ r) other in if a == x then y + bn256_modulus - x else rest

abbrev pub chained : Host
chained = record {
  permutation_t2 = λ a b.
      (if a == b then successor_of a get_zeroes (3 * a + 7) else 3 * a + 5 * b + 1) % bn256_modulus;
  permutation_t3 = λ a b c. (2 * a + 3 * b + 5 * c + 9) % bn256_modulus;
}

pub chained-IsCanonical : IsCanonical chained
chained-IsCanonical = record {
  t2_lt = λ a b. omega (arith, bn256_modulus_pos);
  t3_lt = λ a b c. omega (arith, bn256_modulus_pos);
}

chain_step : compression chained (empty_subtree 4) (empty_subtree 4) ≡ empty_subtree 5
unfolding compression successor_of get_zeroes bn256_modulus
chain_step = refl
