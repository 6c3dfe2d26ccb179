-- ===== src/Examples/AmountRuns.antt =====
-- Amounts and field elements at which the theorems on the client's conversions are applied.
use stellar_private_payments.Prelude.{ℕ, ◌+◌, ◌%◌, ◌<◌, ◌≡◌, refl, arith, some, ok}
use stellar_private_payments.Prelude.Int.{pos, negsuc, ◌+ℤ◌}
use stellar_private_payments.Poseidon.{bn256_modulus}
use stellar_private_payments.Pool.Amounts.{calculate_public_amount}
use stellar_private_payments.Pool.State.{Error}
use stellar_private_payments.ClientAmounts.{
  bn254_prime, field_of_ext, ext_checked_add, field_add, field_sub,
}
use stellar_private_payments.ClientAmounts.Conversions.{
  field_of_ext-calculate_public_amount, field_sub-field_add, field_of_ext-ext_checked_add,
}

field_of_ext-calculate_public_amount_example :
    (x : ℕ) × (field_of_ext (negsuc 6) ≡ some x)
    × (calculate_public_amount (negsuc 6) ≡ ok x)
    × (x < bn256_modulus)
field_of_ext-calculate_public_amount_example = field_of_ext-calculate_public_amount (negsuc 6) refl

five_small : 5 < bn254_prime
unfolding bn254_prime
five_small = omega arith

seven_small : 7 < bn254_prime
unfolding bn254_prime
seven_small = omega arith

field_sub-field_add_example :
    (c : ℕ) × (d : ℕ) × (field_add {E = Error} 5 7 ≡ ok c)
    × (c ≡ (5 + 7) % bn254_prime)
    × (field_sub {E = Error} 5 7 ≡ ok d)
    × (d < bn254_prime)
    × (field_add {E = Error} d 7 ≡ ok 5)
field_sub-field_add_example = field_sub-field_add 5 7 five_small seven_small

two_added : ext_checked_add (negsuc 6) (pos 5) ≡ some (negsuc 1)
unfolding ext_checked_add ◌+ℤ◌
two_added = refl

field_of_ext-ext_checked_add_example :
    (x : ℕ) × (y : ℕ) × (z : ℕ) × (field_of_ext (negsuc 6) ≡ some x)
    × (field_of_ext (pos 5) ≡ some y)
    × (field_of_ext (negsuc 1) ≡ some z)
    × (field_add {E = Error} x y ≡ ok z)
field_of_ext-ext_checked_add_example =
    field_of_ext-ext_checked_add (negsuc 6) (pos 5) (negsuc 1) refl refl two_added
