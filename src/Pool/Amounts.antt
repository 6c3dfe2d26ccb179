-- ===== src/Pool/Amounts.antt =====
-- contracts/pool/src/pool.rs: the conversions of the external amount.
pub mod PublicAmount
use stellar_private_payments.Prelude.{
  ℕ, ◌^◌, ltb, if◌then◌else◌, Outcome, ok, err, ensure, ok_or, ◌>>=◌, ◌>>◌,
}
use stellar_private_payments.Prelude.Int.{ℤ, pos, negsuc}
use stellar_private_payments.Poseidon.{bn256_modulus}
use stellar_private_payments.Soroban.{nonneg, i256_neg, to_u256, u256_sub, to_i128}
use stellar_private_payments.Pool.State.{Error, wrong_ext_amount}

unfoldable pub max_ext_amount : ℕ
max_ext_amount = 2 ^ 248

-- The amount of an i128 that is not negative.
abbrev amount_of : ℤ → Outcome Error ℕ
amount_of (pos n) = ok n
amount_of (negsuc n) = err wrong_ext_amount

unfoldable pub i256_to_i128_nonneg : ℤ → Outcome Error ℕ
i256_to_i128_nonneg v = do
  ensure (nonneg v) wrong_ext_amount
  n ← ok_or (to_i128 v) wrong_ext_amount
  amount_of n

unfoldable pub i256_abs_to_u256 : ℤ → Outcome Error ℕ
i256_abs_to_u256 v = do abs ← if nonneg v then ok v else i256_neg v; ok (to_u256 abs)

-- The amount as a field element: a negative one is taken from the modulus.
to_field : ℤ → Outcome Error ℕ
to_field ext_amount =
    if nonneg ext_amount
    then ok (to_u256 ext_amount)
    else do neg ← i256_neg ext_amount; u256_sub bn256_modulus (to_u256 neg)

unfoldable pub calculate_public_amount : ℤ → Outcome Error ℕ
unfolding i256_abs_to_u256 to_field
calculate_public_amount ext_amount = do
  abs_ext ← i256_abs_to_u256 ext_amount
  ensure (ltb abs_ext max_ext_amount) wrong_ext_amount
  to_field ext_amount
