-- ===== src/Pool/Contract/Payments.antt =====
-- What the payments of a transaction that succeeds have passed.
use stellar_private_payments.Prelude.{
  ℕ, zero, suc, ◌^◌, ◌≤◌, ◌<◌, ◌≡◌, true, some, List, All, arith, ok, Option-cases, inl, inr,
}
use stellar_private_payments.Prelude.Int.{ℤ, pos, negsuc, pos_part, neg_part}
use stellar_private_payments.Soroban.{Address, i256_neg}
use stellar_private_payments.Pool.State.{ExtData, Pool, Env, Transfer}
use stellar_private_payments.Pool.Amounts.{i256_to_i128_nonneg}
use stellar_private_payments.Pool.Contract.{deposit, withdraw, pay_recipient, token_transfer}
use stellar_private_payments.Pool.Contract.Effects.{paid_in, paid_out}

abbrev pub Accepted : Env → List Transfer → Type 0
Accepted env = All (λ t. env.transfer_accepted t ≡ true)

-- A deposit is within the configured maximum. Its amount is an i128, and the token takes it.
pub record DepositPassed (env : Env) (p : Pool) (token sender : Address) (v : ℤ) : Type 0 where
  pub within_maximum :
      0 < pos_part v → (max : ℕ) × (p.maximum_deposit_amount ≡ some max) × (pos_part v ≤ max)
  pub below : pos_part v < 2 ^ 127
  pub accepted : Accepted env (paid_in env token sender v)

-- The amount of a withdrawal is an i128, and the token takes it.
pub record WithdrawalPassed (env : Env) (token recipient : Address) (v : ℤ) : Type 0 where
  pub below : neg_part v < 2 ^ 127
  pub accepted : Accepted env (paid_out env token recipient v)

pub deposit-DepositPassed :
    (env : Env) (p q : Pool) (token : Address) (ext_data : ExtData) (sender : Address) (v : ℤ)
    → ext_data.ext_amount ≡ v
    → deposit env p token ext_data sender ≡ ok q
    → DepositPassed env p token sender v
unfolding deposit token_transfer i256_to_i128_nonneg
deposit-DepositPassed env p q token ext_data sender (pos zero) e h = record {
  within_maximum = λ lt. absurd (omega arith);
  below = omega arith;
  accepted = tt;
}
deposit-DepositPassed env p q token ext_data sender (pos (suc n)) e h =
    elim (Option-cases p.maximum_deposit_amount) [
      | inl none_set ↦ absurd (ground arith)
      | inr (max, set) ↦ record {
        within_maximum = λ lt. (max, set, ground arith);
        below = ground arith;
        accepted = (ground arith, tt);
      }
    ]
deposit-DepositPassed env p q token ext_data sender (negsuc n) e h = record {
  within_maximum = λ lt. absurd (omega arith);
  below = omega arith;
  accepted = tt;
}

pub withdraw-WithdrawalPassed :
    (env : Env) (p q : Pool) (token : Address) (ext_data : ExtData) (v : ℤ)
    → p.token ≡ some token
    → ext_data.ext_amount ≡ v
    → withdraw env p ext_data ≡ ok q
    → WithdrawalPassed env token ext_data.recipient v
unfolding withdraw pay_recipient token_transfer i256_to_i128_nonneg i256_neg
withdraw-WithdrawalPassed env p q token ext_data (pos n) t e h = record {
  below = omega arith;
  accepted = tt;
}
withdraw-WithdrawalPassed env p q token ext_data (negsuc n) t e h = record {
  below = ground arith;
  accepted = (ground arith, tt);
}
