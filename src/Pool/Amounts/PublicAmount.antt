-- ===== src/Pool/Amounts/PublicAmount.antt =====
-- The public amount is the external amount in the field, and determines it.
use stellar_private_payments.Prelude.{
  Bool-cases, leb, inl, inr, ◌⊎◌, ℕ, suc, ◌+◌, ◌-◌, ◌^◌, ◌≤◌, ◌<◌, ◌≡◌, arith, ok, err, ltb,
  if◌then◌else◌,
}
use stellar_private_payments.Prelude.Int.{ℤ, pos, negsuc, pos_part, neg_part}
use stellar_private_payments.Poseidon.{bn256_modulus}
use stellar_private_payments.Soroban.{i256_neg}
use stellar_private_payments.Pool.State.{wrong_ext_amount}
use stellar_private_payments.Pool.Amounts.{max_ext_amount, calculate_public_amount}

limit_lt : 2 ^ 248 + 2 ^ 248 < bn256_modulus
unfolding bn256_modulus
limit_lt = omega arith

-- The magnitude of an external amount.
abbrev pub magnitude : ℤ → ℕ
magnitude v = pos_part v + neg_part v

-- A success: the amount is below the limit, and the result is the field element congruent to it.
pub calculate_public_amount-inv :
    (v : ℤ) (x : ℕ)
    → calculate_public_amount v ≡ ok x
    → (magnitude v < 2 ^ 248)
      × (neg_part v + x ≡ pos_part v + (if ltb 0 (neg_part v) then bn256_modulus else 0))
unfolding calculate_public_amount max_ext_amount i256_neg
calculate_public_amount-inv (pos n) x h = ground (arith, limit_lt)
calculate_public_amount-inv (negsuc n) x h = ground (arith, limit_lt)

-- Every external amount above the least I256 has one of two outcomes: with a magnitude below 2^248
-- a field element, and from there on a refusal.
pub calculate_public_amount_total :
    (v : ℤ)
    → magnitude v < 2 ^ 255
    → ((x : ℕ) × (magnitude v < 2 ^ 248) × (calculate_public_amount v ≡ ok x) × (x < bn256_modulus))
      ⊎ ((2 ^ 248 ≤ magnitude v) × (calculate_public_amount v ≡ err wrong_ext_amount))
unfolding calculate_public_amount max_ext_amount i256_neg
calculate_public_amount_total (pos n) h = elim (Bool-cases (leb (2 ^ 248) n)) [
  | inl big ↦ inr (ground arith, ground arith)
  | inr small ↦ inl (n, ground arith, ground arith, ground (arith, limit_lt))
]
calculate_public_amount_total (negsuc n) h = elim (Bool-cases (leb (2 ^ 248) (suc n))) [
  | inl big ↦ inr (ground arith, ground arith)
  | inr small ↦
      inl (bn256_modulus - suc n, ground arith, ground (arith, limit_lt), ground (arith, limit_lt))
]

-- Two external amounts with one public amount are equal: a proof cannot be replayed for another
-- amount, nor a deposit for a withdrawal.
pub calculate_public_amount_injective :
    (v w : ℤ) (x : ℕ) → calculate_public_amount v ≡ ok x → calculate_public_amount w ≡ ok x → v ≡ w
calculate_public_amount_injective v w x hv hw =
    ground (arith, limit_lt, calculate_public_amount-inv v x hv, calculate_public_amount-inv w x hw)
