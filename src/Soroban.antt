-- ===== src/Soroban.antt =====
-- What the contracts take from their host: addresses, authorisation, 256-bit integers, and
-- `update_admin` of contracts/soroban-utils/src/utils.rs.
use stellar_private_payments.Prelude.{
  ℕ, zero, suc, ◌-◌, ◌^◌, Bool, true, false, Option, none, some, List, ltb, leb, if◌then◌else◌,
  Outcome, ok, panic, or_panic, require, ◌>>=◌, ◌>>◌,
}
use stellar_private_payments.Prelude.Int.{ℤ, pos, negsuc}

abbrev pub Address : Type 0
Address = ℕ

abbrev pub Bytes : Type 0
Bytes = List ℕ

-- The new content of the admin entry. `authorized` are the addresses that signed the invocation.
unfoldable pub update_admin :
    {E : Type 0} → (Address → Bool) → Option Address → Address → Outcome E Address
update_admin authorized entry new_admin = do
  admin ← or_panic entry
  require (authorized admin)
  ok new_admin

-- An I256 is an integer from -2^255 to 2^255 - 1.
abbrev pub nonneg : ℤ → Bool
nonneg (pos n) = true
nonneg (negsuc n) = false

abbrev pub negative : ℤ → Bool
negative (pos n) = false
negative (negsuc n) = true

abbrev pub positive : ℤ → Bool
positive (pos n) = ltb 0 n
positive (negsuc n) = false

-- `zero.sub(&v)`, which traps on overflow.
unfoldable pub i256_neg : {E : Type 0} → ℤ → Outcome E ℤ
i256_neg (pos zero) = ok (pos zero)
i256_neg (pos (suc n)) = ok (negsuc n)
i256_neg (negsuc n) = if ltb (suc n) (2 ^ 255) then ok (pos (suc n)) else panic

-- `U256::from_be_bytes(v.to_be_bytes())`: the two's complement pattern.
abbrev pub to_u256 : ℤ → ℕ
to_u256 (pos n) = n
to_u256 (negsuc n) = 2 ^ 256 - suc n

-- `a.sub(&b)` on U256, which traps on underflow.
abbrev pub u256_sub : {E : Type 0} → ℕ → ℕ → Outcome E ℕ
u256_sub a b = if leb b a then ok (a - b) else panic

-- `v.to_i128()`
abbrev pub to_i128 : ℤ → Option ℤ
to_i128 (pos n) = if ltb n (2 ^ 127) then some (pos n) else none
to_i128 (negsuc n) = if ltb n (2 ^ 127) then some (negsuc n) else none
