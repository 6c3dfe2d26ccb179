-- ===== src/Machine.antt =====
-- Checked operations of Rust's unsigned integers, with the width written out.
use stellar_private_payments.Prelude.{
  ℕ, ◌+◌, ◌-◌, ◌^◌, Bool, true, false, Option, none, some, ltb, leb, if◌then◌else◌,
}

-- `a.checked_add(b)` on a w-bit unsigned integer.
abbrev pub checked_add : ℕ → ℕ → ℕ → Option ℕ
checked_add w a b = if ltb (a + b) (2 ^ w) then some (a + b) else none

-- `1u64.checked_shl(levels)`
abbrev pub checked_shl : ℕ → Option ℕ
checked_shl levels = if ltb levels 64 then some (2 ^ levels) else none

-- `u32::try_from(n)`
abbrev pub to_u32 : ℕ → Option ℕ
to_u32 n = if ltb n (2 ^ 32) then some n else none

-- `storage.has(..)` fails.
abbrev pub is_none {ℓ} : {A : Type ℓ} → Option A → Bool
is_none none = true
is_none (some a) = false

-- `a.checked_sub(b)`
abbrev pub checked_sub : ℕ → ℕ → Option ℕ
checked_sub a b = if leb b a then some (a - b) else none
