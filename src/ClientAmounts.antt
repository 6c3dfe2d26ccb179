-- ===== src/ClientAmounts.antt =====
-- app/crates/core/types/src/amounts.rs: note amounts (u128), external amounts (i128) and field
-- elements of the client, without their text formats.
pub mod Conversions
use stellar_private_payments.Prelude.{
  ℕ, suc, ◌+◌, ◌*◌, ◌%◌, ◌^◌, List, [], ◌∷◌, Option, none, some, leb, if◌then◌else◌, Outcome, ok,
  or_panic, ◌>>=◌,
}
use stellar_private_payments.Prelude.Int.{ℤ, pos, negsuc, sub_ℕ, pos_part, neg_part, ◌+ℤ◌}
use stellar_private_payments.Machine.{checked_add, checked_sub}
use stellar_private_payments.Soroban.{to_i128}

abbrev pub bn254_modulus_be : List ℕ
bn254_modulus_be =
    48 ∷ 100 ∷ 78 ∷ 114 ∷ 225 ∷ 49 ∷ 160 ∷ 41 ∷ 184 ∷ 80 ∷ 69 ∷ 182 ∷ 129 ∷ 129 ∷ 88 ∷ 93 ∷ 40 ∷ 51
    ∷ 232 ∷ 72 ∷ 121 ∷ 185 ∷ 112 ∷ 145 ∷ 67 ∷ 225 ∷ 245 ∷ 147 ∷ 240 ∷ 0 ∷ 0 ∷ 1 ∷ []

-- `U256::from_big_endian`
abbrev pub from_big_endian : ℕ → List ℕ → ℕ
from_big_endian acc [] = acc
from_big_endian acc (b ∷ bytes) = from_big_endian (acc * 256 + b) bytes

unfoldable pub modulus : ℕ
modulus = from_big_endian 0 bn254_modulus_be

-- The limbs, the lowest first.
unfoldable pub bn254_prime : ℕ
bn254_prime =
    0x43e1f593f0000001
    + 0x2833e84879b97091 * 2 ^ 64
    + 0xb85045b68181585d * 2 ^ 128
    + 0x30644e72e131a029 * 2 ^ 192

-- `NoteAmount + NoteAmount`
unfoldable pub note_add : {E : Type 0} → ℕ → ℕ → Outcome E ℕ
note_add a b = or_panic (checked_add 128 a b)

unfoldable pub note_sub : {E : Type 0} → ℕ → ℕ → Outcome E ℕ
note_sub a b = or_panic (checked_sub a b)

-- -a, as an integer.
abbrev pub negate : ℤ → ℤ
negate a = sub_ℕ (neg_part a) (pos_part a)

unfoldable pub ext_checked_add : ℤ → ℤ → Option ℤ
ext_checked_add a b = to_i128 (a +ℤ b)

unfoldable pub ext_checked_sub : ℤ → ℤ → Option ℤ
ext_checked_sub a b = to_i128 (a +ℤ negate b)

unfoldable pub ext_checked_neg : ℤ → Option ℤ
ext_checked_neg a = to_i128 (negate a)

unfoldable pub ext_of_note : ℕ → Option ℤ
ext_of_note a = to_i128 (pos a)

abbrev pub note_of_ext : ℤ → Option ℕ
note_of_ext (pos n) = some n
note_of_ext (negsuc n) = none

unfoldable pub try_from_u256 : ℕ → Option ℕ
try_from_u256 v = if leb modulus v then none else some v

unfoldable pub from_le_mod_order : ℕ → ℕ
from_le_mod_order v = v % bn254_prime

abbrev pub field_of_note : ℕ → ℕ
field_of_note a = a

unfoldable pub field_of_ext : ℤ → Option ℕ
field_of_ext (pos n) = if leb modulus n then none else some n
field_of_ext (negsuc n) = if leb modulus (suc n) then none else checked_sub modulus (suc n)

unfoldable pub field_add : {E : Type 0} → ℕ → ℕ → Outcome E ℕ
field_add a b = do
  v ← or_panic (checked_add 256 a b)
  if leb modulus v then or_panic (checked_sub v modulus) else ok v

unfoldable pub field_sub : {E : Type 0} → ℕ → ℕ → Outcome E ℕ
field_sub a b =
    if leb b a
    then or_panic (checked_sub a b)
    else do diff ← or_panic (checked_sub b a); or_panic (checked_sub modulus diff)
