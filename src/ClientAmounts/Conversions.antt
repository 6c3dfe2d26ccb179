-- ===== src/ClientAmounts/Conversions.antt =====
-- The client's conversions agree with the pool's, and with addition.
use stellar_private_payments.Prelude.{
  ℕ, suc, ◌+◌, ◌-◌, ◌%◌, ◌^◌, ◌≤◌, ◌<◌, ◌≡◌, refl, sym, ap, ◌∙◌, if◌then◌else◌, arith, some, ok,
  leb,
}
use stellar_private_payments.Prelude.Int.{ℤ, pos, negsuc, pos_part, neg_part, ◌+ℤ◌}
use stellar_private_payments.Poseidon.{bn256_modulus}
use stellar_private_payments.Soroban.{to_i128, i256_neg}
use stellar_private_payments.Pool.Amounts.{calculate_public_amount, max_ext_amount}
use stellar_private_payments.ClientAmounts.{
  modulus, bn254_prime, field_of_ext, ext_checked_add, field_add, field_sub,
}

modulus-eq : modulus ≡ bn256_modulus
unfolding modulus bn256_modulus
modulus-eq = refl

bn254_prime-eq : bn254_prime ≡ bn256_modulus
unfolding bn254_prime bn256_modulus
bn254_prime-eq = refl

room : (2 ^ 128 + 2 ^ 248 < modulus) × (modulus + modulus < 2 ^ 256)
unfolding modulus
room = (omega arith, omega arith)

-- The field element of every i128 is the public amount that the pool computes from it.
pub field_of_ext-calculate_public_amount :
    (v : ℤ)
    → to_i128 v ≡ some v
    → (x : ℕ) × (field_of_ext v ≡ some x) × (calculate_public_amount v ≡ ok x) × (x < bn256_modulus)
unfolding field_of_ext calculate_public_amount max_ext_amount i256_neg
field_of_ext-calculate_public_amount (pos n) h =
    (n, ground (arith, room), ground (arith, room, modulus-eq), ground (arith, room, modulus-eq))
field_of_ext-calculate_public_amount (negsuc n) h = (
  bn256_modulus - suc n,
  ground (arith, room, modulus-eq),
  ground (arith, room, modulus-eq),
  ground (arith, room, modulus-eq),
)

-- The sum in the field, without the remainder.
abbrev wrapped : ℕ → ℕ
wrapped v = if leb modulus v then v - modulus else v

field_add-wrapped :
    {E : Type 0} (a b : ℕ)
    → a < modulus
    → b < modulus
    → field_add {E = E} a b ≡ ok (wrapped (a + b))
unfolding field_add
field_add-wrapped a b ha hb = ground (arith, room)

wrapped-mod : (v : ℕ) → v < modulus + modulus → wrapped v ≡ v % bn254_prime
unfolding modulus bn254_prime
wrapped-mod v h = ground arith

-- The difference in the field.
abbrev lowered : ℕ → ℕ → ℕ
lowered a b = if leb b a then a - b else modulus - (b - a)

field_sub-lowered :
    {E : Type 0} (a b : ℕ) → a < modulus → b < modulus → field_sub {E = E} a b ≡ ok (lowered a b)
unfolding field_sub
field_sub-lowered a b ha hb = ground arith

lowered-lt : (a b : ℕ) → a < modulus → b < modulus → lowered a b < modulus
lowered-lt a b ha hb = ground arith

wrapped-lowered : (a b : ℕ) → a < modulus → b < modulus → wrapped (lowered a b + b) ≡ a
wrapped-lowered a b ha hb = ground arith

-- On field elements neither addition nor subtraction panics, both give field elements, the first the
-- sum modulo the prime, and adding undoes subtracting.
pub field_sub-field_add :
    {E : Type 0} (a b : ℕ)
    → a < bn254_prime
    → b < bn254_prime
    → (c : ℕ) × (d : ℕ) × (field_add {E = E} a b ≡ ok c)
      × (c ≡ (a + b) % bn254_prime)
      × (field_sub {E = E} a b ≡ ok d)
      × (d < bn254_prime)
      × (field_add {E = E} d b ≡ ok a)
field_sub-field_add a b ha hb =
    let same : modulus ≡ bn254_prime = modulus-eq ∙ sym bn254_prime-eq in
    let ha' : a < modulus = omega arith in
    let hb' : b < modulus = omega arith in
    let low = lowered-lt a b ha' hb' in
    (
      wrapped (a + b),
      lowered a b,
      field_add-wrapped a b ha' hb',
      wrapped-mod (a + b) (omega arith),
      field_sub-lowered a b ha' hb',
      omega arith,
      field_add-wrapped (lowered a b) b low hb' ∙ ap ok (wrapped-lowered a b ha' hb'),
    )

-- What an external amount is in the field.
abbrev in_field : ℤ → ℕ
in_field (pos n) = n
in_field (negsuc n) = modulus - suc n

field_of_ext-in_field :
    (v : ℤ) (x : ℕ)
    → to_i128 v ≡ some v
    → field_of_ext v ≡ some x
    → (in_field v ≡ x) × (x < modulus) × (pos_part v < 2 ^ 127) × (neg_part v ≤ 2 ^ 127)
unfolding field_of_ext
field_of_ext-in_field (pos n) x h e = (ground arith, ground arith, ground arith, ground arith)
field_of_ext-in_field (negsuc n) x h e = (ground arith, ground arith, ground arith, ground arith)

wrapped-in_field :
    (a b : ℤ)
    → pos_part a < 2 ^ 127
    → neg_part a ≤ 2 ^ 127
    → pos_part b < 2 ^ 127
    → neg_part b ≤ 2 ^ 127
    → wrapped (in_field a + in_field b) ≡ in_field (a +ℤ b)
unfolding ◌+ℤ◌
wrapped-in_field (pos m) (pos n) pa na pb nb = ground (arith, room)
wrapped-in_field (pos m) (negsuc n) pa na pb nb = ground (arith, room)
wrapped-in_field (negsuc m) (pos n) pa na pb nb = ground (arith, room)
wrapped-in_field (negsuc m) (negsuc n) pa na pb nb = ground (arith, room)

to_i128-idempotent : (v c : ℤ) → to_i128 v ≡ some c → (v ≡ c) × (to_i128 c ≡ some c)
to_i128-idempotent (pos n) c h = ground arith
to_i128-idempotent (negsuc n) c h = ground arith

sums : (x y u v : ℕ) → u ≡ x → v ≡ y → x + y ≡ u + v
sums x y u v e f = omega arith

-- Where the sum of two external amounts is one, their field elements add up to that of the sum.
pub field_of_ext-ext_checked_add :
    {E : Type 0} (a b c : ℤ)
    → to_i128 a ≡ some a
    → to_i128 b ≡ some b
    → ext_checked_add a b ≡ some c
    → (x : ℕ) × (y : ℕ) × (z : ℕ) × (field_of_ext a ≡ some x)
      × (field_of_ext b ≡ some y)
      × (field_of_ext c ≡ some z)
      × (field_add {E = E} x y ≡ ok z)
unfolding ext_checked_add
field_of_ext-ext_checked_add a b c ha hb hc =
    let (same, hc') = to_i128-idempotent (a +ℤ b) c hc in
    let (x, ex, px, bx) = field_of_ext-calculate_public_amount a ha in
    let (y, ey, py, by) = field_of_ext-calculate_public_amount b hb in
    let (z, ez, pz, bz) = field_of_ext-calculate_public_amount c hc' in
    let (ix, lx, pa, na) = field_of_ext-in_field a x ha ex in
    let (iy, ly, pb, nb) = field_of_ext-in_field b y hb ey in
    let (iz, lz, pc, nc) = field_of_ext-in_field c z hc' ez in
    let sum = wrapped-in_field a b pa na pb nb in
    (
      x,
      y,
      z,
      ex,
      ey,
      ez,
      field_add-wrapped x y lx ly
          ∙ ap ok
              (ap wrapped (sums x y (in_field a) (in_field b) ix iy) ∙ sum ∙ ap in_field same ∙ iz),
    )
