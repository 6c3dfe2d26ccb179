-- ===== src/AspNonMembership/Tree.antt =====
-- The tree that the nodes spell: its hash, how it lies in the store, and where its keys stand.
use native.Mathlib.Nat.{pow-suc}
use stellar_private_payments.Prelude.{
  ℕ, zero, suc, ◌/◌, ◌%◌, ◌^◌, ◌<◌, ◌≡◌, ◌≢◌, refl, sym, ap, ◌∙◌, Bool, true, false, some, List, [],
  ◌∷◌, ◌==◌, arith, ok, length,
}
use stellar_private_payments.Poseidon.{
  Host, IsCanonical, bn256_modulus, bn256_modulus_pos, compression, compression-lt, poseidon2_hash2,
}
use stellar_private_payments.AspNonMembership.{Nodes, bits_of, split_bits, hash_leaf}

pub data Smt : Type 0 where
  blank : Smt
  leaf : ℕ → ℕ → Smt
  fork : Smt → Smt → Smt

abbrev pub leaf_digest : Host → ℕ → ℕ → ℕ
leaf_digest host k v = host.permutation_t3 k v 1

unfoldable pub digest : Host → Smt → ℕ
digest host blank = 0
digest host (leaf k v) = leaf_digest host k v
digest host (fork l r) = compression host (digest host l) (digest host r)

-- Every node is stored under its hash, which is not zero; keys and values are field elements.
abbrev pub Stored : Host → Nodes → Smt → Type 0
Stored host nodes blank = Unit
Stored host nodes (leaf k v) =
    (k < bn256_modulus)
    × (v < bn256_modulus)
    × (leaf_digest host k v ≢ 0)
    × (nodes (leaf_digest host k v) ≡ some (1 ∷ k ∷ v ∷ []))
Stored host nodes (fork l r) =
    (digest host (fork l r) ≢ 0)
    × (nodes (digest host (fork l r)) ≡ some (digest host l ∷ digest host r ∷ []))
    × Stored host nodes l
    × Stored host nodes r

pub data In (k v : ℕ) : Smt → Type 0 where
  here : In k v (leaf k v)
  left : {l r : Smt} → In k v l → In k v (fork l r)
  right : {l r : Smt} → In k v r → In k v (fork l r)

-- `Remains k bs`: the bits of the key `k` that the path to this place leaves are `bs`.
abbrev pub Remaining : Type 1
Remaining = ℕ → List Bool → Type 0

abbrev pub below : Bool → Remaining → Remaining
below b remains k bs = remains k (b ∷ bs)

abbrev pub at_root : Remaining
at_root k bs = split_bits k ≡ bs

-- Each key stands where its bits lead, and an internal node has a key below it.
abbrev pub Placed : Remaining → Smt → Type 0
Placed remains blank = Unit
Placed remains (leaf k v) = (bs : List Bool) × remains k bs
Placed remains (fork l r) =
    ((k : ℕ) × (v : ℕ) × In k v (fork l r))
    × Placed (below false remains) l
    × Placed (below true remains) r

abbrev pub OnePath : Remaining → Type 0
OnePath remains = (k : ℕ) (bs bs' : List Bool) → remains k bs → remains k bs' → bs ≡ bs'

pub OnePath-at_root : OnePath at_root
OnePath-at_root k bs bs' h h' = sym h ∙ h'

tail_of : List Bool → List Bool
tail_of [] = []
tail_of (b ∷ bs) = bs

head_of : List Bool → Bool
head_of [] = false
head_of (b ∷ bs) = b

pub OnePath-below : (b : Bool) (remains : Remaining) → OnePath remains → OnePath (below b remains)
unfolding tail_of
OnePath-below b remains h k bs bs' p q = ap tail_of (h k (b ∷ bs) (b ∷ bs') p q)

-- All keys have as many bits.
abbrev pub Even : ℕ → Remaining → Type 0
Even n remains = (k : ℕ) (bs : List Bool) → remains k bs → length bs ≡ n

length-bits_of : (n k : ℕ) → length (bits_of n k) ≡ n
unfolding bits_of
length-bits_of zero k = refl
length-bits_of (suc n) k = omega (arith, length-bits_of n (k / 2))

pub length-split_bits : (k : ℕ) → length (split_bits k) ≡ 256
length-split_bits k = length-bits_of 256 k

pub Even-at_root : Even 256 at_root
Even-at_root k bs h = sym (ap length h) ∙ length-split_bits k

pub Even-below :
    (n : ℕ) (b : Bool) (remains : Remaining) → Even (suc n) remains → Even n (below b remains)
Even-below n b remains h k bs p = omega (arith, h k (b ∷ bs) p)

-- A key in a placed tree has its place.
pub In-remains :
    {k v : ℕ} {t : Smt} (remains : Remaining)
    → Placed remains t
    → In k v t
    → (bs : List Bool) × remains k bs
In-remains remains p here = p
In-remains remains p (left i) =
    let (bs, h) = In-remains (below false remains) p.1 i in (false ∷ bs, h)
In-remains remains p (right i) =
    let (bs, h) = In-remains (below true remains) p.2 i in (true ∷ bs, h)

-- Keys below 2^n with the same n bits are equal.
pub bits_of-injective : (n a b : ℕ) → a < 2 ^ n → b < 2 ^ n → bits_of n a ≡ bits_of n b → a ≡ b
unfolding bits_of tail_of head_of
bits_of-injective zero a b ha hb h = omega arith
bits_of-injective (suc n) a b ha hb h =
    let heads : (a % 2 == 1) ≡ (b % 2 == 1) = ap (head_of) h in
    let tails : bits_of n (a / 2) ≡ bits_of n (b / 2) = ap tail_of h in
    let p = pow-suc 2 n in
    let halves = bits_of-injective n (a / 2) (b / 2) (omega arith) (omega arith) tails in
    let e : a % 2 ≡ b % 2 = ground arith in omega arith

pub digest-lt : (host : Host) → IsCanonical host → (t : Smt) → digest host t < bn256_modulus
unfolding digest
digest-lt host c blank = bn256_modulus_pos
digest-lt host c (leaf k v) = c.t3_lt k v 1
digest-lt host c (fork l r) = compression-lt host (digest host l) (digest host r)

pub hash_leaf-eq-ok :
    (host : Host) (k v : ℕ)
    → k < bn256_modulus
    → v < bn256_modulus
    → hash_leaf host k v ≡ ok (leaf_digest host k v)
unfolding poseidon2_hash2 bn256_modulus
hash_leaf-eq-ok host k v hk hv = ground arith
