-- ===== src/ClientMerkle/Circuit.antt =====
-- The root of a full list of leaves, and the prefix tree's.
use native.Mathlib.Nat.{pow-suc}
use native.Mathlib.Decide.{ℕ_discrete}
use stellar_private_payments.Prelude.{
  ℕ, zero, suc, ◌+◌, ◌-◌, ◌/◌, ◌^◌, ◌≤◌, ◌<◌, ◌≡◌, refl, sym, ap, ◌∙◌, Bool, true, false, ◌||◌,
  some, List, [], ◌∷◌, ◌++◌, arith, length, length-append, replicate, get_or, lt→ltb, le→ltb, ◌==◌,
  ==_ne, ==_refl, ok,
}
use stellar_private_payments.Poseidon.{Host, compression}
use stellar_private_payments.Merkle.Root.{perfect_root}
use stellar_private_payments.ClientMerkle.{
  MerklePrefixTree, poseidon2_compression, zero_leaf, new, root, hash_chunks, merkle_root_loop,
  merkle_root, power_up_to, is_power_of_two,
}
use stellar_private_payments.ClientMerkle.Levels.{poseidon2_compression-eq}
use stellar_private_payments.ClientMerkle.Root.{root-perfect_root}

or_true : (b : Bool) → (b || true) ≡ true
or_true true = refl
or_true false = refl

new-le :
    (host : Host) (depth : ℕ) (leaves : List ℕ) (t : MerklePrefixTree)
    → new host depth leaves ≡ ok t
    → depth ≤ 32
unfolding new
new-le host depth leaves t h = ground arith

-- Only the leaves below 2^d matter.
below-perfect_root :
    (hash : ℕ → ℕ → ℕ) (d : ℕ) (f g : ℕ → ℕ)
    → ((i : ℕ) → i < 2 ^ d → f i ≡ g i)
    → perfect_root hash d f ≡ perfect_root hash d g
unfolding perfect_root
below-perfect_root hash zero f g h = h 0 (omega arith)
below-perfect_root hash (suc d) f g h =
    let p = pow-suc 2 d in
    below-perfect_root hash d _ _
      (λ i b. rw (h (i + i) (omega arith), h (suc (i + i)) (omega arith)) refl)

pow_pos : (d : ℕ) → d < 2 ^ d
pow_pos zero = omega arith
pow_pos (suc d) = omega (arith, pow-suc 2 d, pow_pos d)

module _ (host : Host) where
  length-hash_chunks : (nodes : List ℕ) → length (hash_chunks host nodes) ≡ length nodes / 2
  unfolding hash_chunks
  length-hash_chunks [] = omega arith
  length-hash_chunks (a ∷ []) = omega arith
  length-hash_chunks (a ∷ b ∷ nodes) = omega (arith, length-hash_chunks nodes)

  get_or-hash_chunks :
      (nodes : List ℕ) (i : ℕ)
      → i < length nodes / 2
      → get_or (hash_chunks host nodes) i 0
        ≡ poseidon2_compression host (get_or nodes (i + i) 0) (get_or nodes (suc (i + i)) 0)
  unfolding hash_chunks
  get_or-hash_chunks [] i h = absurd (omega arith)
  get_or-hash_chunks (a ∷ []) i h = absurd (omega arith)
  get_or-hash_chunks (a ∷ b ∷ nodes) zero h = refl
  get_or-hash_chunks (a ∷ b ∷ nodes) (suc i) h =
      let s : suc i + suc i ≡ suc (suc (i + i)) = omega arith in
      rw s (get_or-hash_chunks nodes i (omega arith))

  one_node : (nodes : List ℕ) → length nodes ≡ 1 → nodes ≡ get_or nodes 0 0 ∷ []
  one_node [] h = absurd (omega arith)
  one_node (a ∷ []) h = refl
  one_node (a ∷ b ∷ nodes) h = absurd (omega arith)

  -- The loop ends with the root, on fuel for more rounds than there are levels.
  merkle_root_loop-perfect_root :
      (d fuel : ℕ) (nodes : List ℕ)
      → d < fuel
      → length nodes ≡ 2 ^ d
      → merkle_root_loop host fuel nodes
        ≡ some (perfect_root (poseidon2_compression host) d (λ i. get_or nodes i 0) ∷ [])
  unfolding merkle_root_loop perfect_root
  merkle_root_loop-perfect_root d zero nodes h len = absurd (omega arith)
  merkle_root_loop-perfect_root zero (suc fuel) nodes h len =
      rw (le→ltb 1 (length nodes) (omega arith)) (ap some (one_node nodes (omega arith)))
  merkle_root_loop-perfect_root (suc d) (suc fuel) nodes h len =
      let p = pow-suc 2 d in
      let q = pow_pos d in
      let rest =
        merkle_root_loop-perfect_root d fuel (hash_chunks host nodes) (omega arith)
          (omega (arith, length-hash_chunks nodes)) in
      let same =
        below-perfect_root (poseidon2_compression host) d (λ i. get_or (hash_chunks host nodes) i 0)
          _ (λ i b. get_or-hash_chunks nodes i (omega arith)) in
      rw (lt→ltb 1 (length nodes) (omega arith), rest) (ap (λ x. some (x ∷ [])) same)

power_up_to-pow : (k d : ℕ) → d ≤ k → power_up_to k (2 ^ d) ≡ true
unfolding power_up_to
power_up_to-pow zero d h = let z : d ≡ 0 = omega arith in rw z refl
power_up_to-pow (suc k) d h = elim (ℕ_discrete d (suc k)) [
  | yes e ↦ rw (e, ==_refl (2 ^ suc k)) refl
  | no ne ↦ rw (power_up_to-pow k d (omega (arith, ne))) (or_true (2 ^ d == 2 ^ suc k))
]

is_power_of_two-pow : (d : ℕ) → d < 64 → is_power_of_two (2 ^ d) ≡ true
unfolding is_power_of_two
is_power_of_two-pow d h = power_up_to-pow 63 d (omega arith)

-- A list of 2^d leaves, with d below 64, has a root: that of the perfect tree. The loop ends.
pub merkle_root-perfect_root :
    {E : Type 0} (host : Host) (d : ℕ) (leaves : List ℕ)
    → d < 64
    → length leaves ≡ 2 ^ d
    → merkle_root {E = E} host leaves
      ≡ ok (perfect_root (compression host) d (λ i. get_or leaves i 0))
unfolding merkle_root
merkle_root-perfect_root host d leaves small len =
    let more = pow_pos d in
    let run = merkle_root_loop-perfect_root host d (length leaves) leaves (omega arith) len in
    let power : is_power_of_two (length leaves) ≡ true = rw len (is_power_of_two-pow d small) in
    rw (==_ne (length leaves) 0 (λ e. omega arith), power, run, ← poseidon2_compression-eq host)
      refl

-- The leaves, and zero leaves up to the width of the tree.
unfoldable pub full_leaves : ℕ → List ℕ → List ℕ
full_leaves depth leaves = leaves ++ replicate (2 ^ depth - length leaves) zero_leaf

get_or-replicate : (n i x d : ℕ) → i < n → get_or (replicate n x) i d ≡ x
get_or-replicate zero i x d h = absurd (omega arith)
get_or-replicate (suc n) zero x d h = refl
get_or-replicate (suc n) (suc i) x d h = get_or-replicate n i x d (omega arith)

length-replicate : (n x : ℕ) → length (replicate n x) ≡ n
length-replicate zero x = refl
length-replicate (suc n) x = ap suc (length-replicate n x)

get_or-padded :
    (leaves : List ℕ) (n i x d : ℕ)
    → i < length leaves + n
    → get_or (leaves ++ replicate n x) i d ≡ get_or leaves i x
get_or-padded [] n i x d h = get_or-replicate n i x d (omega arith)
get_or-padded (a ∷ leaves) n zero x d h = refl
get_or-padded (a ∷ leaves) n (suc i) x d h = get_or-padded leaves n i x d (omega arith)

length-full_leaves :
    (depth : ℕ) (leaves : List ℕ)
    → length leaves ≤ 2 ^ depth
    → length (full_leaves depth leaves) ≡ 2 ^ depth
unfolding full_leaves
length-full_leaves depth leaves h = omega (
  arith,
  length-append leaves (replicate (2 ^ depth - length leaves) zero_leaf),
  length-replicate (2 ^ depth - length leaves) zero_leaf,
)

-- The prefix tree has the root that the circuits' routine gives to the leaves padded with zero
-- leaves to the full width.
pub root-merkle_root :
    {E : Type 0} (host : Host) (depth : ℕ) (leaves : List ℕ) (t : MerklePrefixTree)
    → new host depth leaves ≡ ok t
    → length leaves ≤ 2 ^ depth
    → merkle_root {E = E} host (full_leaves depth leaves) ≡ ok (root host t)
unfolding full_leaves
root-merkle_root host depth leaves t made room =
    merkle_root-perfect_root host depth (full_leaves depth leaves)
      (omega (arith, new-le host depth leaves t made)) (length-full_leaves depth leaves room)
    ∙ ap ok (
        below-perfect_root (compression host) depth _ (λ i. get_or leaves i zero_leaf)
          (λ i b. get_or-padded leaves (2 ^ depth - length leaves) i zero_leaf 0 (omega arith))
        ∙ sym (root-perfect_root host depth leaves t made))
