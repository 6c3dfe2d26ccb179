-- ===== src/Pool/Tree/Built.antt =====
-- A tree from its beginning: `init` and then any insertions of two leaves.
use stellar_private_payments.Prelude.{
  ℕ, suc, ◌+◌, ◌^◌, ◌≤◌, ◌<◌, ◌≡◌, refl, ap, ◌∙◌, List, [], ◌∷◌, ◌++◌, arith, length, length-append,
  All, get_or, Outcome, ok, ◌>>=◌,
}
use mathlib.Core.List.{append_assoc, append-nil}
use stellar_private_payments.Poseidon.{Host, IsCanonical, bn256_modulus, compression, empty_subtree}
use stellar_private_payments.Poseidon.Permutation.{IsPoseidon2, zeroes-ZeroChain}
use stellar_private_payments.Merkle.Root.{perfect_root}
use stellar_private_payments.Pool.Tree.{
  MerkleTree, MerkleError, no_entries, init, insert_two_leaves, get_last_root,
}
use stellar_private_payments.Pool.Tree.Represents.{
  Represents, root_of, root_of-perfect_root, get_last_root-Represents,
}
use stellar_private_payments.Pool.Tree.Insert.{insert_two_leaves-Represents}
use stellar_private_payments.Pool.Tree.Init.{init-Represents}

abbrev pub leaves_of : List (ℕ × ℕ) → List ℕ
leaves_of [] = []
leaves_of (p ∷ ps) = p.0 ∷ p.1 ∷ leaves_of ps

-- The insertions of pairs of leaves, in order.
abbrev pub insert_all : Host → MerkleTree → List (ℕ × ℕ) → Outcome MerkleError MerkleTree
insert_all host t [] = ok t
insert_all host t (p ∷ ps) = do r ← insert_two_leaves host t p.0 p.1; insert_all host r.1 ps

abbrev pub build : Host → ℕ → List (ℕ × ℕ) → Outcome MerkleError MerkleTree
build host levels ps = do t ← init no_entries levels; insert_all host t ps

module _ (host : Host) (canonical : IsCanonical host) (k : ℕ) where
  insert_all-Represents :
      (t : MerkleTree) (ps : List (ℕ × ℕ)) (leaves roots : List ℕ)
      → Represents host t k leaves roots
      → All (λ x. x < bn256_modulus) (leaves_of ps)
      → length leaves + length (leaves_of ps) ≤ 2 ^ suc k
      → (t' : MerkleTree) × (roots' : List ℕ) × (insert_all host t ps ≡ ok t')
        × Represents host t' k (leaves ++ leaves_of ps) roots'
  insert_all-Represents t [] leaves roots r c fits = (t, roots, refl, rw (append-nil leaves) r)
  insert_all-Represents t (p ∷ ps) leaves roots r c fits =
      let (t1, e1, r1) =
        insert_two_leaves-Represents host canonical t k leaves roots r p.0 p.1 c.0 c.1.0
          (omega arith) in
      let (t2, roots2, e2, r2) =
        insert_all-Represents t1 ps (leaves ++ p.0 ∷ p.1 ∷ [])
          (root_of host (suc k) (leaves ++ p.0 ∷ p.1 ∷ []) ∷ roots) r1 c.1.1
          (omega (arith, length-append leaves (p.0 ∷ p.1 ∷ []))) in
      (t2, roots2, simp (e1, e2), rw (append_assoc leaves (p.0 ∷ p.1 ∷ []) (leaves_of ps)) at r2)

-- Where the host computes Poseidon2 under the contract's round constants, a tree of 1 to 32 levels,
-- from `init` and insertions of field elements that fit, is built without an error and stores the
-- root of the perfect tree whose leaves are the inserted ones and then the first zero hash.
pub get_last_root-perfect_root :
    (host : Host)
    → IsCanonical host
    → IsPoseidon2 host
    → (k : ℕ) (ps : List (ℕ × ℕ)) → suc k ≤ 32
    → All (λ x. x < bn256_modulus) (leaves_of ps)
    → length (leaves_of ps) ≤ 2 ^ suc k
    → (t : MerkleTree) × (build host (suc k) ps ≡ ok t)
      × (get_last_root t
          ≡ ok (
              perfect_root
                (compression host)
                (suc k)
                (λ i. get_or (leaves_of ps) i (empty_subtree 0))))
get_last_root-perfect_root host canonical computes k ps h c fits =
    let (t, e, r) = init-Represents host k h in
    let (t', roots, e', r') =
      insert_all-Represents host canonical k t ps [] (root_of host (suc k) [] ∷ []) r c
        (omega arith) in
    (
      t',
      simp (e, e'),
      get_last_root-Represents host t' k (leaves_of ps) roots r'
          ∙ ap ok (
              root_of-perfect_root host (suc k) (leaves_of ps)
                (zeroes-ZeroChain host computes (suc k) h)),
    )
