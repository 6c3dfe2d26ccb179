-- ===== src/Examples/ClientMerkleRuns.antt =====
-- The client's trees of two levels, and the theorems there.
use stellar_private_payments.Prelude.{ℕ, ◌≡◌, refl, List, [], ◌∷◌, arith, length, get_or, ok}
use stellar_private_payments.Poseidon.{compression}
use stellar_private_payments.Merkle.Root.{perfect_root}
use stellar_private_payments.Pool.Tree
use stellar_private_payments.Pool.Tree.Represents.{root_of}
use stellar_private_payments.ClientMerkle
use stellar_private_payments.ClientMerkle.{
  PrefixError, MerklePrefixTree, MerkleProof, new, proof, merkle_root, zero_leaf, root,
  build_levels, leaf_count,
}
use stellar_private_payments.ClientMerkle.Root.{prefix, root-get_last_root}
use stellar_private_payments.ClientMerkle.Proofs.{circuit_root, proof-circuit_root}
use stellar_private_payments.ClientMerkle.Circuit.{
  full_leaves, merkle_root-perfect_root, root-merkle_root,
}
use stellar_private_payments.Examples.Hosts.{chained}
use stellar_private_payments.Examples.PoolRuns.{deposited_pool, deposited-Represents, chain}

abbrev two_leaves : List ℕ
two_leaves = 21 ∷ 22 ∷ []

abbrev tree : MerklePrefixTree
tree = prefix chained 2 two_leaves

made : new chained 2 two_leaves ≡ ok tree
unfolding new
made = refl

root-get_last_root_example :
    (t : MerklePrefixTree) × (new chained 2 two_leaves ≡ ok t)
    × (Tree.get_last_root deposited_pool.tree ≡ ok (root chained t))
root-get_last_root_example =
    root-get_last_root chained deposited_pool.tree 1 two_leaves
      (root_of chained 2 (21 ∷ 22 ∷ []) ∷ root_of chained 2 [] ∷ []) deposited-Represents chain

proof-circuit_root_example :
    (p : MerkleProof) × (proof (ClientMerkle.build chained tree) 1 ≡ ok p)
    × (length p.path_elements ≡ 2)
    × (p.path_indices ≡ 1)
    × (circuit_root chained p.path_elements p.path_indices (get_or two_leaves 1 zero_leaf)
        ≡ root chained tree)
    × (p.root ≡ root chained tree)
proof-circuit_root_example =
    proof-circuit_root chained 2 two_leaves tree made 1 (omega arith) (omega arith)

merkle_root-perfect_root_example :
    merkle_root {E = PrefixError} chained (21 ∷ 22 ∷ 23 ∷ 24 ∷ [])
    ≡ ok (perfect_root (compression chained) 2 (λ i. get_or (21 ∷ 22 ∷ 23 ∷ 24 ∷ []) i 0))
merkle_root-perfect_root_example =
    merkle_root-perfect_root chained 2 (21 ∷ 22 ∷ 23 ∷ 24 ∷ []) (omega arith) refl

root-merkle_root_example :
    merkle_root {E = PrefixError} chained (full_leaves 2 two_leaves) ≡ ok (root chained tree)
root-merkle_root_example = root-merkle_root chained 2 two_leaves tree made (omega arith)

-- A built tree without leaves counts one leaf, the zero leaf that stands for the lowest level.
one_zero_leaf : leaf_count (ClientMerkle.build chained (prefix chained 2 [])) ≡ 1
unfolding ClientMerkle.build build_levels
one_zero_leaf = refl
