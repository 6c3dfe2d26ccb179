-- ===== src/ClientMerkle/Root.antt =====
-- The client's roots are those of the contracts.
use stellar_private_payments.Prelude.{
  ℕ, zero, suc, ◌+◌, ◌≤◌, ◌<◌, ◌≡◌, refl, sym, ap, ◌∙◌, ◌||◌, List, [], arith, get_or, ltb, le→ltb,
  ◌==◌, ==_ne, Bool-cases, inl, inr, ok,
}
use stellar_private_payments.Poseidon.{Host, compression, empty_subtree, get_zeroes}
use stellar_private_payments.Merkle.Root.{
  prefix_root, perfect_root, prefix_root-perfect_root, pointwise-perfect_root, ZeroChain,
}
use stellar_private_payments.Pool.Tree.{MerkleTree, get_last_root}
use stellar_private_payments.Pool.Tree.Represents.{
  Represents, root_of-perfect_root, get_last_root-Represents,
}
use stellar_private_payments.ClientMerkle.{
  MerklePrefixTree, poseidon2_compression, zero_leaf, new, pad, level_above, build_levels, build,
  top_nodes, root, built_root, empty_chain,
}
use stellar_private_payments.ClientMerkle.Levels.{
  entry, poseidon2_compression-eq, level_above-next, empty_chain-ZeroChain, empty_chain-head,
  get_or-pad,
}

module _ (host : Host) (empty : List ℕ) where
  prefix_root-pad :
      (k lvl : ℕ) (nodes : List ℕ)
      → ZeroChain (poseidon2_compression host) (entry empty) k lvl
      → prefix_root (poseidon2_compression host) (entry empty) k lvl (pad (entry empty lvl) nodes)
        ≡ prefix_root (poseidon2_compression host) (entry empty) k lvl nodes
  prefix_root-pad k lvl nodes chain =
      prefix_root-perfect_root (poseidon2_compression host) (entry empty) k lvl
        (pad (entry empty lvl) nodes) chain
      ∙ pointwise-perfect_root (poseidon2_compression host) k _ _
          (get_or-pad (entry empty lvl) nodes)
      ∙ sym (prefix_root-perfect_root (poseidon2_compression host) (entry empty) k lvl nodes chain)

  pub top_nodes-prefix_root :
      (k lvl : ℕ) (nodes : List ℕ)
      → ZeroChain (poseidon2_compression host) (entry empty) k lvl
      → get_or (top_nodes host empty lvl k nodes) 0 (entry empty (lvl + k))
        ≡ prefix_root (poseidon2_compression host) (entry empty) k lvl nodes
  unfolding top_nodes prefix_root
  top_nodes-prefix_root zero lvl nodes chain = let e : lvl + zero ≡ lvl = omega arith in rw e refl
  top_nodes-prefix_root (suc k) lvl nodes chain =
      let e : lvl + suc k ≡ lvl + 1 + k = omega arith in
      let step =
        top_nodes-prefix_root k (lvl + 1)
          (level_above host (entry empty lvl) (pad (entry empty lvl) nodes))
          (λ i from to. chain i (omega arith) (omega arith)) in
      let above = level_above-next host (entry empty lvl) (pad (entry empty lvl) nodes) in
      let padded = prefix_root-pad (suc k) lvl nodes chain in
      rw e (
        step
        ∙ ap (prefix_root (poseidon2_compression host) (entry empty) k (lvl + 1)) above
        ∙ padded)

  pub build_levels-top_nodes :
      (k lvl : ℕ) (nodes : List ℕ)
      → get_or (build_levels host empty lvl k nodes) k [] ≡ top_nodes host empty lvl k nodes
  unfolding build_levels top_nodes
  build_levels-top_nodes zero lvl nodes = refl
  build_levels-top_nodes (suc k) lvl nodes = build_levels-top_nodes k (lvl + 1) _

-- The cached tree has the root of the tree it is built from.
pub built_root-root : (host : Host) (t : MerklePrefixTree) → built_root (build host t) ≡ root host t
unfolding built_root build root
built_root-root host t = rw (build_levels-top_nodes host t.empty t.depth 0 t.leaves) refl

-- The tree that `new` makes.
abbrev pub prefix : Host → ℕ → List ℕ → MerklePrefixTree
prefix host depth leaves = record {
  depth = depth;
  leaves = leaves;
  empty = empty_chain host depth zero_leaf;
}

pub new-eq :
    (host : Host) (depth : ℕ) (leaves : List ℕ) (t : MerklePrefixTree)
    → new host depth leaves ≡ ok t
    → prefix host depth leaves ≡ t
unfolding new
new-eq host depth leaves t h = elim (Bool-cases (depth == 0 || ltb 32 depth)) [
  | inl outside ↦ absurd (ground arith)
  | inr inside ↦ ground arith
]

empty_root :
    (host : Host) (depth : ℕ) (leaves : List ℕ)
    → root host (prefix host depth leaves)
      ≡ perfect_root (compression host) depth (λ i. get_or leaves i zero_leaf)
unfolding root
empty_root host depth leaves =
    let empty = empty_chain host depth zero_leaf in
    let chain = empty_chain-ZeroChain host depth zero_leaf in
    let e : 0 + depth ≡ depth = omega arith in
    let top = top_nodes-prefix_root host empty depth 0 leaves chain in
    rw e at top
    ∙ prefix_root-perfect_root (poseidon2_compression host) (entry empty) depth 0 leaves chain
    ∙ rw (empty_chain-head host depth zero_leaf, poseidon2_compression-eq host) refl

-- A tree that `new` makes has the root of the perfect tree whose leaves are the given ones, and
-- after them zero leaves.
pub root-perfect_root :
    (host : Host) (depth : ℕ) (leaves : List ℕ) (t : MerklePrefixTree)
    → new host depth leaves ≡ ok t
    → root host t ≡ perfect_root (compression host) depth (λ i. get_or leaves i zero_leaf)
root-perfect_root host depth leaves t h =
    rw (← new-eq host depth leaves t h) (empty_root host depth leaves)

new-some :
    (host : Host) (depth : ℕ) (leaves : List ℕ)
    → 0 < depth
    → depth ≤ 32
    → (t : MerklePrefixTree) × (new host depth leaves ≡ ok t)
unfolding new
new-some host depth leaves low high =
    (prefix host depth leaves, rw (==_ne depth 0 (λ e. omega arith), le→ltb 32 depth high) refl)

zero_first :
    (host : Host) (depth : ℕ) (leaves : List ℕ)
    → perfect_root (compression host) depth (λ i. get_or leaves i (empty_subtree 0))
      ≡ perfect_root (compression host) depth (λ i. get_or leaves i zero_leaf)
unfolding get_zeroes zero_leaf
zero_first host depth leaves = refl

-- The client's root for the leaves that the pool's tree stands for is the root that the pool
-- stores, where each zero hash of the pool is the hash of two of the level below.
pub root-get_last_root :
    (host : Host) (m : MerkleTree) (k : ℕ) (leaves roots : List ℕ)
    → Represents host m k leaves roots
    → ZeroChain (compression host) empty_subtree (suc k) 0
    → (t : MerklePrefixTree) × (new host (suc k) leaves ≡ ok t)
      × (get_last_root m ≡ ok (root host t))
root-get_last_root host m k leaves roots r chain =
    let (t, made) = new-some host (suc k) leaves (omega arith) r.levels_le in
    (
      t,
      made,
      get_last_root-Represents host m k leaves roots r
          ∙ ap ok (
              root_of-perfect_root host (suc k) leaves chain
              ∙ zero_first host (suc k) leaves
              ∙ sym (root-perfect_root host (suc k) leaves t made)),
    )
