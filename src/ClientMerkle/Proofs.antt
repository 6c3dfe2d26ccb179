-- ===== src/ClientMerkle/Proofs.antt =====
-- The client's proofs lead from a leaf to the root.
use native.Mathlib.Nat.{pow-suc}
use stellar_private_payments.Prelude.{
  ℕ, zero, suc, ◌+◌, ◌-◌, ◌*◌, ◌/◌, ◌%◌, ◌^◌, ◌≤◌, ◌<◌, ◌≡◌, refl, ap, ◌∙◌, true, List, [], ◌∷◌,
  arith, length, get_or, ltb, lt→ltb, ◌==◌, ==_iff, if◌then◌else◌, ok, Bool-cases, inl, inr,
}
use stellar_private_payments.Poseidon.{Host}
use stellar_private_payments.Merkle.Root.{ZeroChain, get_or-next}
use stellar_private_payments.ClientMerkle.{
  MerkleProof, MerklePrefixTree, MerklePrefixTreeBuilt, poseidon2_compression, zero_leaf, new, pad,
  level_above, build_levels, build, top_nodes, root, built_root, leaf_count, sibling_index,
  proof_path, proof,
}
use stellar_private_payments.ClientMerkle.Levels.{
  entry, level_above-next, empty_chain-ZeroChain, empty_chain-head, get_or-pad,
}
use stellar_private_payments.ClientMerkle.Root.{built_root-root, prefix, new-eq}

-- The root that a path gives to a leaf, as the circuit computes it: the lowest bit of the indices
-- tells on which side the first sibling is.
unfoldable pub circuit_root : Host → List ℕ → ℕ → ℕ → ℕ
circuit_root host [] indices h = h
circuit_root host (sibling ∷ path) indices h = circuit_root host path (indices / 2) (
    if indices % 2 == 0
    then poseidon2_compression host h sibling
    else poseidon2_compression host sibling h)

-- The bits of a number are the parity and the bits of its half.
halves : (c m : ℕ) → (if c % 2 == 0 then 0 else m) + c / 2 * (2 * m) ≡ c * m
halves zero m = omega arith
halves (suc zero) m = omega arith
halves (suc (suc c)) m =
    let q : suc (suc c) / 2 ≡ c / 2 + 1 = omega arith in
    let p : suc (suc c) % 2 ≡ c % 2 = omega arith in
    let h = halves c m in rw (q, p) (omega (arith, h))

module _ (t : MerklePrefixTreeBuilt) where
  proof_path-indices : (k level c : ℕ) → c < 2 ^ k → (proof_path t level k c).1 ≡ c * 2 ^ level
  unfolding proof_path
  proof_path-indices zero level c h = let z : c ≡ 0 = omega arith in rw z (omega arith)
  proof_path-indices (suc k) level c h =
      let p = pow-suc 2 k in
      let q = pow-suc 2 level in
      let e : level + 1 ≡ suc level = omega arith in
      let rest = proof_path-indices k (level + 1) (c / 2) (omega arith) in
      let two : 2 ^ (level + 1) ≡ 2 * 2 ^ level = rw e (omega arith) in
      rw (rest, two) (halves c (2 ^ level))

  proof_path-length : (k level c : ℕ) → length (proof_path t level k c).0 ≡ k
  unfolding proof_path
  proof_path-length zero level c = refl
  proof_path-length (suc k) level c = ap suc (proof_path-length k (level + 1) (c / 2))

module _ (host : Host) (t : MerklePrefixTreeBuilt) where
  -- The two nodes of a pair, of which one is at the index.
  pair_hash :
      (nodes : List ℕ) (e c : ℕ)
      → (if c % 2 == 0
          then poseidon2_compression host (get_or nodes c e) (get_or nodes (sibling_index c) e)
          else poseidon2_compression host (get_or nodes (sibling_index c) e) (get_or nodes c e))
        ≡ poseidon2_compression host
            (get_or nodes (c / 2 + c / 2) e)
            (get_or nodes (suc (c / 2 + c / 2)) e)
  pair_hash nodes e c = elim (Bool-cases (c % 2 == 0)) [
    | inl even ↦
        let z = (==_iff (c % 2) 0).0 even in
        let a : c / 2 + c / 2 ≡ c = omega arith in
        let b : c + 1 ≡ suc c = omega arith in rw (even, a, b) refl
    | inr odd ↦
        let z : c % 2 ≡ 1 = ground arith in
        let a : suc (c / 2 + c / 2) ≡ c = omega arith in
        let b : c - 1 ≡ c / 2 + c / 2 = omega arith in rw (odd, a, b) refl
  ]

  -- The hash of the pair is the node above.
  parent_node :
      (nodes : List ℕ) (e up c : ℕ)
      → poseidon2_compression host e e ≡ up
      → (if c % 2 == 0
          then poseidon2_compression host
              (get_or nodes c e)
              (get_or (pad e nodes) (sibling_index c) e)
          else poseidon2_compression host
              (get_or (pad e nodes) (sibling_index c) e)
              (get_or nodes c e))
        ≡ get_or (level_above host e (pad e nodes)) (c / 2) up
  parent_node nodes e up c z =
      let above = get_or-next (poseidon2_compression host) e (pad e nodes) (c / 2) in
      let left = get_or-pad e nodes (c / 2 + c / 2) in
      let right = get_or-pad e nodes (suc (c / 2 + c / 2)) in
      rw
        (
          get_or-pad e nodes (sibling_index c),
          level_above-next host e (pad e nodes),
          ← z,
          above,
          left,
          right,
        )
        (pair_hash nodes e c)

  -- The path from a node of a level leads to the first node of the top.
  circuit_root-top_nodes :
      (k level c : ℕ) (nodes : List ℕ)
      → c < 2 ^ k
      → ((j : ℕ)
          → get_or t.levels (level + j) [] ≡ get_or (build_levels host t.empty level k nodes) j [])
      → ZeroChain (poseidon2_compression host) (entry t.empty) k level
      → circuit_root host (proof_path t level k c).0 c (get_or nodes c (entry t.empty level))
        ≡ get_or (top_nodes host t.empty level k nodes) 0 (entry t.empty (level + k))
  unfolding proof_path circuit_root top_nodes build_levels
  circuit_root-top_nodes zero level c nodes h stored chain =
      let z : c ≡ 0 = omega arith in let e : level + zero ≡ level = omega arith in rw (z, e) refl
  circuit_root-top_nodes (suc k) level c nodes h stored chain =
      let e = entry t.empty level in
      let p = pow-suc 2 k in
      let z : level + 0 ≡ level = omega arith in
      let here : get_or t.levels level [] ≡ pad e nodes = rw z at (stored 0) in
      let above = level_above host e (pad e nodes) in
      let rest =
        circuit_root-top_nodes k (level + 1) (c / 2) above (omega arith)
          (λ j. let s : level + 1 + j ≡ level + suc j = omega arith in rw s (stored (suc j)))
          (λ i from to. chain i (omega arith) (omega arith)) in
      let up : poseidon2_compression host e e ≡ entry t.empty (level + 1) =
        chain level (omega arith) (omega arith) in
      let top : level + suc k ≡ level + 1 + k = omega arith in
      let parent = parent_node nodes e (entry t.empty (level + 1)) c up in
      rw (here, parent, top) rest

length-pad : (e : ℕ) (nodes : List ℕ) → length nodes ≤ length (pad e nodes)
length-pad e [] = omega arith
length-pad e (x ∷ nodes) = omega arith

first_level :
    (host : Host) (empty : List ℕ) (k : ℕ) (nodes : List ℕ)
    → length nodes ≤ length (get_or (build_levels host empty 0 k nodes) 0 [])
unfolding build_levels
first_level host empty zero nodes = omega arith
first_level host empty (suc k) nodes = length-pad (get_or empty 0 0) nodes

stored_levels :
    (host : Host) (t : MerklePrefixTree) (j : ℕ)
    → get_or (build host t).levels (0 + j) []
      ≡ get_or (build_levels host (build host t).empty 0 t.depth t.leaves) j []
unfolding build
stored_levels host t j = let e : 0 + j ≡ j = omega arith in rw e refl

leaf_count_ge : (host : Host) (t : MerklePrefixTree) → length t.leaves ≤ leaf_count (build host t)
unfolding build
leaf_count_ge host t = first_level host t.empty t.depth t.leaves

proof-run :
    (host : Host) (t : MerklePrefixTree) (index : ℕ)
    → index < length t.leaves
    → proof (build host t) index
      ≡ ok (record {
        path_elements = (proof_path (build host t) 0 t.depth index).0;
        path_indices = (proof_path (build host t) 0 t.depth index).1;
        root = built_root (build host t);
        levels = t.depth;
      })
unfolding proof build
proof-run host t index h =
    let many : ltb index (leaf_count (build host t)) ≡ true =
      lt→ltb index (leaf_count (build host t)) (omega (arith, leaf_count_ge host t)) in
    rw many refl

prefix_path :
    (host : Host) (depth : ℕ) (leaves : List ℕ) (index : ℕ)
    → index < 2 ^ depth
    → circuit_root host
        (proof_path (build host (prefix host depth leaves)) 0 depth index).0
        index
        (get_or leaves index zero_leaf)
      ≡ root host (prefix host depth leaves)
unfolding root build
prefix_path host depth leaves index h =
    let t = prefix host depth leaves in
    let e : 0 + depth ≡ depth = omega arith in
    let path =
      circuit_root-top_nodes host (build host t) depth 0 index leaves h (stored_levels host t)
        (empty_chain-ZeroChain host depth zero_leaf) in
    let first = empty_chain-head host depth zero_leaf in let path' = rw (e, first) at path in path'

prefix_proof :
    (host : Host) (depth : ℕ) (leaves : List ℕ) (index : ℕ)
    → index < length leaves
    → length leaves ≤ 2 ^ depth
    → (p : MerkleProof) × (proof (build host (prefix host depth leaves)) index ≡ ok p)
      × (length p.path_elements ≡ depth)
      × (p.path_indices ≡ index)
      × (circuit_root host p.path_elements p.path_indices (get_or leaves index zero_leaf)
          ≡ root host (prefix host depth leaves))
      × (p.root ≡ root host (prefix host depth leaves))
prefix_proof host depth leaves index h room =
    let t = prefix host depth leaves in
    let small : index < 2 ^ depth = omega arith in
    let bits : (proof_path (build host t) 0 depth index).1 ≡ index =
      proof_path-indices (build host t) depth 0 index small ∙ omega arith in
    (
      _,
      proof-run host t index h,
      proof_path-length (build host t) depth 0 index,
      bits,
      rw bits (prefix_path host depth leaves index small),
      built_root-root host t,
    )

-- A proof for one of the leaves exists, has one sibling for each level and the index as its bits,
-- and leads from the leaf to the root.
pub proof-circuit_root :
    (host : Host) (depth : ℕ) (leaves : List ℕ) (t : MerklePrefixTree)
    → new host depth leaves ≡ ok t
    → (index : ℕ) → index < length leaves
    → length leaves ≤ 2 ^ depth
    → (p : MerkleProof) × (proof (build host t) index ≡ ok p)
      × (length p.path_elements ≡ depth)
      × (p.path_indices ≡ index)
      × (circuit_root host p.path_elements p.path_indices (get_or leaves index zero_leaf)
          ≡ root host t)
      × (p.root ≡ root host t)
proof-circuit_root host depth leaves t made index h room =
    rw (← new-eq host depth leaves t made) (prefix_proof host depth leaves index h room)
