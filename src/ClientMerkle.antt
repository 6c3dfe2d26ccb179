-- ===== src/ClientMerkle.antt =====
-- app/crates/core/prover/src/merkle.rs and circuits/src/core/merkle.rs: the Merkle trees that the
-- client builds for its proofs. Field elements are numbers below the modulus.
pub mod Levels
pub mod Root
pub mod Proofs
pub mod Circuit
use stellar_private_payments.Prelude.{
  ℕ, zero, suc, ◌+◌, ◌-◌, ◌*◌, ◌/◌, ◌%◌, ◌^◌, Bool, not, ◌&&◌, ◌||◌, Option, none, some, List, [],
  ◌∷◌, ltb, ◌==◌, if◌then◌else◌, length, get_or, Outcome, ok, err, panic, ensure, ◌>>◌,
}
use stellar_private_payments.Poseidon.{Host, bn256_modulus}

-- The permutation of the reference implementation is the host's.
unfoldable pub poseidon2_compression : Host → ℕ → ℕ → ℕ
poseidon2_compression host left right = (host.permutation_t2 left right + left) % bn256_modulus

unfoldable pub zero_leaf : ℕ
zero_leaf = 0x25302288db99350344974183ce310d63b53abb9ef0f8575753eed36e0118f9ce

-- The messages of the errors.
pub data PrefixError : Type 0 where
  depth_out_of_range index_out_of_range : PrefixError

pub record MerkleProof : Type 0 where
  pub path_elements : List ℕ
  pub path_indices : ℕ
  pub root : ℕ
  pub levels : ℕ

pub record MerklePrefixTree : Type 0 where
  pub depth : ℕ
  pub leaves : List ℕ
  pub empty : List ℕ

pub record MerklePrefixTreeBuilt : Type 0 where
  pub depth : ℕ
  pub empty : List ℕ
  pub levels : List (List ℕ)

abbrev pub pad : ℕ → List ℕ → List ℕ
pad e [] = e ∷ []
pad e (x ∷ nodes) = x ∷ nodes

module _ (host : Host) where
  -- The hash of a completely empty subtree of each level, from the given one up.
  unfoldable pub empty_chain : ℕ → ℕ → List ℕ
  empty_chain zero e = e ∷ []
  empty_chain (suc n) e = e ∷ empty_chain n (poseidon2_compression host e e)

  unfoldable pub new : ℕ → List ℕ → Outcome PrefixError MerklePrefixTree
  new depth leaves =
      if depth == 0 || ltb 32 depth
      then err depth_out_of_range
      else ok (record { depth = depth; leaves = leaves; empty = empty_chain depth zero_leaf })

  -- `for i in 0..next_len`, from `i` on.
  unfoldable pub next_nodes : ℕ → List ℕ → ℕ → ℕ → List ℕ
  next_nodes e nodes i zero = []
  next_nodes e nodes i (suc n) =
      poseidon2_compression host (get_or nodes (i * 2) e) (get_or nodes (i * 2 + 1) e)
      ∷ next_nodes e nodes (i + 1) n

  -- A level from the one below it, which has a node.
  unfoldable pub level_above : ℕ → List ℕ → List ℕ
  level_above e nodes = next_nodes e nodes 0 ((length nodes + 1) / 2)

  -- `for level in 0..depth`, from a level on. The table of empty hashes has an entry for each level.
  unfoldable pub build_levels : List ℕ → ℕ → ℕ → List ℕ → List (List ℕ)
  build_levels empty level zero nodes = nodes ∷ []
  build_levels empty level (suc k) nodes =
      let e = get_or empty level 0 in
      pad e nodes ∷ build_levels empty (level + 1) k (level_above e (pad e nodes))

  unfoldable pub build : MerklePrefixTree → MerklePrefixTreeBuilt
  build t = record {
    depth = t.depth;
    empty = t.empty;
    levels = build_levels t.empty 0 t.depth t.leaves;
  }

  unfoldable pub top_nodes : List ℕ → ℕ → ℕ → List ℕ → List ℕ
  top_nodes empty level zero nodes = nodes
  top_nodes empty level (suc k) nodes =
      let e = get_or empty level 0 in top_nodes empty (level + 1) k (level_above e (pad e nodes))

  unfoldable pub root : MerklePrefixTree → ℕ
  root t = get_or (top_nodes t.empty 0 t.depth t.leaves) 0 (get_or t.empty t.depth 0)

abbrev pub leaf_count : MerklePrefixTreeBuilt → ℕ
leaf_count t = length (get_or t.levels 0 [])

-- A level that is missing gives what an empty one gives.
unfoldable pub built_root : MerklePrefixTreeBuilt → ℕ
built_root t = get_or (get_or t.levels t.depth []) 0 (get_or t.empty t.depth 0)

-- `index ^ 1`
abbrev pub sibling_index : ℕ → ℕ
sibling_index i = if i % 2 == 0 then i + 1 else i - 1

-- The loop of `proof` from a level on: the siblings, and the bits of the path. Each `|=` sets a
-- bit that is not set yet, so it adds it.
unfoldable pub proof_path : MerklePrefixTreeBuilt → ℕ → ℕ → ℕ → List ℕ × ℕ
proof_path t level zero current_index = ([], 0)
proof_path t level (suc k) current_index =
    let rest = proof_path t (level + 1) k (current_index / 2) in
    (
      get_or (get_or t.levels level []) (sibling_index current_index) (get_or t.empty level 0)
          ∷ rest.0,
      (if current_index % 2 == 0 then 0 else 2 ^ level) + rest.1,
    )

unfoldable pub proof : MerklePrefixTreeBuilt → ℕ → Outcome PrefixError MerkleProof
proof t index = do
  ensure (ltb index (leaf_count t)) index_out_of_range
  let path = proof_path t 0 t.depth index
  ok (record {
    path_elements = path.0;
    path_indices = path.1;
    root = built_root t;
    levels = t.depth;
  })

module _ (host : Host) where
  -- `chunks_exact(2)`
  unfoldable pub hash_chunks : List ℕ → List ℕ
  hash_chunks [] = []
  hash_chunks (a ∷ []) = []
  hash_chunks (a ∷ b ∷ nodes) = poseidon2_compression host a b ∷ hash_chunks nodes

  -- `while leaves.len() > 1`, with fuel.
  unfoldable pub merkle_root_loop : ℕ → List ℕ → Option (List ℕ)
  merkle_root_loop zero leaves = none
  merkle_root_loop (suc fuel) leaves =
      let rest = merkle_root_loop fuel (hash_chunks leaves) in
      if ltb 1 (length leaves) then rest else some leaves

-- A `usize` of 64 bits is a power of two.
unfoldable pub power_up_to : ℕ → ℕ → Bool
power_up_to zero n = n == 1
power_up_to (suc k) n = n == 2 ^ suc k || power_up_to k n

unfoldable pub is_power_of_two : ℕ → Bool
is_power_of_two n = power_up_to 63 n

abbrev pub first_node : {E : Type 0} → Option (List ℕ) → Outcome E ℕ
first_node none = panic
first_node (some []) = panic
first_node (some (x ∷ nodes)) = ok x

-- A loop that halves the number of nodes ends before as many rounds as there are nodes.
unfoldable pub merkle_root : {E : Type 0} → Host → List ℕ → Outcome E ℕ
merkle_root host leaves =
    if not (length leaves == 0) && is_power_of_two (length leaves)
    then first_node (merkle_root_loop host (length leaves) leaves)
    else panic
