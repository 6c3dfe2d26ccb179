-- ===== src/Pool/Tree/Represents.antt =====
-- What a store of the tree stands for: the list of all leaves, and the list of all roots that the
-- tree has had.
use stellar_private_payments.Prelude.{
  ok, Bool, true, ◌↔◌, ◌%◌, ◌+◌, ◌-◌, ◌≢◌, ◌∙◌, arith, get_or, ℕ, suc, ◌^◌, ◌≤◌, ◌<◌, ◌≡◌, none,
  some, List, length, get_elem?,
}
use stellar_private_payments.Poseidon.{Host, compression, empty_subtree}
use stellar_private_payments.Merkle.Levels.{pending, pairs}
use stellar_private_payments.Merkle.Frontier.{Frontier, Canonical, ZeroesStored}
use stellar_private_payments.Merkle.Root.{
  prefix_root, perfect_root, prefix_root-perfect_root, ZeroChain,
}
use stellar_private_payments.Pool.Tree.{MerkleTree, root_history_size, get_last_root, is_known_root}
use stellar_private_payments.Pool.Tree.Ring.{Ring, is_known_root_iff}

-- The root of the tree of `levels` levels with these first leaves.
abbrev pub root_of : Host → ℕ → List ℕ → ℕ
root_of host levels leaves = prefix_root (compression host) empty_subtree levels 0 leaves

-- The tree has `k + 1` levels. `roots` are newest first.
pub record Represents (host : Host) (t : MerkleTree) (k : ℕ) (leaves roots : List ℕ) : Type 0 where
  pub index : ℕ
  pub levels_le : suc k ≤ 32
  pub levels_stored : t.levels ≡ some (suc k)
  pub next_stored : t.next_index ≡ some (length leaves)
  pub index_stored : t.current_root_index ≡ some index
  pub index_lt : index < root_history_size
  pub even : pending leaves ≡ none
  pub room : length leaves ≤ 2 ^ suc k
  pub canonical : Canonical leaves
  pub zeroes_stored : ZeroesStored t.zeroes empty_subtree k 1
  pub frontier : Frontier (compression host) k 1 t.filled_subtree (pairs (compression host) leaves)
  pub ring : Ring t.root index roots
  pub latest : get_elem? roots 0 ≡ some (root_of host (suc k) leaves)

-- Where each zero hash is the hash of two of the level below, the root is that of the perfect tree
-- whose leaves are these and then zero leaves.
pub root_of-perfect_root :
    (host : Host) (levels : ℕ) (leaves : List ℕ)
    → ZeroChain (compression host) empty_subtree levels 0
    → root_of host levels leaves
      ≡ perfect_root (compression host) levels (λ i. get_or leaves i (empty_subtree 0))
root_of-perfect_root host levels leaves =
    prefix_root-perfect_root (compression host) empty_subtree levels 0 leaves

module _ (host : Host) (t : MerkleTree) (k : ℕ) (leaves roots : List ℕ)
    (r : Represents host t k leaves roots) where
  pub get_last_root-Represents : get_last_root t ≡ ok (root_of host (suc k) leaves)
  unfolding get_last_root
  get_last_root-Represents =
      let slot : (r.index + root_history_size - 0) % root_history_size ≡ r.index =
        omega (arith, r.index_lt) in
      simp (r.index_stored, rw slot at (r.ring 0 (omega arith)) ∙ r.latest)

  -- The known roots are the last `root_history_size` roots of the tree, but zero.
  pub is_known_root-Represents :
      (root : ℕ)
      → (known : Bool) × (is_known_root t root ≡ ok known)
        × ((known ≡ true)
            ↔ ((root ≢ 0) × ((j : ℕ) × (j < root_history_size) × (get_elem? roots j ≡ some root))))
  is_known_root-Represents root =
      is_known_root_iff t r.index roots root r.index_stored r.index_lt r.ring
