-- ===== src/AspNonMembership.antt =====
-- contracts/asp-non-membership/src/lib.rs: the contract that keeps the sparse Merkle tree of the
-- blocked keys. A node's key is its hash, and its entry is the list that the source stores: [1, key,
-- value] for a leaf, [left, right] for an internal node. Zero is the hash of the empty tree.
pub mod Find
pub mod Represents
pub mod Verify
pub mod Shape
pub mod Insertion
pub mod Deletion
pub mod Proof
pub mod Grow
pub mod Refusals
pub mod Insert
pub mod NewKey
pub mod Rebuilt
pub mod Rebuild
pub mod Around
pub mod Added
pub mod Rounds
pub mod Siblings
pub mod Kept
pub mod Tree
use stellar_private_payments.Prelude.{
  ℕ, zero, suc, ◌/◌, ◌%◌, Bool, true, false, Option, none, some, List, [], ◌∷◌, ◌==◌, if◌then◌else◌,
  Outcome, ok, err, ok_or, ◌>>=◌, ◌>>◌,
}
use stellar_private_payments.Poseidon.{Host, poseidon2_compress, poseidon2_hash2}
use stellar_private_payments.Soroban
use stellar_private_payments.Soroban.{Address}

pub data Error : Type 0 where
  not_authorized key_not_found key_already_exists invalid_proof not_initialized overflow : Error

pub data Event : Type 0 where
  leaf_inserted : ℕ → ℕ → ℕ → Event
  leaf_deleted : ℕ → ℕ → Event

abbrev pub Nodes : Type 0
Nodes = ℕ → Option (List ℕ)

pub record AspNonMembership : Type 0 where
  pub admin : Option Address
  pub root : Option ℕ
  pub nodes : Nodes
  pub events : List Event

pub record FindResult : Type 0 where
  pub found : Bool
  pub siblings : List ℕ
  pub found_value : ℕ
  pub not_found_key : ℕ
  pub not_found_value : ℕ
  pub is_old0 : Bool

-- A contract before its constructor.
abbrev pub no_blocked : AspNonMembership
no_blocked = record { admin = none; root = none; nodes = λ h. none; events = [] }

unfoldable pub constructor : AspNonMembership → Address → Outcome Error AspNonMembership
constructor s admin = ok (record s { admin = some admin; root = some 0 })

unfoldable pub update_admin :
    (Address → Bool) → AspNonMembership → Address → Outcome Error AspNonMembership
update_admin authorized s new_admin = do
  admin ← Soroban.update_admin authorized s.admin new_admin
  ok (record s { admin = some admin })

abbrev pub hash_leaf : Host → ℕ → ℕ → Outcome Error ℕ
hash_leaf host key value = poseidon2_hash2 host key value (some 1)

abbrev pub hash_internal : Host → ℕ → ℕ → Outcome Error ℕ
hash_internal host left right = poseidon2_compress host left right

-- `for _ in 0..n`, from the least significant bit.
unfoldable pub bits_of : ℕ → ℕ → List Bool
bits_of zero k = []
bits_of (suc n) k = (k % 2 == 1) ∷ bits_of n (k / 2)

abbrev pub split_bits : ℕ → List Bool
split_bits key = bits_of 256 key

-- The two shapes of a node's entry.
pub data Node : Type 0 where
  leaf_node internal_node : ℕ → ℕ → Node
  bad_node : Node

abbrev pub node_of : List ℕ → Node
node_of (l ∷ r ∷ []) = internal_node l r
node_of (tag ∷ k ∷ v ∷ []) = if tag == 1 then leaf_node k v else bad_node
node_of _ = bad_node

abbrev pub empty_branch : ℕ → FindResult
empty_branch key = record {
  found = false;
  siblings = [];
  found_value = 0;
  not_found_key = key;
  not_found_value = 0;
  is_old0 = true;
}

abbrev pub at_leaf : ℕ → ℕ → ℕ → FindResult
at_leaf key stored_key stored_value =
    if stored_key == key
    then record {
      found = true;
      siblings = [];
      found_value = stored_value;
      not_found_key = 0;
      not_found_value = 0;
      is_old0 = false;
    }
    else record {
      found = false;
      siblings = [];
      found_value = 0;
      not_found_key = stored_key;
      not_found_value = stored_value;
      is_old0 = false;
    }

-- What is at a hash; `descend` goes on from an internal node.
unfoldable pub at_node :
    Nodes → ℕ → ℕ → (ℕ → ℕ → Outcome Error FindResult) → Outcome Error FindResult
at_node nodes key root descend = elim (root == 0) [
  | true ↦ ok (empty_branch key)
  | false ↦ (do
    node_data ← ok_or (nodes root) key_not_found
    elim (node_of node_data) [
      | leaf_node k v ↦ ok (at_leaf key k v)
      | internal_node left right ↦ descend left right
      | bad_node ↦ err key_not_found
    ])
]

abbrev pub with_sibling : ℕ → FindResult → FindResult
with_sibling sibling r = record r { siblings = sibling ∷ r.siblings }

-- The bits are those from the level on; at level 256 none is left.
unfoldable pub find_key_internal : Nodes → ℕ → List Bool → ℕ → Outcome Error FindResult
find_key_internal nodes key [] root = at_node nodes key root (λ left right. err key_not_found)
find_key_internal nodes key (bit ∷ key_bits) root = at_node nodes key root (λ left right. do
  result ← find_key_internal nodes key key_bits (if bit then right else left)
  ok (with_sibling (if bit then left else right) result))

-- `unwrap_or(zero)`
abbrev pub root_or_zero : Option ℕ → ℕ
root_or_zero none = 0
root_or_zero (some r) = r

unfoldable pub find_key : AspNonMembership → ℕ → Outcome Error FindResult
find_key s key = find_key_internal s.nodes key (split_bits key) (root_or_zero s.root)

-- The two hashes in the order that the bit tells.
unfoldable pub hash_by_bit : Host → Bool → ℕ → ℕ → Outcome Error ℕ
hash_by_bit host bit sibling h =
    if bit then hash_internal host sibling h else hash_internal host h sibling

abbrev pub children : Bool → ℕ → ℕ → List ℕ
children bit sibling h = if bit then sibling ∷ h ∷ [] else h ∷ sibling ∷ []

unfoldable pub get_root : AspNonMembership → Outcome Error ℕ
get_root s = ok_or s.root not_initialized
