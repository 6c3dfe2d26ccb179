-- ===== src/Pool/Tree.antt =====
-- contracts/pool/src/merkle_with_history.rs: the pool's Merkle tree of commitments, with a ring
-- buffer of recent roots. The record holds the persistent entries under `MerkleDataKey`: an entry
-- that was never written is `none`. A u32 or a u64 is a number, and each checked operation has its
-- bound written out.
pub mod Ring
pub mod Represents
pub mod Insert
pub mod Init
pub mod Built
use stellar_private_payments.Prelude.{
  ℕ, zero, suc, ◌+◌, ◌-◌, ◌/◌, ◌%◌, Bool, true, false, ◌||◌, not, Option, none, some, ltb, leb,
  ◌==◌, if◌then◌else◌, get_elem?, update, Outcome, ok, panic, ok_or, ensure, ◌>>=◌, ◌>>◌,
}
use stellar_private_payments.Machine.{checked_add, checked_shl, to_u32, is_none}
use stellar_private_payments.Poseidon.{Host, poseidon2_compress, get_zeroes}
use stellar_private_payments.Merkle.Frontier.{Levels}
use stellar_private_payments.Merkle.Climb.{climb}

abbrev pub root_history_size : ℕ
root_history_size = 90

pub data MerkleError : Type 0 where
  already_initialized wrong_levels merkle_tree_full next_index_not_even : MerkleError
  not_initialized overflow : MerkleError

pub record MerkleTree : Type 0 where
  pub levels : Option ℕ
  pub current_root_index : Option ℕ
  pub next_index : Option ℕ
  pub filled_subtree : Levels
  pub zeroes : Levels
  pub root : Levels

-- A contract's store before its constructor.
abbrev pub no_entries : MerkleTree
no_entries = record {
  levels = none;
  current_root_index = none;
  next_index = none;
  filled_subtree = λ i. none;
  zeroes = λ i. none;
  root = λ i. none;
}

-- An entry is there and has this value.
abbrev pub holds : Option ℕ → ℕ → Bool
holds none r = false
holds (some x) r = x == r

-- `for i in i..i + n`: the zero hash of a level is its first filled subtree too.
unfoldable pub set_zeroes : ℕ → ℕ → MerkleTree → Outcome MerkleError MerkleTree
set_zeroes zero i t = ok t
set_zeroes (suc n) i t = do
  z ← ok_or (get_elem? get_zeroes i) not_initialized
  set_zeroes n (i + 1) (record t {
    filled_subtree = update t.filled_subtree i (some z);
    zeroes = update t.zeroes i (some z);
  })

unfoldable pub init : MerkleTree → ℕ → Outcome MerkleError MerkleTree
init t levels = do
  ensure (not (levels == 0 || ltb 32 levels)) wrong_levels
  ensure (is_none t.current_root_index) already_initialized
  t' ← set_zeroes (levels + 1) 0 (record t { levels = some levels })
  root_0 ← ok_or (get_elem? get_zeroes levels) not_initialized
  ok (record t' {
    root = update t'.root 0 (some root_0);
    current_root_index = some 0;
    next_index = some 0;
  })

-- The new tree, and the indexes of the two leaves.
unfoldable pub insert_two_leaves :
    Host → MerkleTree → ℕ → ℕ → Outcome MerkleError ((ℕ × ℕ) × MerkleTree)
insert_two_leaves host t leaf_1 leaf_2 = do
  levels ← ok_or t.levels not_initialized
  next_index ← ok_or t.next_index not_initialized
  root_index ← ok_or t.current_root_index not_initialized
  max_leaves ← ok_or (checked_shl levels) wrong_levels
  ensure (next_index % 2 == 0) next_index_not_even
  after ← ok_or (checked_add 64 next_index 2) overflow
  ensure (leb after max_leaves) merkle_tree_full
  current_hash ← poseidon2_compress host leaf_1 leaf_2
  r ←
      climb host not_initialized t.zeroes (levels - 1) 1 (next_index / 2) current_hash
        t.filled_subtree
  sum ← ok_or (checked_add 32 root_index 1) overflow
  left ← ok_or (to_u32 next_index) merkle_tree_full
  sibling ← ok_or (checked_add 64 next_index 1) overflow
  right ← ok_or (to_u32 sibling) merkle_tree_full
  ok (
    (left, right),
    record t {
      filled_subtree = r.1;
      root = update t.root (sum % root_history_size) (some r.0);
      current_root_index = some (sum % root_history_size);
      next_index = some after;
    },
  )

-- The loop of `is_known_root` from slot `i`. It ends when it is back at `current`, which takes
-- `root_history_size` rounds at most: a call that ran out of fuel would be a `panic`.
unfoldable pub search_roots : ℕ → MerkleTree → ℕ → ℕ → ℕ → Outcome MerkleError Bool
search_roots zero t root current i = panic
search_roots (suc fuel) t root current i =
    let further = (do
      sum ← ok_or (checked_add 32 i 1) overflow
      let i' = sum % root_history_size
      let rest = search_roots fuel t root current i'
      if i' == current then ok false else rest) in
    if holds (t.root i) root then ok true else further

unfoldable pub is_known_root : MerkleTree → ℕ → Outcome MerkleError Bool
is_known_root t root = if root == 0 then ok false else do
  current ← ok_or t.current_root_index not_initialized
  search_roots root_history_size t root current current

unfoldable pub get_last_root : MerkleTree → Outcome MerkleError ℕ
get_last_root t = do
  current ← ok_or t.current_root_index not_initialized
  ok_or (t.root current) not_initialized
