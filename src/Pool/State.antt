-- ===== src/Pool/State.antt =====
-- The data of contracts/pool/src/pool.rs and of contracts/types/src/lib.rs that it uses, the
-- pool's entries, and what a call of the pool takes from outside.
use stellar_private_payments.Prelude.{ℕ, Bool, ◌||◌, Option, List, length, ◌==◌}
use stellar_private_payments.Prelude.Int.{ℤ}
use stellar_private_payments.Poseidon.{Host}
use stellar_private_payments.Soroban.{Address, Bytes}
use stellar_private_payments.Pool.Tree.{MerkleTree, MerkleError}

pub data Error : Type 0 where
  not_authorized merkle_tree_full already_initialized wrong_levels next_index_not_even : Error
  wrong_ext_amount invalid_proof unknown_root already_spent_nullifier wrong_ext_hash : Error
  not_initialized overflow non_canonical_public_input : Error

-- `impl From<MerkleError> for Error`
unfoldable pub from_merkle : MerkleError → Error
from_merkle MerkleError.already_initialized = already_initialized
from_merkle MerkleError.merkle_tree_full = merkle_tree_full
from_merkle MerkleError.wrong_levels = wrong_levels
from_merkle MerkleError.next_index_not_even = next_index_not_even
from_merkle MerkleError.not_initialized = not_initialized
from_merkle MerkleError.overflow = overflow

-- The points by their bytes.
pub record Groth16Proof : Type 0 where
  pub a : Bytes
  pub b : Bytes
  pub c : Bytes

unfoldable pub is_empty : Groth16Proof → Bool
is_empty p = length p.a == 0 || length p.b == 0 || length p.c == 0

-- A 32-byte string is the number that it spells, most significant byte first.
pub record Proof : Type 0 where
  pub proof : Groth16Proof
  pub root : ℕ
  pub input_nullifiers : List ℕ
  pub output_commitment0 : ℕ
  pub output_commitment1 : ℕ
  pub public_amount : ℕ
  pub ext_data_hash : ℕ
  pub asp_membership_root : ℕ
  pub asp_non_membership_root : ℕ

pub record ExtData : Type 0 where
  pub recipient : Address
  pub ext_amount : ℤ
  pub encrypted_output0 : Bytes
  pub encrypted_output1 : Bytes

pub data Event : Type 0 where
  new_commitment : ℕ → ℕ → Bytes → Event
  new_nullifier : ℕ → Event

-- A call of `transfer` on a token contract.
pub record Transfer : Type 0 where
  pub token : Address
  pub from : Address
  pub to : Address
  pub amount : ℕ

-- The entries under `DataKey`, the tree's entries, the events published and the token transfers
-- made, oldest first.
pub record Pool : Type 0 where
  pub admin : Option Address
  pub token : Option Address
  pub verifier : Option Address
  pub maximum_deposit_amount : Option ℕ
  pub nullifiers : Option (ℕ → Option Bool)
  pub asp_membership : Option Address
  pub asp_non_membership : Option Address
  pub tree : MerkleTree
  pub events : List Event
  pub transfers : List Transfer

-- One invocation of the pool: who signed it, the pool's own address, the host's hashes
-- (`ext_data_digest` is the Keccak-256 digest of the data's XDR, as a number), and how the other
-- contracts answer during it: `none` and a token's `false` are a trap.
pub record Env : Type 0 where
  pub host : Host
  pub authorized : Address → Bool
  pub current_contract_address : Address
  pub ext_data_digest : ExtData → ℕ
  pub transfer_accepted : Transfer → Bool
  pub membership_root : Address → Option ℕ
  pub non_membership_root : Address → Option ℕ
  pub verify : Address → Groth16Proof → List ℕ → Option Bool
