-- ===== src/Pool/Contract.antt =====
-- contracts/pool/src/pool.rs: the pool contract. A method returns the new pool; of an error or a
-- trap the host keeps nothing.
pub mod Success
pub mod Checks
pub mod Effects
pub mod Payments
pub mod Transact
pub mod History
pub mod Admin
pub mod Refinement
pub mod Conservation
use stellar_private_payments.Prelude.{
  ℕ, ◌%◌, Bool, true, false, ◌&&◌, not, Option, none, some, List, [], ◌∷◌, ◌++◌, replicate, length,
  leb, ◌==◌, if◌then◌else◌, update, Outcome, ok, ensure, require, ok_or, or_panic, map_err, ◌>>=◌,
  ◌>>◌,
}
use stellar_private_payments.Machine.{is_none}
use stellar_private_payments.Poseidon.{bn256_modulus}
use stellar_private_payments.Soroban
use stellar_private_payments.Soroban.{Address, positive, negative, to_u256, i256_neg}
use stellar_private_payments.Pool.Tree
use stellar_private_payments.Pool.Tree.{no_entries}
use stellar_private_payments.Pool.State.{
  Error, wrong_ext_amount, invalid_proof, unknown_root, already_spent_nullifier, wrong_ext_hash,
  not_initialized, non_canonical_public_input, from_merkle, is_empty, Proof, ExtData,
  new_commitment, new_nullifier, Transfer, Pool, Env,
}
use stellar_private_payments.Pool.Amounts.{calculate_public_amount, i256_to_i128_nonneg}

-- A contract before its constructor.
abbrev pub no_pool : Pool
no_pool = record {
  admin = none;
  token = none;
  verifier = none;
  maximum_deposit_amount = none;
  nullifiers = none;
  asp_membership = none;
  asp_non_membership = none;
  tree = no_entries;
  events = [];
  transfers = [];
}

unfoldable pub constructor :
    Pool → Address → Address → Address → Address → Address → ℕ → ℕ → Outcome Error Pool
constructor p admin token verifier asp_membership asp_non_membership maximum_deposit_amount levels =
    do
      tree ← map_err from_merkle (Tree.init p.tree levels)
      ok (record p {
        admin = some admin;
        token = some token;
        verifier = some verifier;
        asp_membership = some asp_membership;
        asp_non_membership = some asp_non_membership;
        maximum_deposit_amount = some maximum_deposit_amount;
        nullifiers = some (λ n. none);
        tree = tree;
      })

unfoldable pub hash_ext_data : Env → ExtData → ℕ
hash_ext_data env ext = env.ext_data_digest ext % bn256_modulus

-- `nulls.get(n).unwrap_or(false)`
abbrev pub unwrap_spent : Option Bool → Bool
unwrap_spent none = false
unwrap_spent (some b) = b

unfoldable pub is_spent : Pool → ℕ → Outcome Error Bool
is_spent p n = do nulls ← ok_or p.nullifiers not_initialized; ok (unwrap_spent (nulls n))

unfoldable pub mark_spent : Pool → ℕ → Outcome Error Pool
mark_spent p n = do
  nulls ← ok_or p.nullifiers not_initialized
  ok (record p { nullifiers = some (update nulls n (some true)) })

unfoldable pub validate_bn256_public_input : ℕ → Outcome Error (Unit {0})
validate_bn256_public_input value =
    ensure (not (leb bn256_modulus value)) non_canonical_public_input

unfoldable pub validate_nullifiers : List ℕ → Outcome Error (Unit {0})
unfolding validate_bn256_public_input
validate_nullifiers [] = ok tt
validate_nullifiers (n ∷ ns) = do validate_bn256_public_input n; validate_nullifiers ns

unfoldable pub validate_bn256_public_inputs : Proof → Outcome Error (Unit {0})
unfolding validate_bn256_public_input
validate_bn256_public_inputs proof = do
  validate_bn256_public_input proof.root
  validate_bn256_public_input proof.public_amount
  validate_nullifiers proof.input_nullifiers
  validate_bn256_public_input proof.output_commitment0
  validate_bn256_public_input proof.output_commitment1
  validate_bn256_public_input proof.asp_membership_root
  validate_bn256_public_input proof.asp_non_membership_root

-- The verifier's inputs, in the order of the policy circuit.
unfoldable pub public_inputs : Proof → List ℕ
public_inputs proof =
    proof.root
    ∷ proof.public_amount
    ∷ proof.ext_data_hash
    ∷ (proof.input_nullifiers
        ++ (proof.output_commitment0
            ∷ proof.output_commitment1
            ∷ (replicate (length proof.input_nullifiers) proof.asp_membership_root
                ++ replicate (length proof.input_nullifiers) proof.asp_non_membership_root)))

unfoldable pub verify_proof : Env → Pool → Proof → Outcome Error Bool
verify_proof env p proof = do
  ensure (not (is_empty proof.proof)) invalid_proof
  verifier ← ok_or p.verifier not_initialized
  validate_bn256_public_inputs proof
  or_panic (env.verify verifier proof.proof (public_inputs proof))

unfoldable pub get_asp_membership_root : Env → Pool → Outcome Error ℕ
get_asp_membership_root env p = do
  asp ← ok_or p.asp_membership not_initialized
  or_panic (env.membership_root asp)

unfoldable pub get_asp_non_membership_root : Env → Pool → Outcome Error ℕ
get_asp_non_membership_root env p = do
  asp ← ok_or p.asp_non_membership not_initialized
  or_panic (env.non_membership_root asp)

-- A token transfer, which traps if the token refuses it.
unfoldable pub token_transfer : Env → Pool → Transfer → Outcome Error Pool
token_transfer env p t = do
  require (env.transfer_accepted t)
  ok (record p { transfers = p.transfers ++ t ∷ [] })

-- Step 2 of `internal_transact`.
unfoldable pub check_unspent : Pool → List ℕ → Outcome Error (Unit {0})
check_unspent p [] = ok tt
check_unspent p (n ∷ ns) = do
  spent ← is_spent p n
  ensure (not spent) already_spent_nullifier
  check_unspent p ns

-- Steps 1 to 5 of `internal_transact`: the checks.
unfoldable pub check_transaction : Env → Pool → Proof → ExtData → Outcome Error (Unit {0})
check_transaction env p proof ext_data = do
  known ← map_err from_merkle (Tree.is_known_root p.tree proof.root)
  ensure known unknown_root
  check_unspent p proof.input_nullifiers
  ensure (hash_ext_data env ext_data == proof.ext_data_hash) wrong_ext_hash
  expected_public_amount ← calculate_public_amount ext_data.ext_amount
  ensure (proof.public_amount == expected_public_amount) wrong_ext_amount
  member_root ← get_asp_membership_root env p
  non_member_root ← get_asp_non_membership_root env p
  ensure
      (member_root == proof.asp_membership_root && non_member_root == proof.asp_non_membership_root)
      invalid_proof
  valid ← verify_proof env p proof
  ensure valid invalid_proof

-- `let _ = Self::mark_spent(..)`: an error is dropped.
abbrev pub mark_or_skip : Pool → Outcome Error Pool → Pool
mark_or_skip p (ok q) = q
mark_or_skip p _ = p

-- Step 6: each nullifier is marked, and its event published.
unfoldable pub mark_all : Pool → List ℕ → Pool
mark_all p [] = p
mark_all p (n ∷ ns) =
    let q = mark_or_skip p (mark_spent p n) in
    mark_all (record q { events = q.events ++ new_nullifier n ∷ [] }) ns

-- Step 7: a withdrawal pays the recipient.
unfoldable pub pay_recipient : Env → Pool → Address → ExtData → Outcome Error Pool
pay_recipient env p token ext_data =
    if negative ext_data.ext_amount
    then (do
      abs ← i256_neg ext_data.ext_amount
      amount ← i256_to_i128_nonneg abs
      token_transfer env p (record {
        token = token;
        from = env.current_contract_address;
        to = ext_data.recipient;
        amount = amount;
      }))
    else ok p

unfoldable pub withdraw : Env → Pool → ExtData → Outcome Error Pool
unfolding pay_recipient
withdraw env p ext_data = do
  token ← ok_or p.token not_initialized
  pay_recipient env p token ext_data

-- Steps 9 and 10: the commitments enter the tree, and their events are published.
unfoldable pub insert_commitments : Env → Pool → Proof → ExtData → Outcome Error Pool
insert_commitments env p proof ext_data = do
  r ←
      map_err from_merkle
        (Tree.insert_two_leaves env.host p.tree proof.output_commitment0 proof.output_commitment1)
  ok (record p {
    tree = r.1;
    events =
        p.events
        ++ new_commitment proof.output_commitment0 r.0.0 ext_data.encrypted_output0
          ∷ new_commitment proof.output_commitment1 r.0.1 ext_data.encrypted_output1
          ∷ [];
  })

unfoldable pub internal_transact : Env → Pool → Proof → ExtData → Outcome Error Pool
internal_transact env p proof ext_data = do
  check_transaction env p proof ext_data
  paid ← withdraw env (mark_all p proof.input_nullifiers) ext_data
  insert_commitments env paid proof ext_data

-- A deposit is paid in before the transaction is checked.
unfoldable pub deposit : Env → Pool → Address → ExtData → Address → Outcome Error Pool
deposit env p token ext_data sender =
    if positive ext_data.ext_amount
    then (do
      max ← ok_or p.maximum_deposit_amount not_initialized
      ensure (leb (to_u256 ext_data.ext_amount) max) wrong_ext_amount
      amount ← i256_to_i128_nonneg ext_data.ext_amount
      token_transfer env p (record {
        token = token;
        from = sender;
        to = env.current_contract_address;
        amount = amount;
      }))
    else ok p

unfoldable pub transact : Env → Pool → Proof → ExtData → Address → Outcome Error Pool
transact env p proof ext_data sender = do
  require (env.authorized sender)
  token ← ok_or p.token not_initialized
  q ← deposit env p token ext_data sender
  internal_transact env q proof ext_data

unfoldable pub get_root : Pool → Outcome Error ℕ
get_root p = map_err from_merkle (Tree.get_last_root p.tree)

unfoldable pub is_known_root : Pool → ℕ → Outcome Error Bool
is_known_root p root = map_err from_merkle (Tree.is_known_root p.tree root)

unfoldable pub update_admin : Env → Pool → Address → Outcome Error Pool
update_admin env p new_admin = do
  ensure (not (is_none p.admin)) not_initialized
  admin ← Soroban.update_admin env.authorized p.admin new_admin
  ok (record p { admin = some admin })

unfoldable pub update_asp_membership : Env → Pool → Address → Outcome Error Pool
update_asp_membership env p new_asp_membership = do
  admin ← ok_or p.admin not_initialized
  require (env.authorized admin)
  ok (record p { asp_membership = some new_asp_membership })

unfoldable pub update_asp_non_membership : Env → Pool → Address → Outcome Error Pool
update_asp_non_membership env p new_asp_non_membership = do
  admin ← ok_or p.admin not_initialized
  require (env.authorized admin)
  ok (record p { asp_non_membership = some new_asp_non_membership })
