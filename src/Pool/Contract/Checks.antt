-- ===== src/Pool/Contract/Checks.antt =====
-- What a transaction that succeeds has passed.
use stellar_private_payments.Prelude.{
  Option-cases, inl, inr, ◌<◌, ℕ, ◌≡◌, true, false, some, List, [], ◌∷◌, arith, All, ok,
}
use stellar_private_payments.Poseidon.{bn256_modulus}
use stellar_private_payments.Pool.Tree
use stellar_private_payments.Pool.State.{is_empty, Proof, ExtData, Pool, Env}
use stellar_private_payments.Pool.Amounts.{calculate_public_amount}
use stellar_private_payments.Soroban.{Address}
use stellar_private_payments.Pool.Contract.{
  public_inputs, validate_bn256_public_inputs, validate_nullifiers, hash_ext_data, is_spent,
  check_unspent, check_transaction, verify_proof, get_asp_membership_root,
  get_asp_non_membership_root,
}

pub record Checked (env : Env) (p : Pool) (proof : Proof) (ext_data : ExtData) : Type 0 where
  pub root_known : Tree.is_known_root p.tree proof.root ≡ ok true
  pub unspent : All (λ n. is_spent p n ≡ ok false) proof.input_nullifiers
  pub bound_to_data : proof.ext_data_hash ≡ hash_ext_data env ext_data
  pub bound_to_amount : calculate_public_amount ext_data.ext_amount ≡ ok proof.public_amount
  pub membership : get_asp_membership_root env p ≡ ok proof.asp_membership_root
  pub non_membership : get_asp_non_membership_root env p ≡ ok proof.asp_non_membership_root
  pub verified : verify_proof env p proof ≡ ok true

check_unspent-All :
    (p : Pool) (ns : List ℕ) {u : Unit {0}}
    → check_unspent p ns ≡ ok u
    → All (λ n. is_spent p n ≡ ok false) ns
unfolding check_unspent is_spent
check_unspent-All p [] h = tt
check_unspent-All p (n ∷ ns) h = ground (arith, check_unspent-All p ns {u = tt})

pub check_transaction-Checked :
    (env : Env) (p : Pool) (proof : Proof) (ext_data : ExtData) {u : Unit {0}}
    → check_transaction env p proof ext_data ≡ ok u
    → Checked env p proof ext_data
unfolding check_transaction
check_transaction-Checked env p proof ext_data h = record {
  root_known = ground arith;
  unspent = check_unspent-All p proof.input_nullifiers {u = tt} (ground arith);
  bound_to_data = ground arith;
  bound_to_amount = ground arith;
  membership = ground arith;
  non_membership = ground arith;
  verified = ground arith;
}

-- Every U256 that goes into the verifier's inputs is a field element.
pub record InputsCanonical (proof : Proof) : Type 0 where
  pub root : proof.root < bn256_modulus
  pub public_amount : proof.public_amount < bn256_modulus
  pub input_nullifiers : All (λ n. n < bn256_modulus) proof.input_nullifiers
  pub output_commitment0 : proof.output_commitment0 < bn256_modulus
  pub output_commitment1 : proof.output_commitment1 < bn256_modulus
  pub asp_membership_root : proof.asp_membership_root < bn256_modulus
  pub asp_non_membership_root : proof.asp_non_membership_root < bn256_modulus

validate_nullifiers-All :
    (ns : List ℕ) {u : Unit {0}} → validate_nullifiers ns ≡ ok u → All (λ n. n < bn256_modulus) ns
unfolding validate_nullifiers
validate_nullifiers-All [] h = tt
validate_nullifiers-All (n ∷ ns) h = ground (arith, validate_nullifiers-All ns {u = tt})

validate-InputsCanonical :
    (proof : Proof) {u : Unit {0}}
    → validate_bn256_public_inputs proof ≡ ok u
    → InputsCanonical proof
unfolding validate_bn256_public_inputs
validate-InputsCanonical proof h =
    ground (arith, validate_nullifiers-All proof.input_nullifiers {u = tt})

-- The configured verifier accepted the proof for exactly these inputs.
pub record Verified (env : Env) (p : Pool) (proof : Proof) : Type 0 where
  pub verifier : Address
  pub configured : p.verifier ≡ some verifier
  pub accepted : env.verify verifier proof.proof (public_inputs proof) ≡ some true
  pub not_empty : is_empty proof.proof ≡ false
  pub inputs : InputsCanonical proof

pub verify_proof-Verified :
    (env : Env) (p : Pool) (proof : Proof)
    → verify_proof env p proof ≡ ok true
    → Verified env p proof
unfolding verify_proof
verify_proof-Verified env p proof h = elim (Option-cases p.verifier) [
  | inl e ↦ absurd (ground arith)
  | inr (v, e) ↦ record {
    verifier = v;
    configured = e;
    accepted = ground arith;
    not_empty = ground arith;
    inputs = validate-InputsCanonical proof {u = tt} (ground arith);
  }
]

-- The two list contracts gave the roots of the proof.
pub record ListsAgree (env : Env) (p : Pool) (proof : Proof) : Type 0 where
  pub membership :
      (asp : Address) × (p.asp_membership ≡ some asp)
      × (env.membership_root asp ≡ some proof.asp_membership_root)
  pub non_membership :
      (asp : Address) × (p.asp_non_membership ≡ some asp)
      × (env.non_membership_root asp ≡ some proof.asp_non_membership_root)

membership_root-eq :
    (env : Env) (p : Pool) (root : ℕ)
    → get_asp_membership_root env p ≡ ok root
    → (asp : Address) × (p.asp_membership ≡ some asp) × (env.membership_root asp ≡ some root)
unfolding get_asp_membership_root
membership_root-eq env p root h = elim (Option-cases p.asp_membership) [
  | inl e ↦ absurd (ground arith)
  | inr (asp, e) ↦ (asp, e, ground arith)
]

non_membership_root-eq :
    (env : Env) (p : Pool) (root : ℕ)
    → get_asp_non_membership_root env p ≡ ok root
    → (asp : Address) × (p.asp_non_membership ≡ some asp)
      × (env.non_membership_root asp ≡ some root)
unfolding get_asp_non_membership_root
non_membership_root-eq env p root h = elim (Option-cases p.asp_non_membership) [
  | inl e ↦ absurd (ground arith)
  | inr (asp, e) ↦ (asp, e, ground arith)
]

pub Checked-ListsAgree :
    (env : Env) (p : Pool) (proof : Proof) (ext_data : ExtData)
    → Checked env p proof ext_data
    → ListsAgree env p proof
Checked-ListsAgree env p proof ext_data c = record {
  membership = membership_root-eq env p proof.asp_membership_root c.membership;
  non_membership = non_membership_root-eq env p proof.asp_non_membership_root c.non_membership;
}
