-- ===== src/Pool/Contract/Success.antt =====
-- When a transaction succeeds.
use stellar_private_payments.Prelude.{
  ℕ, zero, suc, ◌+◌, ◌^◌, ◌≤◌, ◌<◌, ◌≡◌, refl, true, false, some, List, [], ◌∷◌, ◌++◌, arith, ok,
  All, length, ==_refl, le→leb, lt→ltb,
}
use mathlib.Core.List.{append-nil}
use stellar_private_payments.Prelude.Int.{ℤ, pos, negsuc, pos_part, neg_part}
use stellar_private_payments.Poseidon.{IsCanonical}
use stellar_private_payments.Soroban.{Address, i256_neg}
use stellar_private_payments.Pool.Tree
use stellar_private_payments.Pool.Tree.{MerkleTree}
use stellar_private_payments.Pool.Tree.Represents.{Represents}
use stellar_private_payments.Pool.Tree.Insert.{insert_two_leaves-Represents}
use stellar_private_payments.Pool.State.{Proof, ExtData, Pool, Env, Transfer, new_commitment}
use stellar_private_payments.Pool.Amounts.{i256_to_i128_nonneg}
use stellar_private_payments.Pool.Contract.{
  mark_all, deposit, withdraw, pay_recipient, token_transfer, insert_commitments, internal_transact,
  transact, check_transaction, check_unspent, hash_ext_data, get_asp_membership_root,
  get_asp_non_membership_root, verify_proof, is_spent,
}
use stellar_private_payments.Pool.Contract.Checks.{Checked, verify_proof-Verified}
use stellar_private_payments.Pool.Contract.Effects.{mark_all-eq, paid_in, paid_out}

module _ (env : Env) (accepts : (t : Transfer) → env.transfer_accepted t ≡ true) where
  deposit-ok :
      (p : Pool) (token : Address) (ext_data : ExtData) (sender : Address) (max : ℕ) (v : ℤ)
      → ext_data.ext_amount ≡ v
      → p.maximum_deposit_amount ≡ some max
      → pos_part v ≤ max
      → pos_part v + neg_part v < 2 ^ 127
      → deposit env p token ext_data sender
        ≡ ok (record p { transfers = p.transfers ++ paid_in env token sender v })
  unfolding deposit token_transfer i256_to_i128_nonneg
  deposit-ok p token ext_data sender max (pos zero) e m le lt = rw (e, append-nil p.transfers) refl
  deposit-ok p token ext_data sender max (pos (suc n)) e m le lt = simp (
    e,
    m,
    lt→ltb 0 (suc n) (omega arith),
    le→leb (suc n) max le,
    lt→ltb (suc n) (2 ^ 127) (omega arith),
    accepts,
  )
  deposit-ok p token ext_data sender max (negsuc n) e m le lt = rw (e, append-nil p.transfers) refl

  withdraw-ok :
      (p : Pool) (token : Address) (ext_data : ExtData) (v : ℤ)
      → ext_data.ext_amount ≡ v
      → p.token ≡ some token
      → pos_part v + neg_part v < 2 ^ 127
      → withdraw env p ext_data
        ≡ ok (record p { transfers = p.transfers ++ paid_out env token ext_data.recipient v })
  unfolding withdraw pay_recipient token_transfer i256_to_i128_nonneg i256_neg
  withdraw-ok p token ext_data (pos n) e t lt = rw (t, e, append-nil p.transfers) refl
  withdraw-ok p token ext_data (negsuc n) e t lt = simp (
    t,
    e,
    lt→ltb (suc n) (2 ^ 127) (omega arith),
    lt→ltb (suc n) (2 ^ 255) (omega arith),
    accepts,
  )

check_unspent-ok :
    (p : Pool) (ns : List ℕ) → All (λ n. is_spent p n ≡ ok false) ns → check_unspent p ns ≡ ok tt
unfolding check_unspent
check_unspent-ok p [] a = refl
check_unspent-ok p (n ∷ ns) a = rw (a.0) (check_unspent-ok p ns a.1)

check_transaction-ok :
    (env : Env) (p : Pool) (proof : Proof) (ext_data : ExtData)
    → Checked env p proof ext_data
    → check_transaction env p proof ext_data ≡ ok tt
unfolding check_transaction
check_transaction-ok env p proof ext_data c = simp (
  c.root_known,
  check_unspent-ok p proof.input_nullifiers c.unspent,
  c.bound_to_data,
  ==_refl (hash_ext_data env ext_data),
  c.bound_to_amount,
  ==_refl proof.public_amount,
  c.membership,
  c.non_membership,
  ==_refl proof.asp_membership_root,
  ==_refl proof.asp_non_membership_root,
  c.verified,
)

-- The checks do not read the transfers.
Checked-after :
    (env : Env) (p : Pool) (ts : List Transfer) (proof : Proof) (ext_data : ExtData)
    → Checked env p proof ext_data
    → Checked env (record p { transfers = ts }) proof ext_data
unfolding get_asp_membership_root get_asp_non_membership_root verify_proof is_spent
Checked-after env p ts proof ext_data c = record {
  root_known = c.root_known;
  unspent = c.unspent;
  bound_to_data = c.bound_to_data;
  bound_to_amount = c.bound_to_amount;
  membership = c.membership;
  non_membership = c.non_membership;
  verified = c.verified;
}

-- The pool when the commitments are in it.
abbrev committed : Pool → Proof → ExtData → (ℕ × ℕ) × MerkleTree → Pool
committed w proof ext_data r = record w {
  tree = r.1;
  events =
      w.events
      ++ new_commitment proof.output_commitment0 r.0.0 ext_data.encrypted_output0
        ∷ new_commitment proof.output_commitment1 r.0.1 ext_data.encrypted_output1
        ∷ [];
}

-- The run of a transaction from the runs of its parts.
transact-run :
    (env : Env) (p d w : Pool) (proof : Proof) (ext_data : ExtData) (sender token : Address)
    (r : (ℕ × ℕ) × MerkleTree)
    → env.authorized sender ≡ true
    → p.token ≡ some token
    → deposit env p token ext_data sender ≡ ok d
    → check_transaction env d proof ext_data ≡ ok tt
    → withdraw env (mark_all d proof.input_nullifiers) ext_data ≡ ok w
    → Tree.insert_two_leaves env.host w.tree proof.output_commitment0 proof.output_commitment1
      ≡ ok r
    → transact env p proof ext_data sender ≡ ok (committed w proof ext_data r)
unfolding transact internal_transact insert_commitments
transact-run env p d w proof ext_data sender token r signed configured paid checked paid_back
      inserted =
    simp (signed, configured, paid, checked, paid_back, inserted)

-- A transaction succeeds if its sender has signed it, the pool is set up, its amount is below 2^127
-- and no more than the maximum deposit, it passes the checks, the tree of the pool has room for two
-- leaves, and the token accepts transfers.
pub transact-ok :
    (env : Env)
    → IsCanonical env.host
    → ((t : Transfer) → env.transfer_accepted t ≡ true)
    → (p : Pool) (proof : Proof) (ext_data : ExtData) (sender token : Address) (max k : ℕ)
      (leaves roots : List ℕ)
    → env.authorized sender ≡ true
    → p.token ≡ some token
    → p.maximum_deposit_amount ≡ some max
    → pos_part ext_data.ext_amount ≤ max
    → pos_part ext_data.ext_amount + neg_part ext_data.ext_amount < 2 ^ 127
    → Checked env p proof ext_data
    → Represents env.host p.tree k leaves roots
    → length leaves + 2 ≤ 2 ^ suc k
    → (q : Pool) × (transact env p proof ext_data sender ≡ ok q)
transact-ok env canonical accepts p proof ext_data sender token max k leaves roots signed configured
      maximum le lt c r room =
    let v = ext_data.ext_amount in
    let d : Pool = record p { transfers = p.transfers ++ paid_in env token sender v } in
    let checked =
      check_transaction-ok env d proof ext_data
        (Checked-after env p d.transfers proof ext_data c) in
    let inputs = (verify_proof-Verified env p proof c.verified).inputs in
    let (tree, inserted, r') =
      insert_two_leaves-Represents env.host canonical p.tree k leaves roots r
        proof.output_commitment0 proof.output_commitment1 inputs.output_commitment0
        inputs.output_commitment1 room in
    let marked_eq = mark_all-eq d proof.input_nullifiers in
    let tok : (mark_all d proof.input_nullifiers).token ≡ some token = rw marked_eq configured in
    let back =
      withdraw-ok env accepts (mark_all d proof.input_nullifiers) token ext_data v refl tok lt in
    let w : Pool = record (mark_all d proof.input_nullifiers) {
      transfers =
          (mark_all d proof.input_nullifiers).transfers ++ paid_out env token ext_data.recipient v;
    } in
    let inserted' : Tree.insert_two_leaves env.host w.tree proof.output_commitment0
          proof.output_commitment1
        ≡ ok ((length leaves, length leaves + 1), tree) =
      rw marked_eq inserted in
    (
      committed w proof ext_data ((length leaves, length leaves + 1), tree),
      transact-run env p d w proof ext_data sender token ((length leaves, length leaves + 1), tree)
          signed configured
          (deposit-ok env accepts p token ext_data sender max v refl maximum le lt) checked back
          inserted',
    )
