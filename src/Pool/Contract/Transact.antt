-- ===== src/Pool/Contract/Transact.antt =====
-- `transact` as a whole: what a success has passed and the one pool that it can give.
use stellar_private_payments.Prelude.{
  ℕ, ◌≡◌, refl, ◌∙◌, true, some, List, [], ◌∷◌, ◌++◌, map, arith, ok, >>=-eq-ok, require, ok_or,
  require-eq-ok, ok_or-eq-ok, map_err-eq-ok, map_err,
}
use mathlib.Core.List.{append_assoc}
use stellar_private_payments.Soroban.{Address}
use stellar_private_payments.Pool.Tree
use stellar_private_payments.Pool.Tree.{MerkleTree}
use stellar_private_payments.Pool.State.{
  not_initialized, Proof, ExtData, Pool, Env, Transfer, Event, new_nullifier, new_commitment,
  from_merkle,
}
use stellar_private_payments.Pool.Contract.{
  mark_all, deposit, withdraw, insert_commitments, internal_transact, transact, check_transaction,
  get_asp_membership_root, get_asp_non_membership_root, verify_proof, is_spent,
}
use stellar_private_payments.Pool.Contract.Checks.{
  Checked, Verified, ListsAgree, Checked-ListsAgree, check_transaction-Checked,
  verify_proof-Verified,
}
use stellar_private_payments.Pool.Contract.Payments.{
  DepositPassed, WithdrawalPassed, deposit-DepositPassed, withdraw-WithdrawalPassed,
}
use stellar_private_payments.Pool.Contract.Effects.{
  marked, mark_all-eq, paid_in, paid_out, deposit-eq, withdraw-eq,
}

-- The events of a transaction.
abbrev pub published : Proof → ExtData → ℕ × ℕ → List Event
published proof ext_data at =
    map new_nullifier proof.input_nullifiers
    ++ (new_commitment proof.output_commitment0 at.0 ext_data.encrypted_output0
        ∷ new_commitment proof.output_commitment1 at.1 ext_data.encrypted_output1
        ∷ [])

-- The pool after a transaction that put its commitments at these indexes of this tree.
abbrev pub transacted : Env → Pool → Address → Proof → ExtData → Address → ℕ × ℕ → MerkleTree → Pool
transacted env p token proof ext_data sender at tree = record p {
  nullifiers = marked p.nullifiers proof.input_nullifiers;
  tree = tree;
  events = p.events ++ published proof ext_data at;
  transfers =
      p.transfers
      ++ (paid_in env token sender ext_data.ext_amount
          ++ paid_out env token ext_data.recipient ext_data.ext_amount);
}

-- The payments and the checks have passed, and the pool is this one.
pub record Transacted (env : Env) (p : Pool) (proof : Proof) (ext_data : ExtData) (sender : Address)
    (q : Pool) : Type 0 where
  pub token : Address
  pub at : ℕ × ℕ
  pub tree : MerkleTree
  pub signed : env.authorized sender ≡ true
  pub configured : p.token ≡ some token
  pub deposit_passed : DepositPassed env p token sender ext_data.ext_amount
  pub withdrawal_passed : WithdrawalPassed env token ext_data.recipient ext_data.ext_amount
  pub checked : Checked env p proof ext_data
  pub lists_agree : ListsAgree env p proof
  pub verified : Verified env p proof
  pub inserted :
      Tree.insert_two_leaves env.host p.tree proof.output_commitment0 proof.output_commitment1
      ≡ ok (at, tree)
  pub result : q ≡ transacted env p token proof ext_data sender at tree

-- The checks do not read the transfers.
Checked-transfers :
    (env : Env) (p : Pool) (ts : List Transfer) (proof : Proof) (ext_data : ExtData)
    → Checked env (record p { transfers = ts }) proof ext_data
    → Checked env p proof ext_data
unfolding get_asp_membership_root get_asp_non_membership_root verify_proof is_spent
Checked-transfers env p ts proof ext_data c = record {
  root_known = c.root_known;
  unspent = c.unspent;
  bound_to_data = c.bound_to_data;
  bound_to_amount = c.bound_to_amount;
  membership = c.membership;
  non_membership = c.non_membership;
  verified = c.verified;
}

insert_commitments-inv :
    (env : Env) (p q : Pool) (proof : Proof) (ext_data : ExtData)
    → insert_commitments env p proof ext_data ≡ ok q
    → (at : ℕ × ℕ) × (tree : MerkleTree) × (Tree.insert_two_leaves env.host p.tree
          proof.output_commitment0 proof.output_commitment1
        ≡ ok (at, tree))
      × (q ≡ record p {
        tree = tree;
        events =
            p.events
            ++ new_commitment proof.output_commitment0 at.0 ext_data.encrypted_output0
              ∷ new_commitment proof.output_commitment1 at.1 ext_data.encrypted_output1
              ∷ [];
      })
unfolding insert_commitments
insert_commitments-inv env p q proof ext_data h =
    let (r, e, s) =
      >>=-eq-ok
        (map_err from_merkle (
          Tree.insert_two_leaves env.host p.tree proof.output_commitment0 proof.output_commitment1))
        _ h in
    (r.0, r.1, map_err-eq-ok from_merkle _ e, ground arith)

module _ (env : Env) (p : Pool) (proof : Proof) (ext_data : ExtData) (sender : Address)
    (q : Pool) where
  -- From the pools between the steps, `d` after the deposit and `w` after the withdrawal.
  assemble :
      (token : Address) (d w : Pool) (at : ℕ × ℕ) (tree : MerkleTree)
      → env.authorized sender ≡ true
      → p.token ≡ some token
      → deposit env p token ext_data sender ≡ ok d
      → Checked env d proof ext_data
      → withdraw env (mark_all d proof.input_nullifiers) ext_data ≡ ok w
      → Tree.insert_two_leaves env.host w.tree proof.output_commitment0 proof.output_commitment1
        ≡ ok (at, tree)
      → q ≡ record w {
        tree = tree;
        events =
            w.events
            ++ new_commitment proof.output_commitment0 at.0 ext_data.encrypted_output0
              ∷ new_commitment proof.output_commitment1 at.1 ext_data.encrypted_output1
              ∷ [];
      }
      → Transacted env p proof ext_data sender q
  assemble token d w at tree signed configured dep checked_after paid ins res =
      let v = ext_data.ext_amount in
      let de = deposit-eq env p d token ext_data sender v refl dep in
      let me = mark_all-eq d proof.input_nullifiers in
      let tok : (mark_all d proof.input_nullifiers).token ≡ some token = rw (me, de) configured in
      let we =
        withdraw-eq env (mark_all d proof.input_nullifiers) w token ext_data v tok refl paid in
      let checked =
        Checked-transfers env p (p.transfers ++ paid_in env token sender v) proof ext_data
          (rw de at checked_after) in
      record {
        token = token;
        at = at;
        tree = tree;
        signed = signed;
        configured = configured;
        deposit_passed = deposit-DepositPassed env p d token ext_data sender v refl dep;
        withdrawal_passed =
            withdraw-WithdrawalPassed env (mark_all d proof.input_nullifiers) w token ext_data v tok
              refl paid;
        checked = checked;
        lists_agree = Checked-ListsAgree env p proof ext_data checked;
        verified = verify_proof-Verified env p proof checked.verified;
        inserted = rw (we, me, de) at ins;
        result = res ∙ rw (we, me, de) (simp append_assoc);
      }

-- A transaction that succeeds is signed by its sender. A deposit is within the maximum, the paid
-- amount is an i128 and the token takes it. On the pool as it was, the root is known, no nullifier
-- is spent, the proof is for this external data and amount and for the roots of the two lists, and
-- the configured verifier accepted it for its inputs, which are field elements. The pool that it
-- gives is determined.
pub transact-Transacted :
    (env : Env) (p : Pool) (proof : Proof) (ext_data : ExtData) (sender : Address) (q : Pool)
    → transact env p proof ext_data sender ≡ ok q
    → Transacted env p proof ext_data sender q
unfolding transact internal_transact
transact-Transacted env p proof ext_data sender q h =
    let (_, signed, h1) = >>=-eq-ok (require (env.authorized sender)) _ h in
    let (token, configured, h2) = >>=-eq-ok (ok_or p.token not_initialized) _ h1 in
    let (d, dep, h3) = >>=-eq-ok (deposit env p token ext_data sender) _ h2 in
    let (u, chk, h4) = >>=-eq-ok (check_transaction env d proof ext_data) _ h3 in
    let (w, paid, h5) =
      >>=-eq-ok (withdraw env (mark_all d proof.input_nullifiers) ext_data) _ h4 in
    let (at, tree, ins, res) = insert_commitments-inv env w q proof ext_data h5 in
    assemble env p proof ext_data sender q token d w at tree (require-eq-ok _ signed)
      (ok_or-eq-ok p.token not_initialized configured) dep
      (check_transaction-Checked env d proof ext_data {u = u} chk) paid ins res
