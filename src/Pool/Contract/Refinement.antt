-- ===== src/Pool/Contract/Refinement.antt =====
-- A transaction refines the append of its two commitments to the list of all commitments.
use stellar_private_payments.Prelude.{
  some, none, ℕ, suc, ◌+◌, ◌^◌, ◌≤◌, ◌≡◌, ap, ◌∙◌, List, [], ◌∷◌, ◌++◌, arith, length, ok,
}
use native.Mathlib.Decide.{dec_le}
use stellar_private_payments.Poseidon.{Host, IsCanonical}
use stellar_private_payments.Soroban.{Address}
use stellar_private_payments.Pool.Tree.Represents.{Represents, root_of}
use stellar_private_payments.Pool.Tree.Insert.{insert_two_leaves-Represents, insert_two_leaves_full}
use stellar_private_payments.Pool.Tree.Init.{init-Represents}
use stellar_private_payments.Pool.State.{Proof, ExtData, Pool, Env}
use stellar_private_payments.Pool.Contract.{transact, constructor, no_pool}
use stellar_private_payments.Pool.Contract.Checks.{verify_proof-Verified}
use stellar_private_payments.Pool.Contract.Transact.{transact-Transacted}

-- The constructor gives the empty list of commitments.
pub constructor-Represents :
    (host : Host) (admin token verifier asp_membership asp_non_membership : Address) (maximum k : ℕ)
    → suc k ≤ 32
    → (p : Pool) × (constructor no_pool admin token verifier asp_membership asp_non_membership
          maximum
          (suc k)
        ≡ ok p)
      × Represents host p.tree k [] (root_of host (suc k) [] ∷ [])
unfolding constructor
constructor-Represents host admin token verifier asp_membership asp_non_membership maximum k h =
    let (t, e, r) = init-Represents host k h in
    (
      record no_pool {
        admin = some admin;
        token = some token;
        verifier = some verifier;
        asp_membership = some asp_membership;
        asp_non_membership = some asp_non_membership;
        maximum_deposit_amount = some maximum;
        nullifiers = some (λ n. none);
        tree = t;
      },
      simp e,
      r,
    )

module _ (env : Env) (canonical : IsCanonical env.host) (p q : Pool) (proof : Proof)
    (ext_data : ExtData) (sender : Address) (k : ℕ) (leaves roots : List ℕ) where
  -- A transaction that succeeds appends exactly its two commitments, and the new root is the root
  -- of all commitments; it succeeds only if both fit.
  pub transact-Represents :
      Represents env.host p.tree k leaves roots
      → transact env p proof ext_data sender ≡ ok q
      → let grown = leaves ++ proof.output_commitment0 ∷ proof.output_commitment1 ∷ [] in
        (length leaves + 2 ≤ 2 ^ suc k)
        × Represents env.host q.tree k grown (root_of env.host (suc k) grown ∷ roots)
  transact-Represents r h =
      let t = transact-Transacted env p proof ext_data sender q h in
      let v = (verify_proof-Verified env p proof t.checked.verified).inputs in
      let inserts =
        insert_two_leaves-Represents env.host canonical p.tree k leaves roots r
          proof.output_commitment0 proof.output_commitment1 in
      elim (dec_le (length leaves + 2) (2 ^ suc k)) [
        | yes fits ↦
            let (tree, e, grown) = inserts v.output_commitment0 v.output_commitment1 fits in
            let same : q.tree ≡ tree = ap (λ (x : Pool). x.tree) t.result ∙ cc (t.inserted, e) in
            (fits, rw same grown)
        | no over ↦
            let full =
              insert_two_leaves_full env.host canonical p.tree k leaves roots r
                proof.output_commitment0 proof.output_commitment1 (omega arith) in
            absurd (cc (t.inserted, full))
      ]
