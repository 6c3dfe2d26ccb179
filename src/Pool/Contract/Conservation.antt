-- ===== src/Pool/Contract/Conservation.antt =====
-- The pool's tokens: what a history of transfers has paid into an account, less what it paid out.
use stellar_private_payments.Prelude.{
  ℕ, zero, suc, ◌+◌, ◌≡◌, ◌≢◌, ap, ◌∙◌, ◌&&◌, some, List, [], ◌∷◌, ◌++◌, arith, ◌==◌, if◌then◌else◌,
  ok,
}
use stellar_private_payments.Prelude.Int.{ℤ, pos, negsuc, ◌+ℤ◌, sub_ℕ, pos_part, neg_part}
use stellar_private_payments.Soroban.{Address}
use stellar_private_payments.Pool.State.{Proof, ExtData, Pool, Env, Transfer}
use stellar_private_payments.Pool.Contract.{transact}
use stellar_private_payments.Pool.Contract.Effects.{paid_in, paid_out}
use stellar_private_payments.Pool.Contract.Transact.{transact-Transacted}

module _ (token account : Address) where
  unfoldable pub received : List Transfer → ℕ
  received [] = 0
  received (t ∷ ts) = (if t.token == token && t.to == account then t.amount else 0) + received ts

  unfoldable pub sent : List Transfer → ℕ
  sent [] = 0
  sent (t ∷ ts) = (if t.token == token && t.from == account then t.amount else 0) + sent ts

  -- The change of the account's balance of the token.
  unfoldable pub balance : List Transfer → ℤ
  balance ts = sub_ℕ (received ts) (sent ts)

  received-append : (ts us : List Transfer) → received (ts ++ us) ≡ received ts + received us
  unfolding received
  received-append [] us = omega arith
  received-append (t ∷ ts) us = omega (arith, received-append ts us)

  sent-append : (ts us : List Transfer) → sent (ts ++ us) ≡ sent ts + sent us
  unfolding sent
  sent-append [] us = omega arith
  sent-append (t ∷ ts) us = omega (arith, sent-append ts us)

-- The transfers of an external amount, between the pool and two other accounts.
moved_parts :
    (env : Env) (token sender recipient : Address) (v : ℤ)
    → sender ≢ env.current_contract_address
    → recipient ≢ env.current_contract_address
    → let ts = paid_in env token sender v ++ paid_out env token recipient v in
      (received token env.current_contract_address ts ≡ pos_part v)
      × (sent token env.current_contract_address ts ≡ neg_part v)
unfolding received sent
moved_parts env token sender recipient (pos zero) s r = ground arith
moved_parts env token sender recipient (pos (suc n)) s r = ground arith
moved_parts env token sender recipient (negsuc n) s r = ground arith

balance-append :
    (token account : Address) (ts us : List Transfer) (v : ℤ)
    → received token account us ≡ pos_part v
    → sent token account us ≡ neg_part v
    → balance token account (ts ++ us) ≡ balance token account ts +ℤ v
unfolding balance ◌+ℤ◌
balance-append token account ts us (pos n) r s =
    ground (arith, received-append token account ts us, sent-append token account ts us)
balance-append token account ts us (negsuc n) r s =
    ground (arith, received-append token account ts us, sent-append token account ts us)

-- A transaction that succeeds changes the pool's balance of its token by exactly the external
-- amount, if neither the sender nor the recipient is the pool itself.
pub balance-transact :
    (env : Env) (p q : Pool) (proof : Proof) (ext_data : ExtData) (sender token : Address)
    → transact env p proof ext_data sender ≡ ok q
    → p.token ≡ some token
    → sender ≢ env.current_contract_address
    → ext_data.recipient ≢ env.current_contract_address
    → balance token env.current_contract_address q.transfers
      ≡ balance token env.current_contract_address p.transfers +ℤ ext_data.ext_amount
balance-transact env p q proof ext_data sender token h e s r =
    let t = transact-Transacted env p proof ext_data sender q h in
    let same : t.token ≡ token = cc (t.configured, e) in
    let (i, o) = moved_parts env token sender ext_data.recipient ext_data.ext_amount s r in
    ap (λ (x : Pool). balance token env.current_contract_address x.transfers) t.result
    ∙ rw same
        (balance-append token env.current_contract_address p.transfers _ ext_data.ext_amount i o)
