-- ===== src/Pool/Contract/Admin.antt =====
-- Who may change the pool's settings.
use stellar_private_payments.Prelude.{◌↔◌, ◌≡◌, true, some, ok, arith}
use stellar_private_payments.Soroban.{Address}
use stellar_private_payments.Soroban
use stellar_private_payments.Pool.State.{Pool, Env}
use stellar_private_payments.Pool.Contract.{
  update_admin, update_asp_membership, update_asp_non_membership,
}
use stellar_private_payments.Pool.Contract.History.{
  Call, transacts, updates_admin, updates_asp_membership, updates_asp_non_membership, call,
}

-- The pool with the entry that a call of the administrator sets, and nothing else.
abbrev pub with_setting : Pool → Call → Pool
with_setting p (transacts proof ext_data sender) = p
with_setting p (updates_admin a) = record p { admin = some a }
with_setting p (updates_asp_membership a) = record p { asp_membership = some a }
with_setting p (updates_asp_non_membership a) = record p { asp_non_membership = some a }

abbrev pub IsSetting : Call → Type 0
IsSetting (transacts proof ext_data sender) = ⊥
IsSetting _ = Unit

-- A call that changes a setting succeeds exactly if the current administrator signed it; it then
-- sets that entry and leaves all else as it was.
pub setting-signed :
    (env : Env) (p : Pool) (c : Call) (q : Pool)
    → IsSetting c
    → (call env p c ≡ ok q) ↔ (
        (admin : Address) × (p.admin ≡ some admin)
        × (env.authorized admin ≡ true)
        × (q ≡ with_setting p c))
unfolding call update_admin update_asp_membership update_asp_non_membership Soroban.update_admin
setting-signed env p (transacts proof ext_data sender) q s = elim s [ ]
setting-signed env p (updates_admin a) q s =
    ((λ h. ground arith), λ (admin, e, signed, r). ground arith)
setting-signed env p (updates_asp_membership a) q s =
    ((λ h. ground arith), λ (admin, e, signed, r). ground arith)
setting-signed env p (updates_asp_non_membership a) q s =
    ((λ h. ground arith), λ (admin, e, signed, r). ground arith)
