-- ===== src/Pool/Contract/Effects.antt =====
-- What a transaction that succeeds changes.
use stellar_private_payments.Prelude.{
  Outcome, err, panic, ℕ, zero, suc, ◌≡◌, refl, ◌∙◌, Bool, true, false, ◌||◌, Option, none, some,
  List, [], ◌∷◌, ◌++◌, map, arith, update, ◌==◌, ok,
}
use stellar_private_payments.Prelude.Int.{ℤ, pos, negsuc}
use mathlib.Core.List.{append_assoc, append-nil}
use stellar_private_payments.Soroban.{Address, i256_neg}
use stellar_private_payments.Pool.State.{
  Error, not_initialized, ExtData, Pool, Env, Transfer, new_nullifier,
}
use stellar_private_payments.Pool.Amounts.{i256_to_i128_nonneg}
use stellar_private_payments.Pool.Contract.{
  mark_spent, mark_all, mark_or_skip, unwrap_spent, token_transfer, deposit, withdraw,
  pay_recipient,
}

-- What a deposit of the external amount `v` transfers, and what a withdrawal does.
abbrev pub paid_in : Env → Address → Address → ℤ → List Transfer
paid_in env token sender (pos zero) = []
paid_in env token sender (pos (suc n)) =
    record { token = token; from = sender; to = env.current_contract_address; amount = suc n } ∷ []
paid_in env token sender (negsuc n) = []

abbrev pub paid_out : Env → Address → Address → ℤ → List Transfer
paid_out env token recipient (pos n) = []
paid_out env token recipient (negsuc n) =
    record { token = token; from = env.current_contract_address; to = recipient; amount = suc n }
    ∷ []

abbrev pub contains : ℕ → List ℕ → Bool
contains n [] = false
contains n (m ∷ ms) = n == m || contains n ms

mark : Option (ℕ → Option Bool) → ℕ → Option (ℕ → Option Bool)
mark none n = none
mark (some nulls) n = some (update nulls n (some true))

pub marked : Option (ℕ → Option Bool) → List ℕ → Option (ℕ → Option Bool)
marked nulls [] = nulls
marked nulls (n ∷ ns) = marked (mark nulls n) ns

mark_spent-eq :
    (p : Pool) (n : ℕ)
    → mark_or_skip p (mark_spent p n) ≡ record p { nullifiers = mark p.nullifiers n }
unfolding mark_spent mark
mark_spent-eq p n = ground arith

pub mark_all-eq :
    (p : Pool) (ns : List ℕ)
    → mark_all p ns
      ≡ record p { nullifiers = marked p.nullifiers ns; events = p.events ++ map new_nullifier ns }
unfolding mark_all marked
mark_all-eq p [] = rw (append-nil p.events) refl
mark_all-eq p (n ∷ ns) = rw (mark_spent-eq p n) (
    mark_all-eq
      (record p { nullifiers = mark p.nullifiers n; events = p.events ++ new_nullifier n ∷ [] }) ns
    ∙ rw (append_assoc p.events (new_nullifier n ∷ []) (map new_nullifier ns)) refl)

-- What `is_spent` reads.
abbrev pub spent_in : Option (ℕ → Option Bool) → ℕ → Outcome Error Bool
spent_in none n = err not_initialized
spent_in (some nulls) n = ok (unwrap_spent (nulls n))

abbrev pub or_spent : Bool → Outcome Error Bool → Outcome Error Bool
or_spent true (ok b) = ok true
or_spent false (ok b) = ok b
or_spent b (err e) = err e
or_spent b panic = panic

-- After the marking a nullifier is spent if it was, or if it is one of those marked.
pub spent_in-marked :
    (nulls : Option (ℕ → Option Bool)) (ns : List ℕ) (n : ℕ)
    → spent_in (marked nulls ns) n ≡ or_spent (contains n ns) (spent_in nulls n)
unfolding marked mark
spent_in-marked none [] n = refl
spent_in-marked (some nulls) [] n = refl
spent_in-marked none (m ∷ ms) n = spent_in-marked none ms n ∙ ground arith
spent_in-marked (some nulls) (m ∷ ms) n =
    spent_in-marked (some (update nulls m (some true))) ms n ∙ ground arith

pub deposit-eq :
    (env : Env) (p q : Pool) (token : Address) (ext_data : ExtData) (sender : Address) (v : ℤ)
    → ext_data.ext_amount ≡ v
    → deposit env p token ext_data sender ≡ ok q
    → q ≡ record p { transfers = p.transfers ++ paid_in env token sender v }
unfolding deposit token_transfer i256_to_i128_nonneg
deposit-eq env p q token ext_data sender (pos zero) e h = ground (arith, append-nil p.transfers)
deposit-eq env p q token ext_data sender (pos (suc n)) e h = ground arith
deposit-eq env p q token ext_data sender (negsuc n) e h = ground (arith, append-nil p.transfers)

pub withdraw-eq :
    (env : Env) (p q : Pool) (token : Address) (ext_data : ExtData) (v : ℤ)
    → p.token ≡ some token
    → ext_data.ext_amount ≡ v
    → withdraw env p ext_data ≡ ok q
    → q ≡ record p { transfers = p.transfers ++ paid_out env token ext_data.recipient v }
unfolding withdraw pay_recipient token_transfer i256_to_i128_nonneg i256_neg
withdraw-eq env p q token ext_data (pos n) t e h = ground (arith, append-nil p.transfers)
withdraw-eq env p q token ext_data (negsuc n) t e h = ground arith
