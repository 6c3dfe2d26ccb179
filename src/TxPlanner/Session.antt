-- ===== src/TxPlanner/Session.antt =====
-- app/crates/core/tx-planner/src/execute: a session that carries a plan through its transactions.
-- Keys are numbers, and strings are lists of characters.
pub mod Progress
pub mod Balance
use stellar_private_payments.Prelude.{
  ℕ, zero, suc, ◌+◌, ◌^◌, Bool, true, false, not, List, [], ◌∷◌, ◌++◌, Option, none, some, leb, ltb,
  ◌==◌, length, get_elem?, if◌then◌else◌, Outcome, ok, err, ok_or, or_panic, ensure, map_err, ◌>>=◌,
  ◌>>◌,
}
use stellar_private_payments.Prelude.Int.{ℤ, pos, negsuc}
use stellar_private_payments.TxPlanner.Selection.{Note}
use stellar_private_payments.TxPlanner.Combination.{PlanError}
use stellar_private_payments.TxPlanner.Plan.{
  SpendableNote, StepAction, consolidate, final, PlannedStep, plan, resolve,
}

pub data SpendSessionError : Type 0 where
  of_plan : PlanError → SpendSessionError
  complete ext_amount_overflow missing_withdraw_recipient : SpendSessionError

pub data SpendTarget : Type 0 where
  transfer_to : ℕ → ℕ → SpendTarget
  withdraw_to : List ℕ → SpendTarget

pub record Transact : Type 0 where
  pub input_commitments : List ℕ
  pub output_amounts : ℕ × ℕ
  pub ext_amount : ℤ
  pub ext_recipient : List ℕ
  pub out_recipient_note_pubkeys : Option ℕ × Option ℕ
  pub out_recipient_encryption_pubkeys : Option ℕ × Option ℕ

pub record SpendSession : Type 0 where
  pub steps : List PlannedStep
  pub wallet : List SpendableNote
  pub pool_address : List ℕ
  pub target : SpendTarget
  pub step_index : ℕ

abbrev pub validate_target : SpendTarget → Outcome SpendSessionError (Unit {0})
validate_target (withdraw_to []) = err missing_withdraw_recipient
validate_target _ = ok tt

unfoldable pub setup :
    (List Note → List Note)
    → List SpendableNote
    → ℕ
    → List ℕ
    → SpendTarget
    → Outcome SpendSessionError SpendSession
setup sort wallet amount pool_address target = do
  validate_target target
  tx_plan ← map_err of_plan (plan sort amount wallet)
  ok (record {
    steps = tx_plan;
    wallet = wallet;
    pool_address = pool_address;
    target = target;
    step_index = 0;
  })

abbrev pub is_done : SpendSession → Bool
is_done s = leb (length s.steps) s.step_index

abbrev pub commitments_of : List SpendableNote → List ℕ
commitments_of [] = []
commitments_of (note ∷ notes) = note.commitment ∷ commitments_of notes

abbrev pub or_zero : Option ℕ → ℕ
or_zero none = 0
or_zero (some a) = a

-- `ExtAmount::try_from` of a note amount and `checked_neg`: an i128 above its least value.
abbrev pub negated : ℕ → Option ℤ
negated zero = some (pos 0)
negated (suc n) = if ltb (suc n) (2 ^ 127) then some (negsuc n) else none

-- The recipient's key twice where there is no change.
abbrev pub keys_of : ℕ → Option ℕ → Option ℕ × Option ℕ
keys_of key none = (some key, some key)
keys_of key (some change) = (some key, none)

unfoldable pub materialize_step :
    PlannedStep → List ℕ → SpendTarget → List SpendableNote → Outcome SpendSessionError Transact
materialize_step step pool_address target resolved_inputs = elim step.action [
  | consolidate output ↦ ok (record {
    input_commitments = commitments_of resolved_inputs;
    output_amounts = (output, 0);
    ext_amount = pos 0;
    ext_recipient = pool_address;
    out_recipient_note_pubkeys = (none, none);
    out_recipient_encryption_pubkeys = (none, none);
  })
  | final amount change ↦ elim target [
    | transfer_to recipient_note recipient_enc ↦ ok (record {
      input_commitments = commitments_of resolved_inputs;
      output_amounts = (amount, or_zero change);
      ext_amount = pos 0;
      ext_recipient = pool_address;
      out_recipient_note_pubkeys = keys_of recipient_note change;
      out_recipient_encryption_pubkeys = keys_of recipient_enc change;
    })
    | withdraw_to recipient ↦ (do
      ext_amount ← ok_or (negated amount) ext_amount_overflow
      ok (record {
        input_commitments = commitments_of resolved_inputs;
        output_amounts = (or_zero change, 0);
        ext_amount = ext_amount;
        ext_recipient = recipient;
        out_recipient_note_pubkeys = (none, none);
        out_recipient_encryption_pubkeys = (none, none);
      }))
  ]
]

unfoldable pub step : SpendSession → Outcome SpendSessionError (Option Transact)
step s = elim (is_done s) [
  | true ↦ ok none
  | false ↦ (do
    planned ← or_panic (get_elem? s.steps s.step_index)
    resolved ← map_err of_plan (resolve planned s.wallet)
    transaction ← materialize_step planned s.pool_address s.target resolved
    ok (some transaction))
]

-- `wallet.retain(|n| n.commitment != commitment)`
abbrev pub retain_other : ℕ → List SpendableNote → List SpendableNote
retain_other commitment [] = []
retain_other commitment (n ∷ notes) =
    if n.commitment == commitment
    then retain_other commitment notes
    else n ∷ retain_other commitment notes

unfoldable pub remove_spent : List SpendableNote → List SpendableNote → List SpendableNote
remove_spent wallet [] = wallet
remove_spent wallet (note ∷ spent) = remove_spent (retain_other note.commitment wallet) spent

-- The note that a merge leaves.
abbrev pub merge_output : StepAction → ℕ → List SpendableNote
merge_output (consolidate output) commitment =
    record { commitment = commitment; amount = output } ∷ []
merge_output (final amount change) commitment = []

unfoldable pub complete_step : SpendSession → ℕ × ℕ → Outcome SpendSessionError SpendSession
complete_step s output_commitments = do
  ensure (not (is_done s)) complete
  planned ← or_panic (get_elem? s.steps s.step_index)
  spent ← map_err of_plan (resolve planned s.wallet)
  ok (record s {
    wallet = remove_spent s.wallet spent ++ merge_output planned.action output_commitments.0;
    step_index = s.step_index + 1;
  })
