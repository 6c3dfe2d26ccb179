-- ===== src/Examples/SessionRuns.antt =====
-- A session that withdraws all three notes of a wallet in two transactions, and the theorems there.
use stellar_private_payments.Prelude.{
  ℕ, ◌<◌, ◌≤◌, ◌≡◌, ◌⊎◌, refl, [], ◌∷◌, some, none, arith, length, ok, err, Outcome,
}
use stellar_private_payments.Prelude.Int.{negsuc}
use stellar_private_payments.TxPlanner.Combination
use stellar_private_payments.TxPlanner.Plan.{
  plan, plan_selected, check_range, plan_steps, merges, resolve, resolve_input_note,
}
use stellar_private_payments.TxPlanner.Session.{
  SpendSession, SpendSessionError, withdraw_to, Transact, complete, setup, step, complete_step,
  materialize_step, remove_spent,
}
use stellar_private_payments.TxPlanner.Session.Progress.{Reaches, start, completed, setup-Reaches}
use stellar_private_payments.TxPlanner.Session.Balance.{Balances, setup-Balances}
use stellar_private_payments.Examples.PlannerRuns.{sort, sort-IsSort, notes}

abbrev no_session : SpendSession
no_session = record {
  steps = [];
  wallet = [];
  pool_address = [];
  target = withdraw_to [];
  step_index = 0;
}

abbrev session_of : Outcome SpendSessionError SpendSession → SpendSession
session_of (ok s) = s
session_of _ = no_session

abbrev session : SpendSession
session = session_of (setup sort notes 15 (1 ∷ []) (withdraw_to (9 ∷ [])))

session_eq : setup sort notes 15 (1 ∷ []) (withdraw_to (9 ∷ [])) ≡ ok session
unfolding setup plan plan_selected check_range plan_steps merges Combination.find_combination
    Combination.two_loop Combination.two_scan Combination.one_scan Combination.dfs_leaf
    Combination.dfs Combination.greedy_loop Combination.greedy_impl Combination.k_loop
    Combination.k_scan Combination.overshoots Combination.one_or_more Combination.after_two
session_eq = refl

abbrev halfway : SpendSession
halfway = session_of (complete_step session (40, 41))

halfway_eq : complete_step session (40, 41) ≡ ok halfway
unfolding setup plan plan_selected check_range plan_steps merges Combination.find_combination
    Combination.two_loop Combination.two_scan Combination.one_scan Combination.dfs_leaf
    Combination.dfs Combination.greedy_loop Combination.greedy_impl Combination.k_loop
    Combination.k_scan Combination.overshoots Combination.one_or_more Combination.after_two
    complete_step resolve resolve_input_note remove_spent
halfway_eq = refl

halfway-Reaches : Reaches session 1 halfway
halfway-Reaches = completed (40, 41) start halfway_eq

setup-Reaches_example :
    (halfway.steps ≡ session.steps)
    × (halfway.pool_address ≡ session.pool_address)
    × (halfway.target ≡ session.target)
    × (halfway.step_index ≡ 1)
    × (1 ≤ length session.steps)
    × (length session.steps ≤ 9)
    × (((1 ≡ length session.steps)
          × (step halfway ≡ ok none)
          × ((outputs : ℕ × ℕ) → complete_step halfway outputs ≡ err complete))
        ⊎ ((1 < length session.steps) × ¬ (step halfway ≡ ok none)))
setup-Reaches_example =
    setup-Reaches sort sort-IsSort notes 15 (1 ∷ []) (withdraw_to (9 ∷ [])) session halfway 1
      (omega arith) session_eq halfway-Reaches

-- The withdrawal spends the merged note and one more.
abbrev withdrawal : Transact
withdrawal = record {
  input_commitments = 40 ∷ 32 ∷ [];
  output_amounts = (0, 0);
  ext_amount = negsuc 14;
  ext_recipient = 9 ∷ [];
  out_recipient_note_pubkeys = (none, none);
  out_recipient_encryption_pubkeys = (none, none);
}

withdrawal_eq : step halfway ≡ ok (some withdrawal)
unfolding setup plan plan_selected check_range plan_steps merges Combination.find_combination
    Combination.two_loop Combination.two_scan Combination.one_scan Combination.dfs_leaf
    Combination.dfs Combination.greedy_loop Combination.greedy_impl Combination.k_loop
    Combination.k_scan Combination.overshoots Combination.one_or_more Combination.after_two
    complete_step resolve resolve_input_note remove_spent step materialize_step
withdrawal_eq = refl

setup-Balances_example : Balances halfway.wallet withdrawal
setup-Balances_example =
    setup-Balances sort sort-IsSort notes 15 (1 ∷ []) (withdraw_to (9 ∷ [])) session halfway 1
      withdrawal (omega arith) session_eq halfway-Reaches withdrawal_eq
