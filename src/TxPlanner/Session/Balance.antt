-- ===== src/TxPlanner/Session/Balance.antt =====
-- The transactions of a session balance.
use stellar_private_payments.Prelude.{
  ◌>>=◌, >>=-eq-ok, Outcome, map_err, map_err-eq-ok, ok_or, ok_or-eq-ok, or_panic, or_panic-eq-ok,
  ℕ, zero, suc, ◌+◌, ◌<◌, ◌^◌, ◌≡◌, refl, sym, ◌∙◌, Bool-cases, List, [], ◌∷◌, Option, none, some,
  inl, inr, arith, length, All, ok, get_elem?,
}
use stellar_private_payments.Prelude.Int.{ℤ, pos_part, neg_part}
use stellar_private_payments.TxPlanner.Selection.{Note}
use stellar_private_payments.TxPlanner.Combination.Found.{IsSort}
use stellar_private_payments.TxPlanner.Plan.{
  SpendableNote, StepNote, StepAction, consolidate, final, PlannedStep, resolve, resolve_input_note,
}
use stellar_private_payments.TxPlanner.Plan.Resolve.{In, resolve_input_note-Named}
use stellar_private_payments.TxPlanner.Plan.Steps.{
  Pays, pay, merge, input_total, amount_or_zero, second_amount,
}
use stellar_private_payments.TxPlanner.Session.{
  SpendSession, SpendSessionError, SpendTarget, transfer_to, withdraw_to, Transact, setup, is_done,
  step, materialize_step, commitments_of, ext_amount_overflow, or_zero, negated, of_plan,
}
use stellar_private_payments.TxPlanner.Session.Progress.{Reaches, setup-Spends, setup-Reaches}

abbrev pub total : List SpendableNote → ℕ
total [] = 0
total (note ∷ notes) = note.amount + total notes

-- A step gives out what it takes in.
abbrev Balanced : PlannedStep → Type 0
Balanced s = elim s.action [
  | consolidate output ↦ input_total s ≡ output
  | final amount change ↦ input_total s ≡ amount + or_zero change
]

or_zero-eq : (change : Option ℕ) → amount_or_zero change ≡ or_zero change
or_zero-eq none = refl
or_zero-eq (some a) = refl

Pays-Balanced :
    (amount : ℕ) (change : Option ℕ) (first : StepNote) (steps : List PlannedStep)
    → Pays amount change first steps
    → All Balanced steps
Pays-Balanced amount change first steps (pay s e e' h) = (rw (e', ← or_zero-eq change) h, tt)
Pays-Balanced amount change first steps (merge s rest output e e' h p) =
    (rw e' h, Pays-Balanced amount change _ rest p)

All-get_elem? :
    (xs : List PlannedStep) (i : ℕ) (x : PlannedStep)
    → All Balanced xs
    → get_elem? xs i ≡ some x
    → Balanced x
All-get_elem? [] i x a h = absurd cc
All-get_elem? (y ∷ xs) zero x a h = let e : y ≡ x = ground arith in rw (← e) a.0
All-get_elem? (y ∷ xs) (suc i) x a h = All-get_elem? xs i x a.1 h

one_total :
    (x : StepNote) (a : SpendableNote) (ns out : List SpendableNote)
    → a ∷ [] ≡ out
    → a.amount ≡ x.amount
    → In a ns
    → (total out ≡ x.amount + second_amount none) × All (λ n. In n ns) out
one_total x a ns out e h i = rw (← e) (omega arith, (i, tt))

two_total :
    (x y : StepNote) (a b : SpendableNote) (ns out : List SpendableNote)
    → a ∷ b ∷ [] ≡ out
    → a.amount ≡ x.amount
    → b.amount ≡ y.amount
    → In a ns
    → In b ns
    → (total out ≡ x.amount + second_amount (some y)) × All (λ n. In n ns) out
two_total x y a b ns out e h h' i j = rw (← e) (omega arith, (i, (j, tt)))

resolve_inputs-total :
    (x : StepNote) (second : Option StepNote) (action : StepAction) (ns out : List SpendableNote)
    → resolve (record { inputs = (x, second); action = action }) ns ≡ ok out
    → (total out ≡ x.amount + second_amount second) × All (λ n. In n ns) out
unfolding resolve
resolve_inputs-total x none action ns out h =
    let (a, ea, h1) = >>=-eq-ok (resolve_input_note x ns none) _ h in
    let p = resolve_input_note-Named x ns none a ea in
    let e : a ∷ [] ≡ out = ground arith in one_total x a ns out e p.same_amount p.in_wallet
resolve_inputs-total x (some y) action ns out h =
    let (a, ea, h1) = >>=-eq-ok (resolve_input_note x ns (some y)) _ h in
    let (b, eb, h2) = >>=-eq-ok (resolve_input_note y ns (some x)) _ h1 in
    let p = resolve_input_note-Named x ns (some y) a ea in
    let q = resolve_input_note-Named y ns (some x) b eb in
    let e : a ∷ b ∷ [] ≡ out = ground arith in
    two_total x y a b ns out e p.same_amount q.same_amount p.in_wallet q.in_wallet

-- What a step resolves to: notes of the wallet, which sum to its inputs.
resolve-total :
    (s : PlannedStep) (ns out : List SpendableNote)
    → resolve s ns ≡ ok out
    → (total out ≡ input_total s) × All (λ n. In n ns) out
resolve-total s ns out h = resolve_inputs-total s.inputs.0 s.inputs.1 s.action ns out h

-- A transaction's inputs and outputs.
pub record Balances (wallet : List SpendableNote) (tx : Transact) : Type 0 where
  pub spent : List SpendableNote
  pub named : tx.input_commitments ≡ commitments_of spent
  pub owned : All (λ n. In n wallet) spent
  pub balance :
      total spent + pos_part tx.ext_amount
      ≡ tx.output_amounts.0 + tx.output_amounts.1 + neg_part tx.ext_amount

negated-parts :
    (amount : ℕ) (z : ℤ) → negated amount ≡ some z → (pos_part z ≡ 0) × (neg_part z ≡ amount)
negated-parts zero z h = ground arith
negated-parts (suc n) z h = ground arith

module _ (wallet spent : List SpendableNote) (owned : All (λ n. In n wallet) spent)
    (pool_address : List ℕ) where
  materialize_final-Balances :
      (inputs : StepNote × Option StepNote) (target : SpendTarget) (amount : ℕ) (change : Option ℕ)
      (tx : Transact)
      → total spent ≡ amount + or_zero change
      → materialize_step
          (record { inputs = inputs; action = final amount change })
          pool_address
          target
          spent
        ≡ ok tx
      → Balances wallet tx
  unfolding materialize_step
  materialize_final-Balances inputs (transfer_to note enc) amount change tx sum h = record {
    spent = spent;
    named = ground arith;
    owned = owned;
    balance = ground arith;
  }
  materialize_final-Balances inputs (withdraw_to recipient) amount change tx sum h =
      let (z, e, h1) = >>=-eq-ok (ok_or (negated amount) ext_amount_overflow) _ h in
      let (a, b) = negated-parts amount z (ok_or-eq-ok (negated amount) ext_amount_overflow e) in
      record { spent = spent; named = ground arith; owned = owned; balance = ground arith }

  materialize-Balances :
      (inputs : StepNote × Option StepNote) (target : SpendTarget) (action : StepAction)
      (tx : Transact)
      → total spent ≡ inputs.0.amount + second_amount inputs.1
      → Balanced (record { inputs = inputs; action = action })
      → materialize_step (record { inputs = inputs; action = action }) pool_address target spent
        ≡ ok tx
      → Balances wallet tx
  unfolding materialize_step
  materialize-Balances inputs target (consolidate output) tx sum b h = record {
    spent = spent;
    named = ground arith;
    owned = owned;
    balance = ground arith;
  }
  materialize-Balances inputs target (final amount change) tx sum b h =
      materialize_final-Balances inputs target amount change tx (sum ∙ b) h

-- What a session that is not done gives.
abbrev current : SpendSession → Outcome SpendSessionError (Option Transact)
current t = do
  planned ← or_panic (get_elem? t.steps t.step_index)
  resolved ← map_err of_plan (resolve planned t.wallet)
  transaction ← materialize_step planned t.pool_address t.target resolved
  ok (some transaction)

step-Balances :
    (t : SpendSession) (tx : Transact)
    → All Balanced t.steps
    → step t ≡ ok (some tx)
    → Balances t.wallet tx
unfolding step
step-Balances t tx balanced h = elim (Bool-cases (is_done t)) [
  | inl done ↦ absurd (ground arith)
  | inr more ↦
      let h0 : current t ≡ ok (some tx) = rw (step, more) at h in
      let (planned, at_index, h1) = >>=-eq-ok (or_panic (get_elem? t.steps t.step_index)) _ h0 in
      let (spent, resolved, h2) = >>=-eq-ok (map_err of_plan (resolve planned t.wallet)) _ h1 in
      let (tx', made, h3) =
        >>=-eq-ok (materialize_step planned t.pool_address t.target spent) _ h2 in
      let found = or_panic-eq-ok (get_elem? t.steps t.step_index) at_index in
      let (sum, owned) =
        resolve-total planned t.wallet spent
          (map_err-eq-ok of_plan (resolve planned t.wallet) resolved) in
      let same : tx' ≡ tx = ground arith in
      rw same at (
        materialize-Balances t.wallet spent owned t.pool_address planned.inputs t.target
          planned.action tx' sum (All-get_elem? t.steps t.step_index planned balanced found) made)
]

-- Whenever a session, after any completed steps, gives a transaction, its inputs are notes that its
-- wallet then holds, and it balances: the notes and what comes in from outside sum to the outputs
-- and what goes outside.
pub setup-Balances :
    (sort : List Note → List Note)
    → IsSort sort
    → (wallet : List SpendableNote) (amount : ℕ) (pool_address : List ℕ) (target : SpendTarget)
      (s t : SpendSession) (n : ℕ) (tx : Transact)
    → length wallet < 2 ^ 64
    → setup sort wallet amount pool_address target ≡ ok s
    → Reaches s n t
    → step t ≡ ok (some tx)
    → Balances t.wallet tx
setup-Balances sort is_sort wallet amount pool_address target s t n tx few made r h =
    let (spends, z) = setup-Spends sort is_sort wallet amount pool_address target s few made in
    let balanced = Pays-Balanced amount spends.change spends.first s.steps spends.pays in
    let same = (setup-Reaches sort is_sort wallet amount pool_address target s t n few made r).0 in
    step-Balances t tx (rw (sym same) at balanced) h
