-- ===== src/TxPlanner/Plan.antt =====
-- app/crates/core/tx-planner/src/plan/mod.rs: a plan of transactions of at most two inputs and two
-- outputs. A plan is the list of its steps; the commitments of notes are field elements.
pub mod Steps
pub mod Resolve
pub mod Spends
use stellar_private_payments.Prelude.{
  ℕ, Bool, true, false, not, List, [], ◌∷◌, Option, none, some, leb, ltb, ◌==◌, ◌&&◌, length,
  get_elem?, if◌then◌else◌, Outcome, ok, err, panic, ok_or, or_panic, ensure, ◌>>=◌, ◌>>◌,
}
use stellar_private_payments.Machine.{checked_add}
use stellar_private_payments.TxPlanner.Selection.{Note}
use stellar_private_payments.TxPlanner.Combination.{
  PlanError, no_spendable_notes, no_combination, input_amount_overflow, invalid_plan,
  too_many_notes, note_index_out_of_range, commitment_not_found, note_amount_mismatch,
  no_note_for_amount, ambiguous_note_for_amount, transaction_limit, CombinationResult, two_exact,
  one_exact, two_overshoot, one_overshoot, exact_k, overshoot, impossible, find_combination,
}

pub record SpendableNote : Type 0 where
  pub commitment : ℕ
  pub amount : ℕ

pub record StepNote : Type 0 where
  pub commitment : Option ℕ
  pub amount : ℕ

pub data StepAction : Type 0 where
  consolidate : ℕ → StepAction
  final : ℕ → Option ℕ → StepAction

pub record PlannedStep : Type 0 where
  pub inputs : StepNote × Option StepNote
  pub action : StepAction

abbrev pub from_spendable : SpendableNote → StepNote
from_spendable note = record { commitment = some note.commitment; amount = note.amount }

abbrev pub from_amount : ℕ → StepNote
from_amount amount = record { commitment = none; amount = amount }

abbrev pub last_is_final : List PlannedStep → Bool
last_is_final [] = false
last_is_final (s ∷ []) = elim s.action [ consolidate a ↦ false | final a c ↦ true ]
last_is_final (s ∷ t ∷ r) = last_is_final (t ∷ r)

-- `TransactionPlan::assemble`
abbrev pub assemble : List PlannedStep → Option (List PlannedStep)
assemble steps = if last_is_final steps then some steps else none

abbrev pub amounts_of : List SpendableNote → List ℕ
amounts_of [] = []
amounts_of (n ∷ ns) = n.amount ∷ amounts_of ns

-- The chosen indices and the change, unless there is no combination.
abbrev pub selection_of : CombinationResult → Option (List ℕ × Option ℕ)
selection_of impossible = none
selection_of (one_exact i) = some (i ∷ [], none)
selection_of (two_exact i j) = some (i ∷ j ∷ [], none)
selection_of (one_overshoot i excess) = some (i ∷ [], some excess)
selection_of (two_overshoot i j excess) = some (i ∷ j ∷ [], some excess)
selection_of (exact_k indices) = some (indices, none)
selection_of (overshoot indices excess) = some (indices, some excess)

unfoldable pub check_range : ℕ → List ℕ → Outcome PlanError (Unit {0})
check_range n [] = ok tt
check_range n (i ∷ is) = do ensure (ltb i n) (note_index_out_of_range i); check_range n is

-- The loop over the notes after the first: each is merged with what came before.
unfoldable pub merges :
    List SpendableNote → List ℕ → ℕ → StepNote → Outcome PlanError (List PlannedStep)
merges notes [] sum prev_note = ok []
merges notes (i ∷ is) sum prev_note = do
  note ← or_panic (get_elem? notes i)
  next_sum ← ok_or (checked_add 128 sum note.amount) input_amount_overflow
  rest ← merges notes is next_sum (from_amount next_sum)
  ok (
      record { inputs = (prev_note, some (from_spendable note)); action = consolidate next_sum }
      ∷ rest)

-- `steps.last_mut()` gets this action.
abbrev pub with_final : StepAction → List PlannedStep → List PlannedStep
with_final a [] = []
with_final a (s ∷ []) = record s { action = a } ∷ []
with_final a (s ∷ t ∷ r) = s ∷ with_final a (t ∷ r)

unfoldable pub plan_steps :
    List SpendableNote → ℕ → Option ℕ → List ℕ → Outcome PlanError (List PlannedStep)
plan_steps notes amount change [] = panic
plan_steps notes amount change (i ∷ []) = do
  note0 ← or_panic (get_elem? notes i)
  ok (record { inputs = (from_spendable note0, none); action = final amount change } ∷ [])
plan_steps notes amount change (i ∷ j ∷ is) = do
  note0 ← or_panic (get_elem? notes i)
  steps ← merges notes (j ∷ is) note0.amount (from_spendable note0)
  ok (with_final (final amount change) steps)

unfoldable pub plan_selected :
    List SpendableNote → ℕ → List ℕ × Option ℕ → Outcome PlanError (List PlannedStep)
plan_selected notes amount selection = do
  ensure (leb (length selection.0) transaction_limit)
      (too_many_notes (length selection.0) transaction_limit)
  check_range (length notes) selection.0
  steps ← plan_steps notes amount selection.1 selection.0
  ok_or (assemble steps) invalid_plan

unfoldable pub plan :
    (List Note → List Note) → ℕ → List SpendableNote → Outcome PlanError (List PlannedStep)
plan sort amount [] = err no_spendable_notes
plan sort amount (note ∷ notes) = do
  combo ← find_combination sort (amounts_of (note ∷ notes)) amount
  selection ← ok_or (selection_of combo) no_combination
  plan_selected (note ∷ notes) amount selection

-- `notes.iter().find(|note| note.commitment == commitment)`
abbrev pub find_commitment : ℕ → List SpendableNote → Option SpendableNote
find_commitment c [] = none
find_commitment c (n ∷ ns) = if n.commitment == c then some n else find_commitment c ns

abbrev pub excludes : Option ℕ → SpendableNote → Bool
excludes none n = false
excludes (some c) n = c == n.commitment

-- The notes of this amount, but for the sibling's commitment.
abbrev pub matches : ℕ → Option ℕ → List SpendableNote → List SpendableNote
matches amount excluded [] = []
matches amount excluded (n ∷ ns) =
    if n.amount == amount && not (excludes excluded n)
    then n ∷ matches amount excluded ns
    else matches amount excluded ns

abbrev pub commitment_of : Option StepNote → Option ℕ
commitment_of none = none
commitment_of (some n) = n.commitment

abbrev pub only_match : ℕ → List SpendableNote → Outcome PlanError SpendableNote
only_match amount [] = err (no_note_for_amount amount)
only_match amount (n ∷ []) = ok n
only_match amount (n ∷ m ∷ ns) = err (ambiguous_note_for_amount amount)

unfoldable pub resolve_input_note :
    StepNote → List SpendableNote → Option StepNote → Outcome PlanError SpendableNote
resolve_input_note input notes sibling = elim input.commitment [
  | some commitment ↦ (do
    note ← ok_or (find_commitment commitment notes) (commitment_not_found commitment)
    ensure (note.amount == input.amount) (note_amount_mismatch commitment note.amount input.amount)
    ok note)
  | none ↦ only_match input.amount (matches input.amount (commitment_of sibling) notes)
]

unfoldable pub resolve : PlannedStep → List SpendableNote → Outcome PlanError (List SpendableNote)
resolve step notes = do
  first ← resolve_input_note step.inputs.0 notes step.inputs.1
  elim step.inputs.1 [
    | none ↦ ok (first ∷ [])
    | some input ↦ (do
      second ← resolve_input_note input notes (some step.inputs.0)
      ok (first ∷ second ∷ []))
  ]
