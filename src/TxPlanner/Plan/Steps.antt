-- ===== src/TxPlanner/Plan/Steps.antt =====
-- The steps that merge the chosen notes: each spends what the step before it gave and one more note.
use stellar_private_payments.Prelude.{
  ℕ, suc, ◌+◌, ◌≤◌, ◌<◌, ◌≡◌, inl, refl, sym, ap, List, [], ◌∷◌, ◌++◌, Option, none, some, true,
  ok_or, arith, length, get_or, get_elem?-get_or, All,
}
use stellar_private_payments.TxPlanner.Selection.{Note}
use stellar_private_payments.Machine.{checked_add}
use stellar_private_payments.TxPlanner.Combination.{input_amount_overflow}
use stellar_private_payments.TxPlanner.Combination.Runs.{Runs, Runs-bind, checked_add-Runs}
use stellar_private_payments.TxPlanner.Plan.{
  SpendableNote, StepNote, StepAction, PlannedStep, consolidate, final, from_spendable, from_amount,
  last_is_final, merges, with_final,
}

abbrev pub note_at : List SpendableNote → ℕ → SpendableNote
note_at notes i = get_or notes i (record { commitment = 0; amount = 0 })

abbrev pub notes_at : List SpendableNote → List ℕ → List Note
notes_at notes [] = []
notes_at notes (i ∷ is) =
    ((note_at notes i).commitment, (note_at notes i).amount) ∷ notes_at notes is

abbrev pub amounts_at : List SpendableNote → List ℕ → ℕ
amounts_at notes [] = 0
amounts_at notes (i ∷ is) = (note_at notes i).amount + amounts_at notes is

abbrev pub InRange : List SpendableNote → List ℕ → Type 0
InRange notes is = All (λ i. i < length notes) is

abbrev pub amount_or_zero : Option ℕ → ℕ
amount_or_zero none = 0
amount_or_zero (some a) = a

abbrev pub second_amount : Option StepNote → ℕ
second_amount none = 0
second_amount (some n) = n.amount

abbrev pub input_total : PlannedStep → ℕ
input_total s = s.inputs.0.amount + second_amount s.inputs.1

-- The notes of the wallet that an input names: commitment and amount.
abbrev pub wallet_input : StepNote → List Note
wallet_input n = elim n.commitment [ none ↦ [] | some c ↦ (c, n.amount) ∷ [] ]

abbrev pub wallet_second : Option StepNote → List Note
wallet_second none = []
wallet_second (some n) = wallet_input n

abbrev pub wallet_inputs : List PlannedStep → List Note
wallet_inputs [] = []
wallet_inputs (s ∷ steps) =
    wallet_input s.inputs.0 ++ (wallet_second s.inputs.1 ++ wallet_inputs steps)

-- Steps that keep value: each but the last merges its inputs into one note, which is the first input
-- of the next, and the last pays the amount and the change.
pub data Pays (amount : ℕ) (change : Option ℕ) : StepNote → List PlannedStep → Type 0 where
  pay :
      {first : StepNote} (s : PlannedStep)
      → s.inputs.0 ≡ first
      → s.action ≡ final amount change
      → input_total s ≡ amount + amount_or_zero change
      → Pays amount change first (s ∷ [])
  merge :
      {first : StepNote} (s : PlannedStep) (rest : List PlannedStep) (output : ℕ)
      → s.inputs.0 ≡ first
      → s.action ≡ consolidate output
      → input_total s ≡ output
      → Pays amount change (from_amount output) rest
      → Pays amount change first (s ∷ rest)

module _ {amount : ℕ} {change : Option ℕ} where
  pub Pays-last_is_final :
      {first : StepNote} {steps : List PlannedStep}
      → Pays amount change first steps
      → last_is_final steps ≡ true
  Pays-last_is_final (pay s e e' h) = rw e' refl
  Pays-last_is_final (merge {first = first} s [] output e e' h p) = elim p [ ]
  Pays-last_is_final (merge s (t ∷ rest) output e e' h p) = Pays-last_is_final p

with_final_cons :
    (a : StepAction) (s : PlannedStep) (rest : List PlannedStep)
    → 0 < length rest
    → with_final a (s ∷ rest) ≡ s ∷ with_final a rest
with_final_cons a s [] h = absurd (omega arith)
with_final_cons a s (t ∷ rest) h = refl

pub length-with_final :
    (a : StepAction) (steps : List PlannedStep) → length (with_final a steps) ≡ length steps
length-with_final a [] = refl
length-with_final a (s ∷ []) = refl
length-with_final a (s ∷ t ∷ rest) = ap suc (length-with_final a (t ∷ rest))

module _ (notes : List SpendableNote) (amount : ℕ) (change : Option ℕ) (total : ℕ) where
  -- What the merging loop leaves, once the last action is set.
  pub record Merged (first : StepNote) (is : List ℕ) (steps : List PlannedStep) : Type 0 where
    pub pays : Pays amount change first (with_final (final amount change) steps)
    pub one_each : length steps ≡ length is
    pub inputs :
        wallet_inputs (with_final (final amount change) steps)
        ≡ wallet_input first ++ notes_at notes is

  merge_Merged :
      (first : StepNote) (i j : ℕ) (is : List ℕ) (rest : List PlannedStep) (output : ℕ)
      → first.amount + (note_at notes i).amount ≡ output
      → Merged (from_amount output) (j ∷ is) rest
      → Merged first (i ∷ j ∷ is) (
          record {
            inputs = (first, some (from_spendable (note_at notes i)));
            action = consolidate output;
          }
          ∷ rest)
  merge_Merged first i j is rest output e m =
      let step : PlannedStep = record {
        inputs = (first, some (from_spendable (note_at notes i)));
        action = consolidate output;
      } in
      let split = with_final_cons (final amount change) step rest (omega (arith, m.one_each)) in
      record {
        pays = rw split (merge step _ output refl refl e m.pays);
        one_each = omega (arith, m.one_each);
        inputs = rw (split, m.inputs) refl;
      }

  pub merges-Merged :
      (i : ℕ) (is : List ℕ) (first : StepNote)
      → InRange notes (i ∷ is)
      → first.amount + amounts_at notes (i ∷ is) ≡ amount + amount_or_zero change
      → amount + amount_or_zero change ≤ total
      → Runs total (merges notes (i ∷ is) first.amount first) (Merged first (i ∷ is))
  unfolding merges
  merges-Merged i [] first r e h =
      rw (get_elem?-get_or notes i (record { commitment = 0; amount = 0 }) r.0) (
        Runs-bind (Merged first (i ∷ [])) total
          (ok_or (checked_add 128 first.amount (note_at notes i).amount) input_amount_overflow) _
          (checked_add-Runs total first.amount (note_at notes i).amount (omega arith))
          (λ s e'. inl (
            _,
            refl,
            record { pays = pay _ refl refl (omega arith); one_each = refl; inputs = refl },
          )))
  merges-Merged i (j ∷ is) first r e h =
      rw (get_elem?-get_or notes i (record { commitment = 0; amount = 0 }) r.0) (
        Runs-bind (Merged first (i ∷ j ∷ is)) total
          (ok_or (checked_add 128 first.amount (note_at notes i).amount) input_amount_overflow) _
          (checked_add-Runs total first.amount (note_at notes i).amount (omega arith))
          (λ s e'.
            Runs-bind (Merged first (i ∷ j ∷ is)) total _ _
              (merges-Merged j is (from_amount s) r.1 (omega arith) h)
              (λ rest m. inl (_, refl, merge_Merged first i j is rest s (sym e') m))))
