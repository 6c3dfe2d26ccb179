-- ===== src/TxPlanner/Plan/Spends.antt =====
-- What `plan` returns, in every case.
use stellar_private_payments.Prelude.{
  ℕ, suc, ◌+◌, ◌-◌, ◌^◌, ◌≤◌, ◌<◌, ◌≡◌, inl, inr, refl, sym, ap, ◌∙◌, List, [], ◌∷◌, Option, none,
  some, ok, ok_or, arith, length, get_elem?-get_or, All, Outcome, err, lt→ltb, leb, Bool-cases,
  leb→le, ◌>>=◌,
}
use stellar_private_payments.TxPlanner.Selection.{
  Note, Chosen, Chosen-All, Chosen-total, total_amount, indices_of,
}
use stellar_private_payments.TxPlanner.Combination.{
  PlanError, invalid_plan, no_spendable_notes, no_combination, input_amount_overflow,
  too_many_notes, enumerate, CombinationResult, two_exact, one_exact, two_overshoot, one_overshoot,
  exact_k, overshoot, impossible,
}
use stellar_private_payments.TxPlanner.Combination.Runs.{Runs, Runs-bind, Reaches}
use stellar_private_payments.TxPlanner.Combination.Found.{
  IsSort, Selects, find_combination-Selects, length-enumerate,
}
use stellar_private_payments.TxPlanner.Plan.{
  SpendableNote, StepNote, PlannedStep, from_spendable, final, assemble, amounts_of, selection_of,
  check_range, plan_steps, plan_selected, plan,
}
use stellar_private_payments.TxPlanner.Plan.Steps.{
  note_at, notes_at, amounts_at, InRange, amount_or_zero, wallet_inputs, Pays, pay,
  Pays-last_is_final, length-with_final, merges-Merged,
}

abbrev pub wallet : List SpendableNote → List Note
wallet notes = enumerate 0 (amounts_of notes)

-- A pair of the enumeration is an index of the wallet and the amount there.
abbrev Listed : List SpendableNote → ℕ → Note → Type 0
Listed notes i p = (j : ℕ) × (p.0 ≡ i + j) × (j < length notes) × ((note_at notes j).amount ≡ p.1)

shift :
    (n : SpendableNote) (notes : List SpendableNote) (i : ℕ) (xs : List Note)
    → All (Listed notes (i + 1)) xs
    → All (Listed (n ∷ notes) i) xs
shift n notes i [] a = tt
shift n notes i (x ∷ xs) ((j, e, lt, e'), a) =
    ((suc j, omega arith, omega arith, e'), shift n notes i xs a)

enumerate-Listed :
    (notes : List SpendableNote) (i : ℕ) → All (Listed notes i) (enumerate i (amounts_of notes))
enumerate-Listed [] i = tt
enumerate-Listed (n ∷ notes) i =
    ((0, omega arith, omega arith, refl), shift n notes i _ (enumerate-Listed notes (i + 1)))

picked-InRange :
    (notes : List SpendableNote) (xs : List Note)
    → All (Listed notes 0) xs
    → InRange notes (indices_of xs) × (amounts_at notes (indices_of xs) ≡ total_amount xs)
picked-InRange notes [] a = (tt, refl)
picked-InRange notes (x ∷ xs) ((j, e, lt, e'), a) =
    let (r, t) = picked-InRange notes xs a in
    let same : x.0 ≡ j = omega arith in ((omega arith, r), rw (same, e', t) refl)

length-amounts_of : (notes : List SpendableNote) → length (amounts_of notes) ≡ length notes
length-amounts_of [] = refl
length-amounts_of (n ∷ notes) = ap suc (length-amounts_of notes)

length-wallet : (notes : List SpendableNote) → length (wallet notes) ≡ length notes
length-wallet notes = length-enumerate 0 (amounts_of notes) ∙ length-amounts_of notes

check_range-eq-ok :
    (notes : List SpendableNote) (is : List ℕ)
    → InRange notes is
    → check_range (length notes) is ≡ ok tt
unfolding check_range
check_range-eq-ok notes [] r = refl
check_range-eq-ok notes (i ∷ is) r =
    rw (lt→ltb i (length notes) r.0) (check_range-eq-ok notes is r.1)

-- A plan spends notes of the wallet, each at most once, in at most nine steps that keep value and end
-- with the payment and its change.
pub record Spends (notes : List SpendableNote) (amount : ℕ) (steps : List PlannedStep)
    : Type 0 where
  pub picked : List Note
  pub chosen : Chosen picked (wallet notes)
  pub change : Option ℕ
  pub first : StepNote
  pub pays : Pays amount change first steps
  pub inputs : wallet_inputs steps ≡ notes_at notes (indices_of picked)
  pub few : length steps ≤ 9

pub data PlanResult (notes : List SpendableNote) (amount : ℕ)
    : Outcome PlanError (List PlannedStep) → Type 0 where
  planned :
      (steps : List PlannedStep) → Spends notes amount steps → PlanResult notes amount (ok steps)
  no_notes : notes ≡ [] → PlanResult notes amount (err no_spendable_notes)
  insufficient : total_amount (wallet notes) < amount → PlanResult notes amount (err no_combination)
  too_many :
      (indices : List ℕ) (excess : ℕ)
      → Reaches (wallet notes) amount indices excess
      → 10 < length indices
      → PlanResult notes amount (err (too_many_notes (length indices) 10))
  overflows :
      2 ^ 128 ≤ total_amount (wallet notes) → PlanResult notes amount (err input_amount_overflow)

module _ (notes : List SpendableNote) (amount : ℕ) where
  -- The steps for these indices, once checked.
  record Stepped (is : List ℕ) (change : Option ℕ) (steps : List PlannedStep) : Type 0 where
    first : StepNote
    pays : Pays amount change first steps
    inputs : wallet_inputs steps ≡ notes_at notes is
    few : length steps ≤ length is - 1 + (1 - (length is - 1))

  plan_steps-Stepped :
      (is : List ℕ) (change : Option ℕ)
      → 0 < length is
      → InRange notes is
      → amounts_at notes is ≡ amount + amount_or_zero change
      → amount + amount_or_zero change ≤ total_amount (wallet notes)
      → Runs (total_amount (wallet notes)) (plan_steps notes amount change is) (Stepped is change)
  unfolding plan_steps
  plan_steps-Stepped [] change pos r e h = absurd (omega arith)
  plan_steps-Stepped (i ∷ []) change pos r e h =
      rw (get_elem?-get_or notes i (record { commitment = 0; amount = 0 }) r.0) (
        inl (
          _,
          refl,
          record {
            first = from_spendable (note_at notes i);
            pays = pay _ refl refl (omega arith);
            inputs = refl;
            few = omega arith;
          },
        ))
  plan_steps-Stepped (i ∷ j ∷ is) change pos r e h =
      rw (get_elem?-get_or notes i (record { commitment = 0; amount = 0 }) r.0) (
        Runs-bind (Stepped (i ∷ j ∷ is) change) (total_amount (wallet notes)) _ _
          (merges-Merged notes amount change (total_amount (wallet notes)) j is
            (from_spendable (note_at notes i)) r.1 (omega arith) h)
          (λ steps m. inl (
            _,
            refl,
            record {
              first = from_spendable (note_at notes i);
              pays = m.pays;
              inputs = m.inputs;
              few = omega (arith, length-with_final (final amount change) steps, m.one_each);
            },
          )))

  finished :
      (picked : List Note) (c : Chosen picked (wallet notes)) (change : Option ℕ)
      → length (indices_of picked) ≤ 10
      → Runs
          (total_amount (wallet notes))
          (plan_steps notes amount change (indices_of picked))
          (Stepped (indices_of picked) change)
      → PlanResult notes amount (
          plan_steps notes amount change (indices_of picked) >>= λ steps.
          ok_or (assemble steps) invalid_plan)
  finished picked c change h (inl (steps, e, s)) =
      rw (e, Pays-last_is_final s.pays)
        (planned steps (record {
          picked = picked;
          chosen = c;
          change = change;
          first = s.first;
          pays = s.pays;
          inputs = s.inputs;
          few = omega (arith, s.few);
        }))
  finished picked c change h (inr (e, big)) = rw e (overflows big)

  selected-PlanResult :
      (indices : List ℕ) (excess : ℕ) (change : Option ℕ)
      → amount_or_zero change ≡ excess
      → Reaches (wallet notes) amount indices excess
      → PlanResult notes amount (plan_selected notes amount (indices, change))
  unfolding plan_selected
  selected-PlanResult indices excess change e r = elim (Bool-cases (leb (length indices) 10)) [
    | inl few ↦
        let (range, sum) =
          picked-InRange notes r.picked
            (Chosen-All (Listed notes 0) r.chosen (enumerate-Listed notes 0)) in
        let le = leb→le (length indices) 10 few in
        let total = Chosen-total r.chosen in
        let same = r.at_indices in
        let steps =
          plan_steps-Stepped (indices_of r.picked) change (rw same r.some_picked) range
            (omega (arith, r.reached)) (omega (arith, r.reached)) in
        rw (plan_selected, few, sym same, check_range-eq-ok notes (indices_of r.picked) range)
          (finished r.picked r.chosen change (rw same le) steps)
    | inr many ↦ rw (plan_selected, many) (too_many indices excess r (ground arith))
  ]

  combination-PlanResult :
      0 < length notes
      → (c : CombinationResult) → Selects (wallet notes) amount c
      → PlanResult notes amount
          (ok_or (selection_of c) no_combination >>= plan_selected notes amount)
  combination-PlanResult pos (two_exact i j) h = selected-PlanResult (i ∷ j ∷ []) 0 none refl h
  combination-PlanResult pos (one_exact i) h = selected-PlanResult (i ∷ []) 0 none refl h
  combination-PlanResult pos (two_overshoot i j excess) h =
      selected-PlanResult (i ∷ j ∷ []) excess (some excess) refl h
  combination-PlanResult pos (one_overshoot i excess) h =
      selected-PlanResult (i ∷ []) excess (some excess) refl h
  combination-PlanResult pos (exact_k is) h = selected-PlanResult is 0 none refl h
  combination-PlanResult pos (overshoot is excess) h =
      selected-PlanResult is excess (some excess) refl h
  combination-PlanResult pos impossible (inl e) =
      absurd (omega (arith, length-wallet notes, ap length e))
  combination-PlanResult pos impossible (inr lt) = insufficient lt

after_search :
    (notes : List SpendableNote) (amount : ℕ)
    → 0 < length notes
    → (m : Outcome PlanError CombinationResult)
    → Runs (total_amount (wallet notes)) m (Selects (wallet notes) amount)
    → PlanResult notes amount
        (m >>= λ c. ok_or (selection_of c) no_combination >>= plan_selected notes amount)
after_search notes amount pos m (inl (c, e, s)) = rw e (combination-PlanResult notes amount pos c s)
after_search notes amount pos m (inr (e, big)) = rw e (overflows big)

-- For a wallet of fewer than 2^64 notes, planning never panics, and gives a plan or one of four
-- errors. The plan spends distinct notes of the wallet in at most nine steps: each merges its two
-- inputs into the first input of the next, and the last pays the amount with the rest as change. No
-- notes is told only of an empty wallet, no combination only when all notes sum to less than the
-- amount, too many notes only with a choice of more than ten notes that reaches it, and an overflow
-- only when all notes sum to 2^128 or more.
pub plan-PlanResult :
    (sort : List Note → List Note)
    → IsSort sort
    → (amount : ℕ) (notes : List SpendableNote) → length notes < 2 ^ 64
    → PlanResult notes amount (plan sort amount notes)
unfolding plan
plan-PlanResult sort s amount [] few = no_notes refl
plan-PlanResult sort s amount (n ∷ notes) few = after_search (n ∷ notes) amount (omega arith) _ (
    find_combination-Selects sort s (amounts_of (n ∷ notes)) amount
      (omega (arith, length-amounts_of (n ∷ notes))))
