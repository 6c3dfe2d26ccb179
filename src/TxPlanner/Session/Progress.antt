-- ===== src/TxPlanner/Session/Progress.antt =====
-- A session goes forward one step at a time, and ends.
use stellar_private_payments.Prelude.{
  >>=-eq-ok, map_err, map_err-eq-ok, ◌^◌, ◌⊎◌, inl, inr, Bool-cases, ℕ, suc, ◌+◌, ◌≤◌, ◌<◌, ◌≡◌,
  refl, ap, ◌∙◌, true, false, List, none, arith, length, leb, ok, err, leb→le,
}
use stellar_private_payments.TxPlanner.Selection.{Note}
use stellar_private_payments.TxPlanner.Combination.Found.{IsSort}
use stellar_private_payments.TxPlanner.Plan.{SpendableNote, PlannedStep, plan}
use stellar_private_payments.TxPlanner.Plan.Spends.{Spends, PlanResult, planned, plan-PlanResult}
use stellar_private_payments.TxPlanner.Session.{
  SpendSession, of_plan, complete, SpendTarget, setup, validate_target, is_done, step,
  complete_step,
}

-- What a completed step leaves.
pub complete_step-forward :
    (s s' : SpendSession) (outputs : ℕ × ℕ)
    → complete_step s outputs ≡ ok s'
    → (s'.steps ≡ s.steps)
      × (s'.pool_address ≡ s.pool_address)
      × (s'.target ≡ s.target)
      × (s'.step_index ≡ s.step_index + 1)
      × (s.step_index < length s.steps)
unfolding complete_step
complete_step-forward s s' outputs h = ground arith

-- The sessions that completed steps lead to, and how many steps.
pub data Reaches (s : SpendSession) : ℕ → SpendSession → Type 0 where
  start : Reaches s 0 s
  completed :
      {n : ℕ} {t u : SpendSession} (outputs : ℕ × ℕ)
      → Reaches s n t
      → complete_step t outputs ≡ ok u
      → Reaches s (suc n) u

planned_Spends :
    (wallet : List SpendableNote) (amount : ℕ) (steps : List PlannedStep)
    → PlanResult wallet amount (ok steps)
    → Spends wallet amount steps
planned_Spends wallet amount steps (planned s p) = p

leb-false : (a b : ℕ) → leb a b ≡ false → b < a
leb-false a b h = ground arith

-- A session that `setup` makes starts with a plan that keeps value.
pub setup-Spends :
    (sort : List Note → List Note)
    → IsSort sort
    → (wallet : List SpendableNote) (amount : ℕ) (pool_address : List ℕ) (target : SpendTarget)
      (s : SpendSession)
    → length wallet < 2 ^ 64
    → setup sort wallet amount pool_address target ≡ ok s
    → Spends wallet amount s.steps × (s.step_index ≡ 0)
unfolding setup
setup-Spends sort is_sort wallet amount pool_address target s few h =
    let (u, valid, h1) = >>=-eq-ok (validate_target target) _ h in
    let (tx_plan, made, h2) = >>=-eq-ok (map_err of_plan (plan sort amount wallet)) _ h1 in
    let made' = map_err-eq-ok of_plan (plan sort amount wallet) made in
    let result = rw made' at (plan-PlanResult sort is_sort amount wallet few) in
    let same : tx_plan ≡ s.steps = ground arith in
    (rw same at (planned_Spends wallet amount tx_plan result), ground arith)

Reaches-index :
    (s t : SpendSession) (n : ℕ)
    → Reaches s n t
    → (t.steps ≡ s.steps)
      × (t.pool_address ≡ s.pool_address)
      × (t.target ≡ s.target)
      × (t.step_index ≡ s.step_index + n)
Reaches-index s t n start = (refl, refl, refl, omega arith)
Reaches-index s t n (completed {n = m} {t = r} outputs p h) =
    let (a, b, c, d) = Reaches-index s r m p in
    let (a', b', c', d', e) = complete_step-forward r t outputs h in
    (a' ∙ a, b' ∙ b, c' ∙ c, omega (arith, d, d'))

Reaches-le : (s t : SpendSession) (n : ℕ) → Reaches s n t → s.step_index ≡ 0 → n ≤ length s.steps
Reaches-le s t n start z = omega arith
Reaches-le s t n (completed {n = m} {t = r} outputs p h) z =
    let (a, b, c, d) = Reaches-index s r m p in
    let (a', b', c', d', e) = complete_step-forward r t outputs h in omega (arith, ap length a)

done_stops :
    (t : SpendSession) (outputs : ℕ × ℕ)
    → is_done t ≡ true
    → (step t ≡ ok none) × (complete_step t outputs ≡ err complete)
unfolding step complete_step
done_stops t outputs d = (rw (step, d) refl, rw d refl)

not_done_steps : (t : SpendSession) → is_done t ≡ false → ¬ (step t ≡ ok none)
unfolding step
not_done_steps t d h = ground arith

-- However its steps are completed, a session keeps its plan, its pool and its target, and after n
-- completed steps it stands at step n of at most nine. It is done exactly when all steps are
-- completed: then it gives no more transaction and refuses to complete another step, and before
-- that it never says that nothing is left.
pub setup-Reaches :
    (sort : List Note → List Note)
    → IsSort sort
    → (wallet : List SpendableNote) (amount : ℕ) (pool_address : List ℕ) (target : SpendTarget)
      (s t : SpendSession) (n : ℕ)
    → length wallet < 2 ^ 64
    → setup sort wallet amount pool_address target ≡ ok s
    → Reaches s n t
    → (t.steps ≡ s.steps)
      × (t.pool_address ≡ s.pool_address)
      × (t.target ≡ s.target)
      × (t.step_index ≡ n)
      × (n ≤ length s.steps)
      × (length s.steps ≤ 9)
      × (((n ≡ length s.steps)
            × (step t ≡ ok none)
            × ((outputs : ℕ × ℕ) → complete_step t outputs ≡ err complete))
          ⊎ ((n < length s.steps) × ¬ (step t ≡ ok none)))
setup-Reaches sort is_sort wallet amount pool_address target s t n few h r =
    let (spends, z) = setup-Spends sort is_sort wallet amount pool_address target s few h in
    let (a, b, c, d) = Reaches-index s t n r in
    let le = Reaches-le s t n r z in
    let len : length t.steps ≡ length s.steps = ap length a in
    (
      a,
      b,
      c,
      omega arith,
      le,
      spends.few,
      elim (Bool-cases (is_done t)) [
        | inl done ↦
            let all = leb→le (length t.steps) t.step_index done in
            inl
              (omega arith, (done_stops t (0, 0) done).0, λ outputs. (done_stops t outputs done).1)
        | inr more ↦
            let some_left = leb-false (length t.steps) t.step_index more in
            inr (omega arith, not_done_steps t more)
      ],
    )
