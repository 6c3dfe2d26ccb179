-- ===== src/TxPlanner/Combination/Runs.antt =====
-- A run of the planner that gives a value as wanted, or fails because amounts overflow u128, which
-- takes a wallet whose total does. How runs are composed, and the found choices of notes.
use stellar_private_payments.Prelude.{
  ℕ, suc, zero, ◌+◌, ◌-◌, ◌^◌, ◌≤◌, ◌<◌, ◌≡◌, ◌⊎◌, inl, inr, refl, sym, Bool-cases, List, [], ◌∷◌,
  length, none, some, Outcome, ok, err, ok_or, ◌>>=◌, leb, arith, get_elem?,
}
use stellar_private_payments.Machine.{checked_add, checked_sub}
use stellar_private_payments.TxPlanner.Selection.{
  Note, Chosen, Chosen-nil, skip, take, trans, total_amount, indices_of,
}
use stellar_private_payments.TxPlanner.Combination.{PlanError, input_amount_overflow}

abbrev pub Runs : {A : Type 0} → ℕ → Outcome PlanError A → (A → Type 0) → Type 0
Runs {A} total m P =
    ((a : A) × (m ≡ ok a) × P a) ⊎ ((m ≡ err input_amount_overflow) × (2 ^ 128 ≤ total))

pub Runs-bind :
    {A B : Type 0} {P : A → Type 0} (Q : B → Type 0) (total : ℕ) (m : Outcome PlanError A)
    (f : A → Outcome PlanError B)
    → Runs total m P
    → ((a : A) → P a → Runs total (f a) Q)
    → Runs total (m >>= f) Q
Runs-bind Q total m f (inl (a, e, p)) k = rw e (k a p)
Runs-bind Q total m f (inr (e, big)) k = inr (rw e refl, big)

pub checked_add-Runs :
    (total a b : ℕ)
    → a + b ≤ total
    → Runs total (ok_or (checked_add 128 a b) input_amount_overflow) (λ s. s ≡ a + b)
checked_add-Runs total a b h = elim (Bool-cases (leb (2 ^ 128) (a + b))) [
  | inl big ↦ inr (ground arith, ground arith)
  | inr small ↦ inl (a + b, ground arith, refl)
]

pub checked_sub-cases :
    (a b : ℕ) → ((checked_sub a b ≡ none) × (a < b)) ⊎ ((checked_sub a b ≡ some (a - b)) × (b ≤ a))
checked_sub-cases a b = elim (Bool-cases (leb b a)) [
  | inl le ↦ inr (ground arith, ground arith)
  | inr lt ↦ inl (ground arith, ground arith)
]

-- Notes of the list, at these indices, that reach the goal with this excess.
pub record Reaches (notes : List Note) (goal : ℕ) (indices : List ℕ) (excess : ℕ) : Type 0 where
  pub picked : List Note
  pub chosen : Chosen picked notes
  pub at_indices : indices_of picked ≡ indices
  pub some_picked : 0 < length indices
  pub reached : total_amount picked ≡ goal + excess

pub Reaches-mono :
    {xs ys : List Note} {goal : ℕ} {indices : List ℕ} {excess : ℕ}
    → Chosen xs ys
    → Reaches xs goal indices excess
    → Reaches ys goal indices excess
Reaches-mono c r = record {
  picked = r.picked;
  chosen = trans r.chosen c;
  at_indices = r.at_indices;
  some_picked = r.some_picked;
  reached = r.reached;
}

pub get_elem?-found :
    (xs : List Note) (i : ℕ) → i < length xs → (x : Note) × (get_elem? xs i ≡ some x)
get_elem?-found [] i h = absurd (omega arith)
get_elem?-found (x ∷ xs) zero h = (x, refl)
get_elem?-found (x ∷ xs) (suc i) h = get_elem?-found xs i (omega arith)

pub one_Chosen : (xs : List Note) (i : ℕ) (a : Note) → get_elem? xs i ≡ some a → Chosen (a ∷ []) xs
one_Chosen [] i a h = absurd cc
one_Chosen (x ∷ xs) zero a h = let e : x ≡ a = cc in rw (sym e) (take (Chosen-nil xs))
one_Chosen (x ∷ xs) (suc i) a h = skip (one_Chosen xs i a h)

pub two_Chosen :
    (xs : List Note) (i j : ℕ) (a b : Note)
    → i < j
    → get_elem? xs i ≡ some a
    → get_elem? xs j ≡ some b
    → Chosen (a ∷ b ∷ []) xs
two_Chosen [] i j a b h ha hb = absurd cc
two_Chosen (x ∷ xs) i zero a b h ha hb = absurd (omega arith)
two_Chosen (x ∷ xs) zero (suc j) a b h ha hb =
    let e : x ≡ a = cc in rw (sym e) (take (one_Chosen xs j b hb))
two_Chosen (x ∷ xs) (suc i) (suc j) a b h ha hb = skip (two_Chosen xs i j a b (omega arith) ha hb)

pub Runs-weaken :
    {A : Type 0} {P Q : A → Type 0} (total : ℕ) (m : Outcome PlanError A)
    → ((a : A) → P a → Q a)
    → Runs total m P
    → Runs total m Q
Runs-weaken total m f (inl (a, e, p)) = inl (a, e, f a p)
Runs-weaken total m f (inr h) = inr h

pub Runs-total :
    {A : Type 0} {P : A → Type 0} {m : Outcome PlanError A} {total total' : ℕ}
    → total ≤ total'
    → Runs total m P
    → Runs total' m P
Runs-total h (inl r) = inl r
Runs-total h (inr (e, big)) = inr (e, omega arith)
