-- ===== src/TxPlanner/Combination/Complete.antt =====
-- The two pointers miss no pair: over ascending amounts, the pair that they look for stays between
-- them until it is found.
use native.Mathlib.Decide.{ℕ_discrete}
use stellar_private_payments.Prelude.{
  none, [], ◌∷◌, List, ◌⊎◌, ◌≢◌, inl, inr, ok, ℕ, suc, zero, ◌+◌, ◌-◌, ◌^◌, ◌≤◌, ◌<◌, ◌≡◌, refl,
  sym, ap, ◌∙◌, Bool-cases, length, Option, some, ok_or, ◌==◌, lt→ltb, arith, get_elem?,
  if◌then◌else◌,
}
use stellar_private_payments.Machine.{checked_add}
use stellar_private_payments.TxPlanner.Selection.{
  Chosen-length, Note, Chosen, nil, skip, take, swap, trans, Chosen-total, total_amount,
}
use stellar_private_payments.TxPlanner.Combination.{
  two_exact, two_scan, after_two, find_combination, enumerate, Pair, Scan, exact, two_loop,
  improves, input_amount_overflow,
}
use stellar_private_payments.TxPlanner.Combination.Runs.{
  Runs, Runs-bind, checked_add-Runs, checked_sub-cases, get_elem?-found, two_Chosen,
}
use stellar_private_payments.TxPlanner.Combination.Found.{IsSort, length-enumerate}

-- Where the chosen notes stand.
position : {xs ys : List Note} → Chosen xs ys → ℕ → ℕ
position nil i = i
position (skip c) i = suc (position c i)
position (take c) zero = zero
position (take c) (suc i) = suc (position c i)
position swap zero = 1
position swap (suc zero) = 0
position swap (suc (suc i)) = suc (suc i)
position (trans c d) i = position d (position c i)

get_elem?-position :
    {xs ys : List Note} (c : Chosen xs ys) (i : ℕ) → get_elem? ys (position c i) ≡ get_elem? xs i
unfolding position
get_elem?-position nil i = refl
get_elem?-position (skip c) i = get_elem?-position c i
get_elem?-position (take c) zero = refl
get_elem?-position (take c) (suc i) = get_elem?-position c i
get_elem?-position swap zero = refl
get_elem?-position swap (suc zero) = refl
get_elem?-position swap (suc (suc i)) = refl
get_elem?-position (trans c d) i = get_elem?-position d (position c i) ∙ get_elem?-position c i

position-injective :
    {xs ys : List Note} (c : Chosen xs ys) (i j : ℕ) → position c i ≡ position c j → i ≡ j
unfolding position
position-injective nil i j h = h
position-injective (skip c) i j h = position-injective c i j (omega arith)
position-injective (take c) zero zero h = refl
position-injective (take c) zero (suc j) h = absurd (omega arith)
position-injective (take c) (suc i) zero h = absurd (omega arith)
position-injective (take c) (suc i) (suc j) h = ap suc (position-injective c i j (omega arith))
position-injective swap zero zero h = refl
position-injective swap zero (suc zero) h = absurd (omega arith)
position-injective swap zero (suc (suc j)) h = absurd (omega arith)
position-injective swap (suc zero) zero h = absurd (omega arith)
position-injective swap (suc zero) (suc zero) h = refl
position-injective swap (suc zero) (suc (suc j)) h = absurd (omega arith)
position-injective swap (suc (suc i)) zero h = absurd (omega arith)
position-injective swap (suc (suc i)) (suc zero) h = absurd (omega arith)
position-injective swap (suc (suc i)) (suc (suc j)) h = h
position-injective (trans c d) i j h =
    position-injective c i j (position-injective d (position c i) (position c j) h)

-- The amounts do not fall.
abbrev pub Ascending : List Note → Type 0
Ascending xs =
    (i j : ℕ) (a b : Note) → i ≤ j → get_elem? xs i ≡ some a → get_elem? xs j ≡ some b → a.1 ≤ b.1

module _ (notes : List Note) (goal : ℕ) (few : length notes < 2 ^ 64) (ascending : Ascending notes)
    (i j : ℕ) (a b : Note) (at_i : get_elem? notes i ≡ some a) (at_j : get_elem? notes j ≡ some b)
    (sum : a.1 + b.1 ≡ goal) where
  -- With too small a sum, the left pointer is not at the pair; with too large a one, the right.
  left_of :
      (left right : ℕ) (l r : Note)
      → left ≤ i
      → j ≤ right
      → get_elem? notes left ≡ some l
      → get_elem? notes right ≡ some r
      → l.1 + r.1 < goal
      → left + 1 ≤ i
  left_of left right l r from to el er small = elim (ℕ_discrete left i) [
    | yes same ↦
        let e : some l ≡ some a = sym el ∙ ap (get_elem? notes) same ∙ at_i in
        let e' : l ≡ a = cc in
        let e'' : l.1 ≡ a.1 = ap (λ n. n.1) e' in
        absurd (omega (arith, ascending j right b r to at_j er))
    | no other ↦ omega arith
  ]

  right_of :
      (left right : ℕ) (l r : Note)
      → left ≤ i
      → j ≤ right
      → get_elem? notes left ≡ some l
      → get_elem? notes right ≡ some r
      → goal < l.1 + r.1
      → j + 1 ≤ right
  right_of left right l r from to el er large = elim (ℕ_discrete right j) [
    | yes same ↦
        let e : some r ≡ some b = sym er ∙ ap (get_elem? notes) same ∙ at_j in
        let e' : r ≡ b = cc in
        let e'' : r.1 ≡ b.1 = ap (λ n. n.1) e' in
        absurd (omega (arith, ascending left i l a from el at_i))
    | no other ↦ omega arith
  ]

  Exactly : Scan Pair → Type 0
  Exactly s = (p : Pair) × (s ≡ exact p)

  two_loop-Exactly :
      (gap left : ℕ) (best : Option (ℕ × Pair))
      → left + gap < length notes
      → i < j
      → left ≤ i
      → j ≤ left + gap
      → Runs (total_amount notes) (two_loop notes goal gap left best) Exactly
  unfolding two_loop Exactly
  two_loop-Exactly zero left best fits lt from to = absurd (omega arith)
  two_loop-Exactly (suc gap) left best fits lt from to =
      let (l, el) = get_elem?-found notes left (omega arith) in
      let (r, er) = get_elem?-found notes (left + suc gap) fits in
      let c = two_Chosen notes left (left + suc gap) l r (omega arith) el er in
      rw (el, er)
        (Runs-bind Exactly (total_amount notes)
          (ok_or (checked_add 128 l.1 r.1) input_amount_overflow) _
          (checked_add-Runs (total_amount notes) l.1 r.1 (omega (arith, Chosen-total c)))
          (λ s e. elim (checked_sub-cases s goal) [
            | inl (e', small) ↦
                let from' = left_of left (left + suc gap) l r from to el er (omega arith) in
                rw (e', lt→ltb (left + 1) (2 ^ 64) (omega arith))
                  (two_loop-Exactly gap (left + 1) best (omega arith) lt from' (omega arith))
            | inr (e', le) ↦ rw e' (elim (Bool-cases (s - goal == 0)) [
              | inl z ↦ rw z (inl (exact (l.0, r.0), refl, ((l.0, r.0), refl)))
              | inr z ↦
                  let to' = right_of left (left + suc gap) l r from to el er (ground arith) in
                  rw z (
                    two_loop-Exactly gap left
                      (if improves (s - goal) best then some (s - goal, (l.0, r.0)) else best)
                      (omega arith) lt from (omega arith))
            ])
          ]))

in_bounds : (xs : List Note) (i : ℕ) (a : Note) → get_elem? xs i ≡ some a → i < length xs
in_bounds [] i a h = absurd cc
in_bounds (x ∷ xs) zero a h = omega arith
in_bounds (x ∷ xs) (suc i) a h = omega (arith, in_bounds xs i a h)

two_scan-Exactly :
    (notes : List Note) (goal : ℕ)
    → length notes < 2 ^ 64
    → Ascending notes
    → (i j : ℕ) (a b : Note) → get_elem? notes i ≡ some a
    → get_elem? notes j ≡ some b
    → a.1 + b.1 ≡ goal
    → i < j
    → Runs (total_amount notes) (two_scan notes goal) (λ s. (p : Pair) × (s ≡ exact p))
unfolding two_scan Exactly
two_scan-Exactly [] goal few asc i j a b ei ej sum lt = absurd cc
two_scan-Exactly (x ∷ []) goal few asc i j a b ei ej sum lt =
    absurd (omega (arith, in_bounds (x ∷ []) j b ej))
two_scan-Exactly (x ∷ y ∷ notes) goal few asc i j a b ei ej sum lt =
    two_loop-Exactly (x ∷ y ∷ notes) goal few asc i j a b ei ej sum (suc (length notes)) 0 none
      (omega arith) lt (omega arith) (omega (arith, in_bounds (x ∷ y ∷ notes) j b ej))

compare_cases : (i j : ℕ) → i ≢ j → (i < j) ⊎ (j < i)
compare_cases i j h = ground arith

module _ (notes : List Note) (goal : ℕ) (few : length notes < 2 ^ 64) (asc : Ascending notes)
    (a b : Note) (c : Chosen (a ∷ b ∷ []) notes) (sum : a.1 + b.1 ≡ goal) where
  chosen-Exactly : Runs (total_amount notes) (two_scan notes goal) (λ s. (p : Pair) × (s ≡ exact p))
  chosen-Exactly =
      let ei = get_elem?-position c 0 in
      let ej = get_elem?-position c 1 in
      let apart : position c 0 ≢ position c 1 = λ e. omega (arith, position-injective c 0 1 e) in
      elim (compare_cases (position c 0) (position c 1) apart) [
        | inl lt ↦
            two_scan-Exactly notes goal few asc (position c 0) (position c 1) a b ei ej sum lt
        | inr lt ↦
            two_scan-Exactly notes goal few asc (position c 1) (position c 0) b a ej ei
              (omega arith) lt
      ]

-- With a sort that gives ascending amounts, a wallet of fewer than 2^64 notes with a total below
-- 2^128, and two different notes that sum exactly to the goal, the search returns an exact pair.
pub find_combination-two_exact :
    (sort : List Note → List Note)
    → IsSort sort
    → ((xs : List Note) → Ascending (sort xs))
    → (values : List ℕ) (goal : ℕ) (a b : Note) → length values < 2 ^ 64
    → total_amount (enumerate 0 values) < 2 ^ 128
    → Chosen (a ∷ b ∷ []) (enumerate 0 values)
    → a.1 + b.1 ≡ goal
    → (p : Pair) × (find_combination sort values goal ≡ ok (two_exact p.0 p.1))
unfolding find_combination after_two
find_combination-two_exact sort s asc [] goal a b few small c sum =
    absurd (omega (arith, Chosen-length c))
find_combination-two_exact sort s asc (v ∷ values) goal a b few small c sum =
    let notes = enumerate 0 (v ∷ values) in
    let back = s.sorted_Chosen notes in
    let n = length-enumerate 0 (v ∷ values) in
    elim (chosen-Exactly (sort notes) goal (omega (arith, Chosen-length back)) (asc notes) a b
      (trans c (s.Chosen_sorted notes)) sum) [
        | inl (scan, e, (p, e')) ↦ (p, rw (e, e') refl)
        | inr (e, big) ↦ absurd (omega (arith, Chosen-total back))
      ]
