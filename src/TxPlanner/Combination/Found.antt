-- ===== src/TxPlanner/Combination/Found.antt =====
-- What `find_combination` returns.
use stellar_private_payments.Prelude.{
  ℕ, ◌+◌, ◌^◌, ◌<◌, ◌≡◌, ap, ◌>>=◌, ◌⊎◌, inl, inr, refl, List, [], ◌∷◌, length, ok, arith,
}
use stellar_private_payments.TxPlanner.Selection.{
  Note, Chosen, Chosen-total, Chosen-length, total_amount,
}
use stellar_private_payments.TxPlanner.Combination.{
  CombinationResult, two_exact, one_exact, two_overshoot, one_overshoot, exact_k, overshoot,
  impossible, Scan, exact, over, miss, Pair, two_scan, one_scan, k_scan, overshoots, one_or_more,
  after_two, find_combination, enumerate,
}
use stellar_private_payments.TxPlanner.Combination.Runs.{
  Runs, Runs-bind, Runs-weaken, Runs-total, Reaches, Reaches-mono,
}
use stellar_private_payments.TxPlanner.Combination.Pairs.{
  PairFound, two_scan-Runs, OneFound, one_scan-OneFound,
}
use stellar_private_payments.TxPlanner.Combination.Greedy.{ManyFound, k_scan-Runs}

-- The promise of `sort_unstable_by_key` that the choice relies on: a permutation of the list.
pub record IsSort (sort : List Note → List Note) : Type 0 where
  pub sorted_Chosen : (xs : List Note) → Chosen (sort xs) xs
  pub Chosen_sorted : (xs : List Note) → Chosen xs (sort xs)

-- What the result says of the notes.
abbrev pub Selects : List Note → ℕ → CombinationResult → Type 0
Selects notes goal (two_exact i j) = Reaches notes goal (i ∷ j ∷ []) 0
Selects notes goal (one_exact i) = Reaches notes goal (i ∷ []) 0
Selects notes goal (two_overshoot i j excess) = Reaches notes goal (i ∷ j ∷ []) excess
Selects notes goal (one_overshoot i excess) = Reaches notes goal (i ∷ []) excess
Selects notes goal (exact_k is) = Reaches notes goal is 0
Selects notes goal (overshoot is excess) = Reaches notes goal is excess
Selects notes goal impossible = (notes ≡ []) ⊎ (total_amount notes < goal)

module _ (sorted : List Note) (goal : ℕ) (nonempty : 0 < length sorted) where
  many_Selects :
      (s : Scan (List ℕ))
      → ManyFound sorted goal s
      → Runs
          (total_amount sorted)
          (elim s [
            | exact indices ↦ ok (exact_k indices)
            | over indices excess ↦ ok (overshoot indices excess)
            | miss ↦ ok impossible
          ])
          (Selects sorted goal)
  many_Selects (exact is) h = inl (exact_k is, refl, h)
  many_Selects (over is e) h = inl (overshoot is e, refl, h)
  many_Selects miss h = inl (impossible, refl, inr h)

  k_Selects :
      Runs
        (total_amount sorted)
        (k_scan sorted goal >>= λ k. elim k [
          | exact indices ↦ ok (exact_k indices)
          | over indices excess ↦ ok (overshoot indices excess)
          | miss ↦ ok impossible
        ])
        (Selects sorted goal)
  k_Selects =
      Runs-bind (Selects sorted goal) (total_amount sorted) (k_scan sorted goal) _
        (k_scan-Runs sorted goal nonempty) many_Selects

  overshoots-Selects :
      (two : Scan Pair) (one : Scan ℕ)
      → PairFound sorted goal two
      → OneFound sorted goal one
      → Runs (total_amount sorted) (overshoots two one sorted goal) (Selects sorted goal)
  unfolding overshoots
  overshoots-Selects (over p excess) one h h' = inl (two_overshoot p.0 p.1 excess, refl, h)
  overshoots-Selects (exact p) (over i excess) h h' = inl (one_overshoot i excess, refl, h')
  overshoots-Selects miss (over i excess) h h' = inl (one_overshoot i excess, refl, h')
  overshoots-Selects (exact p) (exact i) h h' = k_Selects
  overshoots-Selects (exact p) miss h h' = k_Selects
  overshoots-Selects miss (exact i) h h' = k_Selects
  overshoots-Selects miss miss h h' = k_Selects

  one_or_more-Selects :
      (two : Scan Pair) (one : Scan ℕ)
      → PairFound sorted goal two
      → OneFound sorted goal one
      → Runs (total_amount sorted) (one_or_more two one sorted goal) (Selects sorted goal)
  unfolding one_or_more
  one_or_more-Selects two (exact i) h h' = inl (one_exact i, refl, h')
  one_or_more-Selects two (over i excess) h h' = overshoots-Selects two (over i excess) h h'
  one_or_more-Selects two miss h h' = overshoots-Selects two miss h h'

  after_two-Selects :
      (two : Scan Pair)
      → PairFound sorted goal two
      → Runs (total_amount sorted) (after_two two sorted goal) (Selects sorted goal)
  unfolding after_two
  after_two-Selects (exact p) h = inl (two_exact p.0 p.1, refl, h)
  after_two-Selects (over p excess) h =
      one_or_more-Selects (over p excess) (one_scan sorted goal) h (one_scan-OneFound sorted goal)
  after_two-Selects miss h =
      one_or_more-Selects miss (one_scan sorted goal) h (one_scan-OneFound sorted goal)

Selects-mono :
    (xs ys : List Note) (goal : ℕ)
    → Chosen xs ys
    → Chosen ys xs
    → 0 < length ys
    → (c : CombinationResult) → Selects xs goal c
    → Selects ys goal c
Selects-mono xs ys goal c d pos (two_exact i j) h = Reaches-mono c h
Selects-mono xs ys goal c d pos (one_exact i) h = Reaches-mono c h
Selects-mono xs ys goal c d pos (two_overshoot i j excess) h = Reaches-mono c h
Selects-mono xs ys goal c d pos (one_overshoot i excess) h = Reaches-mono c h
Selects-mono xs ys goal c d pos (exact_k is) h = Reaches-mono c h
Selects-mono xs ys goal c d pos (overshoot is excess) h = Reaches-mono c h
Selects-mono xs ys goal c d pos impossible (inl e) =
    absurd (omega (arith, Chosen-length d, ap length e))
Selects-mono xs ys goal c d pos impossible (inr lt) = inr (omega (arith, Chosen-total d))

pub length-enumerate : (i : ℕ) (xs : List ℕ) → length (enumerate i xs) ≡ length xs
length-enumerate i [] = refl
length-enumerate i (x ∷ xs) = omega (arith, length-enumerate (i + 1) xs)

-- For a wallet of fewer than 2^64 amounts, the search ends in one of two ways. It gives notes, each
-- at most once, whose amounts sum to the goal and the excess that it tells, with no excess where
-- the result says exact, and tells that it is impossible only without notes or when all of them
-- sum to less than the goal. Or it reports an overflow, only when all amounts sum to 2^128 or more.
pub find_combination-Selects :
    (sort : List Note → List Note)
    → IsSort sort
    → (values : List ℕ) (goal : ℕ) → length values < 2 ^ 64
    → Runs
        (total_amount (enumerate 0 values))
        (find_combination sort values goal)
        (Selects (enumerate 0 values) goal)
unfolding find_combination
find_combination-Selects sort s [] goal few = inl (impossible, refl, inl refl)
find_combination-Selects sort s (v ∷ values) goal few =
    let notes = enumerate 0 (v ∷ values) in
    let c = s.sorted_Chosen notes in
    let d = s.Chosen_sorted notes in
    let n = length-enumerate 0 (v ∷ values) in
    let pos : 0 < length notes = omega arith in
    let run =
      Runs-bind (Selects (sort notes) goal) (total_amount (sort notes)) (two_scan (sort notes) goal)
        _ (two_scan-Runs (sort notes) goal (omega (arith, Chosen-length c)))
        (after_two-Selects (sort notes) goal (omega (arith, Chosen-length d))) in
    Runs-weaken (total_amount notes) _ (Selects-mono (sort notes) notes goal c d pos)
      (Runs-total (Chosen-total c) run)
