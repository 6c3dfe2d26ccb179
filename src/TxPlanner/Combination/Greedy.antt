-- ===== src/TxPlanner/Combination/Greedy.antt =====
-- What the greedy choice finds, and so what the search for three and more notes ends in.
use stellar_private_payments.Prelude.{
  ℕ, suc, zero, ◌+◌, ◌-◌, ◌≤◌, ◌<◌, ◌≡◌, ◌⊎◌, inl, inr, refl, Bool-cases, List, [], ◌∷◌, ◌++◌,
  length, Bool, true, false, ok, ok_or, leb, arith, leb→le, Option, none, some,
}
use mathlib.Core.List.{reverse}
use stellar_private_payments.Machine.{checked_add, checked_sub}
use stellar_private_payments.TxPlanner.Selection.{
  Note, Chosen, Chosen-total, Chosen-length, total_amount, trans, reverse-Chosen, Chosen-reverse,
  keep, keep-Chosen,
}
use stellar_private_payments.TxPlanner.Combination.{
  Scan, exact, over, miss, input_amount_overflow, Search, greedy_loop, greedy_impl, no_search,
  k_loop, below, sizes, k_scan,
}
use stellar_private_payments.TxPlanner.Combination.Runs.{Runs, Runs-bind, checked_add-Runs, Reaches}
use stellar_private_payments.TxPlanner.Combination.Many.{
  ChosenSoFar, pick, within, finish, BestKept, DfsFound, dfs-Runs,
}

abbrev pub ManyFound : List Note → ℕ → Scan (List ℕ) → Type 0
ManyFound notes goal (exact is) = Reaches notes goal is 0
ManyFound notes goal (over is excess) = Reaches notes goal is excess
ManyFound notes goal miss = total_amount notes < goal

length-snoc : (xs : List ℕ) (x : ℕ) → 0 < length (xs ++ x ∷ [])
length-snoc [] x = omega arith
length-snoc (y ∷ xs) x = omega arith

enough : (a b : ℕ) → b ≤ a → checked_sub a b ≡ some (a - b)
enough a b h = ground arith

greedy_loop-Runs :
    (notes : List Note) (goal : ℕ) (rest : List Note) (sum : ℕ) (picks : List ℕ)
    → ChosenSoFar notes picks sum rest
    → total_amount notes ≤ sum + total_amount rest
    → (0 < length rest) ⊎ (sum < goal)
    → Runs (total_amount notes) (greedy_loop goal rest sum picks) (ManyFound notes goal)
unfolding greedy_loop
greedy_loop-Runs notes goal [] sum picks c all (inl h) = absurd (omega arith)
greedy_loop-Runs notes goal [] sum picks c all (inr h) = inl (miss, refl, omega arith)
greedy_loop-Runs notes goal (x ∷ rest) sum picks c all h =
    Runs-bind (ManyFound notes goal) (total_amount notes)
      (ok_or (checked_add 128 sum x.1) input_amount_overflow) _
      (checked_add-Runs (total_amount notes) sum x.1 (within x rest c))
      (λ s e.
        let p : ChosenSoFar notes (picks ++ x.0 ∷ []) s rest = rw e (pick x rest c) in
        elim (Bool-cases (leb goal s)) [
          | inl reached ↦
              let le = leb→le goal s reached in
              rw (reached, enough s goal le)
                (inl (_, refl, finish goal (s - goal) rest p (length-snoc picks x.0) (omega arith)))
          | inr short ↦ rw short (
              greedy_loop-Runs notes goal rest s (picks ++ x.0 ∷ []) p (omega arith)
                (inr (ground arith)))
        ])

module _ (notes : List Note) (goal : ℕ) (nonempty : 0 < length notes) where
  pub greedy_impl-Runs : Runs (total_amount notes) (greedy_impl notes goal) (ManyFound notes goal)
  unfolding greedy_impl
  greedy_impl-Runs =
      greedy_loop-Runs notes goal (reverse notes) 0 []
        (record { picked = []; at_path = refl; sum_picked = refl; chosen = reverse-Chosen notes })
        (omega (arith, Chosen-total (Chosen-reverse notes)))
        (inl (omega (arith, Chosen-length (Chosen-reverse notes))))

  module _ (candidates : List Note) (c : Chosen candidates notes) where
    after_best :
        (n k : ℕ) (best : Option (ℕ × List ℕ))
        → Runs (total_amount notes) (k_loop notes goal candidates n (k + 1)) (ManyFound notes goal)
        → BestKept notes goal best
        → Runs
            (total_amount notes)
            (elim best [
              | some b ↦ ok (over b.1 b.0)
              | none ↦ k_loop notes goal candidates n (k + 1)
            ])
            (ManyFound notes goal)
    after_best n k none later f = later
    after_best n k (some b) later f = inl (over b.1 b.0, refl, f)

    after_search :
        (n k : ℕ)
        → Runs (total_amount notes) (k_loop notes goal candidates n (k + 1)) (ManyFound notes goal)
        → (r : Bool × Search) → DfsFound notes goal [] r
        → Runs
            (total_amount notes)
            (elim r.0 [
              | true ↦ ok (exact r.1.path)
              | false ↦ elim r.1.best_overshoot [
                | some b ↦ ok (over b.1 b.0)
                | none ↦ k_loop notes goal candidates n (k + 1)
              ]
            ])
            (ManyFound notes goal)
    after_search n k later (true, s) f = inl (exact s.path, refl, f)
    after_search n k later (false, s) f = after_best n k s.best_overshoot later f.1

    k_loop-Runs :
        (n k : ℕ)
        → 0 < k
        → Runs (total_amount notes) (k_loop notes goal candidates n k) (ManyFound notes goal)
    unfolding k_loop
    k_loop-Runs zero k pos = greedy_impl-Runs
    k_loop-Runs (suc n) k pos =
        Runs-bind (ManyFound notes goal) (total_amount notes) _ _
          (dfs-Runs notes goal k pos candidates 0 no_search
            (record { picked = []; at_path = refl; sum_picked = refl; chosen = c }) tt)
          (after_search n k (k_loop-Runs n (k + 1) (omega arith)))

  pub k_scan-Runs : Runs (total_amount notes) (k_scan notes goal) (ManyFound notes goal)
  unfolding k_scan
  k_scan-Runs =
      let candidates = reverse (keep (below goal) notes) in
      let c : Chosen candidates notes =
        trans (reverse-Chosen (keep (below goal) notes)) (keep-Chosen (below goal) notes) in
      elim (Bool-cases (leb 3 (length candidates))) [
        | inl e ↦
            rw (k_scan, e) (k_loop-Runs candidates c (sizes (length candidates)) 3 (omega arith))
        | inr e ↦ rw (k_scan, e) greedy_impl-Runs
      ]
