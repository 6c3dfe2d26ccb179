-- ===== src/TxPlanner/Combination.antt =====
-- app/crates/core/tx-planner/src/plan/combination.rs: the choice of notes that reach an amount.
-- Amounts are u128 base units. `sort_unstable_by_key` is a parameter: the standard library promises
-- a permutation of the list with ascending keys, and leaves open the order of equal keys.
pub mod Runs
pub mod Pairs
pub mod Many
pub mod Greedy
pub mod Found
pub mod Complete
use stellar_private_payments.Prelude.{
  ℕ, zero, suc, ◌+◌, ◌-◌, ◌∷◌, List, [], Bool, true, false, Option, none, some, ltb, leb, ◌==◌,
  ◌||◌, if◌then◌else◌, length, get_elem?, ◌++◌, Outcome, ok, ok_or, or_panic, ◌>>=◌,
}
use mathlib.Core.List.{reverse}
use stellar_private_payments.Machine.{checked_add, checked_sub}
use stellar_private_payments.TxPlanner.Selection.{Note, keep}

-- The reason of an internal error is left out.
pub data PlanError : Type 0 where
  no_spendable_notes no_combination input_amount_overflow internal_error invalid_plan : PlanError
  too_many_notes : ℕ → ℕ → PlanError
  note_index_out_of_range : ℕ → PlanError
  commitment_not_found : ℕ → PlanError
  note_amount_mismatch : ℕ → ℕ → ℕ → PlanError
  no_note_for_amount ambiguous_note_for_amount : ℕ → PlanError

abbrev pub transaction_limit : ℕ
transaction_limit = 10

pub data CombinationResult : Type 0 where
  two_exact : ℕ → ℕ → CombinationResult
  one_exact : ℕ → CombinationResult
  two_overshoot : ℕ → ℕ → ℕ → CombinationResult
  one_overshoot : ℕ → ℕ → CombinationResult
  exact_k : List ℕ → CombinationResult
  overshoot : List ℕ → ℕ → CombinationResult
  impossible : CombinationResult

-- `TwoScan`, `OneScan` and `KScan`: what a scan has found.
pub data Scan {ℓ} (A : Type ℓ) : Type ℓ where
  exact : A → Scan A
  over : A → ℕ → Scan A
  miss : Scan A

-- `Option::is_none_or`: the excess is smaller than the best one so far.
abbrev pub improves {ℓ} : {A : Type ℓ} → ℕ → Option (ℕ × A) → Bool
improves diff none = true
improves diff (some b) = ltb diff b.0

abbrev pub scan_of {ℓ} : {A : Type ℓ} → Option (ℕ × A) → Scan A
scan_of none = miss
scan_of (some b) = over b.1 b.0

abbrev pub Pair : Type 0
Pair = ℕ × ℕ

-- The loop of `TwoScan::scan`, on the distance from `left` to `right`, which each round shortens by
-- one: `right` is `left + gap`, and `left < right` is a distance above zero.
unfoldable pub two_loop : List Note → ℕ → ℕ → ℕ → Option (ℕ × Pair) → Outcome PlanError (Scan Pair)
two_loop sorted goal zero left best = ok (scan_of best)
two_loop sorted goal (suc gap) left best = do
  l ← or_panic (get_elem? sorted left)
  r ← or_panic (get_elem? sorted (left + suc gap))
  sum ← ok_or (checked_add 128 l.1 r.1) input_amount_overflow
  elim (checked_sub sum goal) [
    | none ↦ (do
      left' ← ok_or (checked_add 64 left 1) internal_error
      two_loop sorted goal gap left' best)
    | some diff ↦ elim (diff == 0) [
      | true ↦ ok (exact (l.0, r.0))
      | false ↦
          two_loop sorted goal gap left
            (if improves diff best then some (diff, (l.0, r.0)) else best)
    ]
  ]

unfoldable pub two_scan : List Note → ℕ → Outcome PlanError (Scan Pair)
two_scan [] goal = ok miss
two_scan (x ∷ []) goal = ok miss
two_scan (x ∷ y ∷ sorted) goal = two_loop (x ∷ y ∷ sorted) goal (suc (length sorted)) 0 none

unfoldable pub one_scan : List Note → ℕ → Scan ℕ
one_scan [] goal = miss
one_scan (x ∷ sorted) goal = elim (checked_sub x.1 goal) [
  | none ↦ one_scan sorted goal
  | some diff ↦ if diff == 0 then exact x.0 else over x.0 diff
]

-- `DfsContext`: what the search changes.
pub record Search : Type 0 where
  pub iteration_limit : ℕ
  pub path : List ℕ
  pub best_overshoot : Option (ℕ × List ℕ)

-- `Vec::pop`
abbrev pub pop : List ℕ → List ℕ
pop [] = []
pop (x ∷ []) = []
pop (x ∷ y ∷ r) = x ∷ pop (y ∷ r)

-- The path has the length wanted.
unfoldable pub dfs_leaf : ℕ → ℕ → Search → Bool × Search
dfs_leaf goal sum ctx = elim (checked_sub sum goal) [
  | none ↦ (false, ctx)
  | some diff ↦ if diff == 0 then (true, ctx) else (
    false,
    (if improves diff ctx.best_overshoot
        then record ctx { best_overshoot = some (diff, ctx.path) }
        else ctx),
  )
]

-- `KScan::dfs`, on the candidates from `index` on. Their index stays below the length of a slice, so
-- that its increment does not overflow.
unfoldable pub dfs : ℕ → ℕ → ℕ → List Note → Search → Outcome PlanError (Bool × Search)
dfs goal target_k sum [] ctx =
    if length ctx.path == target_k then ok (dfs_leaf goal sum ctx) else ok (false, ctx)
dfs goal target_k sum (note ∷ rest) ctx = elim (length ctx.path == target_k) [
  | true ↦ ok (dfs_leaf goal sum ctx)
  | false ↦ elim (leb goal sum || ctx.iteration_limit == 0) [
    | true ↦ ok (false, ctx)
    | false ↦ (do
      iteration_limit ← ok_or (checked_sub ctx.iteration_limit 1) internal_error
      with_note ← ok_or (checked_add 128 sum note.1) input_amount_overflow
      r ←
          dfs goal target_k with_note rest
            (record ctx { iteration_limit = iteration_limit; path = ctx.path ++ note.0 ∷ [] })
      elim r.0 [
        | true ↦ ok (true, r.1)
        | false ↦ dfs goal target_k sum rest (record r.1 { path = pop r.1.path })
      ])
  ]
]

-- The loop of `greedy_impl`, over the notes from the largest on.
unfoldable pub greedy_loop : ℕ → List Note → ℕ → List ℕ → Outcome PlanError (Scan (List ℕ))
greedy_loop goal [] total picks = ok miss
greedy_loop goal (x ∷ rest) total picks = do
  next_total ← ok_or (checked_add 128 total x.1) input_amount_overflow
  elim (leb goal next_total) [
    | true ↦ (do
      excess ← ok_or (checked_sub next_total goal) internal_error
      ok (over (picks ++ x.0 ∷ []) excess))
    | false ↦ greedy_loop goal rest next_total (picks ++ x.0 ∷ [])
  ]

unfoldable pub greedy_impl : List Note → ℕ → Outcome PlanError (Scan (List ℕ))
greedy_impl sorted goal = greedy_loop goal (reverse sorted) 0 []

abbrev pub no_search : Search
no_search = record { iteration_limit = 5000; path = []; best_overshoot = none }

-- `for k in k..k + n` of `KScan::scan`, which ends in the greedy choice.
unfoldable pub k_loop : List Note → ℕ → List Note → ℕ → ℕ → Outcome PlanError (Scan (List ℕ))
k_loop sorted goal candidates zero k = greedy_impl sorted goal
k_loop sorted goal candidates (suc n) k = do
  r ← dfs goal k 0 candidates no_search
  elim r.0 [
    | true ↦ ok (exact r.1.path)
    | false ↦ elim r.1.best_overshoot [
      | some b ↦ ok (over b.1 b.0)
      | none ↦ k_loop sorted goal candidates n (k + 1)
    ]
  ]

abbrev pub below : ℕ → Note → Bool
below goal x = ltb x.1 goal

-- How many sizes are tried: from 3 up to the limit and the number of candidates.
abbrev pub sizes : ℕ → ℕ
sizes n = (if leb n transaction_limit then n else transaction_limit) - 2

unfoldable pub k_scan : List Note → ℕ → Outcome PlanError (Scan (List ℕ))
k_scan sorted goal =
    let candidates_desc = reverse (keep (below goal) sorted) in
    if leb 3 (length candidates_desc)
    then k_loop sorted goal candidates_desc (sizes (length candidates_desc)) 3
    else greedy_impl sorted goal

-- `values.iter().copied().enumerate()`
abbrev pub enumerate : ℕ → List ℕ → List Note
enumerate i [] = []
enumerate i (x ∷ xs) = (i, x) ∷ enumerate (i + 1) xs

-- What is left when neither two notes nor one match exactly.
unfoldable pub overshoots : Scan Pair → Scan ℕ → List Note → ℕ → Outcome PlanError CombinationResult
overshoots (over p excess) one sorted goal = ok (two_overshoot p.0 p.1 excess)
overshoots two (over i excess) sorted goal = ok (one_overshoot i excess)
overshoots two one sorted goal = do
  k ← k_scan sorted goal
  elim k [
    | exact indices ↦ ok (exact_k indices)
    | over indices excess ↦ ok (overshoot indices excess)
    | miss ↦ ok impossible
  ]

unfoldable pub one_or_more :
    Scan Pair → Scan ℕ → List Note → ℕ → Outcome PlanError CombinationResult
one_or_more two (exact i) sorted goal = ok (one_exact i)
one_or_more two one sorted goal = overshoots two one sorted goal

unfoldable pub after_two : Scan Pair → List Note → ℕ → Outcome PlanError CombinationResult
after_two (exact p) sorted goal = ok (two_exact p.0 p.1)
after_two two sorted goal = one_or_more two (one_scan sorted goal) sorted goal

unfoldable pub find_combination :
    (List Note → List Note) → List ℕ → ℕ → Outcome PlanError CombinationResult
find_combination sort [] goal = ok impossible
find_combination sort (v ∷ values) goal = do
  let sorted = sort (enumerate 0 (v ∷ values))
  two ← two_scan sorted goal
  after_two two sorted goal
