-- ===== src/TxPlanner/Combination/Pairs.antt =====
-- What the scans for two notes and for one note find.
use stellar_private_payments.Prelude.{
  ℕ, suc, zero, ◌+◌, ◌-◌, ◌^◌, ◌<◌, ◌≡◌, inl, inr, refl, Bool-cases, List, [], ◌∷◌, length, Option,
  none, some, ok_or, ltb, ◌==◌, lt→ltb, arith, ==_iff, if◌then◌else◌,
}
use stellar_private_payments.Machine.{checked_add}
use stellar_private_payments.TxPlanner.Selection.{
  Note, Chosen, Chosen-total, total_amount, take, skip, Chosen-nil, Chosen-refl,
}
use stellar_private_payments.TxPlanner.Combination.{
  Pair, Scan, exact, over, miss, two_loop, two_scan, one_scan, improves, input_amount_overflow,
}
use stellar_private_payments.TxPlanner.Combination.Runs.{
  Runs, Runs-bind, checked_add-Runs, checked_sub-cases, Reaches, Reaches-mono, get_elem?-found,
  two_Chosen,
}

abbrev pub PairFound : List Note → ℕ → Scan Pair → Type 0
PairFound notes goal (exact p) = Reaches notes goal (p.0 ∷ p.1 ∷ []) 0
PairFound notes goal (over p excess) = Reaches notes goal (p.0 ∷ p.1 ∷ []) excess
PairFound notes goal miss = Unit

abbrev BestFound : List Note → ℕ → Option (ℕ × Pair) → Type 0
BestFound notes goal none = Unit
BestFound notes goal (some b) = Reaches notes goal (b.1.0 ∷ b.1.1 ∷ []) b.0

pair_Reaches :
    (notes : List Note) (goal : ℕ) (l r : Note)
    → Chosen (l ∷ r ∷ []) notes
    → (excess : ℕ) → l.1 + r.1 ≡ goal + excess
    → Reaches notes goal (l.0 ∷ r.0 ∷ []) excess
pair_Reaches notes goal l r c excess h = record {
  picked = l ∷ r ∷ [];
  chosen = c;
  at_indices = refl;
  some_picked = omega arith;
  reached = omega arith;
}

module _ (notes : List Note) (goal : ℕ) (few : length notes < 2 ^ 64) where
  improved_BestFound :
      (best : Option (ℕ × Pair)) (diff : ℕ) (p : Pair)
      → BestFound notes goal best
      → Reaches notes goal (p.0 ∷ p.1 ∷ []) diff
      → BestFound notes goal (if improves diff best then some (diff, p) else best)
  improved_BestFound none diff p h r = r
  improved_BestFound (some b) diff p h r = elim (Bool-cases (ltb diff b.0)) [
    | inl e ↦ rw e r
    | inr e ↦ rw e h
  ]

  two_loop-Runs :
      (gap left : ℕ) (best : Option (ℕ × Pair))
      → left + gap < length notes
      → BestFound notes goal best
      → Runs (total_amount notes) (two_loop notes goal gap left best) (PairFound notes goal)
  unfolding two_loop
  two_loop-Runs zero left none fits h = inl (miss, refl, tt)
  two_loop-Runs zero left (some b) fits h = inl (over b.1 b.0, refl, h)
  two_loop-Runs (suc gap) left best fits h =
      let (l, el) = get_elem?-found notes left (omega arith) in
      let (r, er) = get_elem?-found notes (left + suc gap) fits in
      let c = two_Chosen notes left (left + suc gap) l r (omega arith) el er in
      rw (el, er)
        (Runs-bind (PairFound notes goal) (total_amount notes)
          (ok_or (checked_add 128 l.1 r.1) input_amount_overflow) _
          (checked_add-Runs (total_amount notes) l.1 r.1 (omega (arith, Chosen-total c)))
          (λ sum e. elim (checked_sub-cases sum goal) [
            | inl (e', lt) ↦
                rw (e', lt→ltb (left + 1) (2 ^ 64) (omega arith))
                  (two_loop-Runs gap (left + 1) best (omega arith) h)
            | inr (e', le) ↦ rw e' (elim (Bool-cases (sum - goal == 0)) [
              | inl z ↦
                  let z' = (==_iff (sum - goal) 0).0 z in
                  rw z (inl (exact (l.0, r.0), refl, pair_Reaches notes goal l r c 0 (omega arith)))
              | inr z ↦ rw z (
                  two_loop-Runs gap left _ (omega arith) (
                    improved_BestFound best (sum - goal) (l.0, r.0) h
                      (pair_Reaches notes goal l r c (sum - goal) (omega arith))))
            ])
          ]))

pub two_scan-Runs :
    (notes : List Note) (goal : ℕ)
    → length notes < 2 ^ 64
    → Runs (total_amount notes) (two_scan notes goal) (PairFound notes goal)
unfolding two_scan
two_scan-Runs [] goal few = inl (miss, refl, tt)
two_scan-Runs (x ∷ []) goal few = inl (miss, refl, tt)
two_scan-Runs (x ∷ y ∷ notes) goal few =
    two_loop-Runs (x ∷ y ∷ notes) goal few (suc (length notes)) 0 none (omega arith) tt

abbrev pub OneFound : List Note → ℕ → Scan ℕ → Type 0
OneFound notes goal (exact i) = Reaches notes goal (i ∷ []) 0
OneFound notes goal (over i excess) = Reaches notes goal (i ∷ []) excess
OneFound notes goal miss = Unit

OneFound-skip :
    (x : Note) (notes : List Note) (goal : ℕ) (s : Scan ℕ)
    → OneFound notes goal s
    → OneFound (x ∷ notes) goal s
OneFound-skip x notes goal (exact i) r = Reaches-mono (skip (Chosen-refl notes)) r
OneFound-skip x notes goal (over i excess) r = Reaches-mono (skip (Chosen-refl notes)) r
OneFound-skip x notes goal miss r = tt

one_Reaches :
    (x : Note) (notes : List Note) (goal excess : ℕ)
    → x.1 ≡ goal + excess
    → Reaches (x ∷ notes) goal (x.0 ∷ []) excess
one_Reaches x notes goal excess h = record {
  picked = x ∷ [];
  chosen = take (Chosen-nil notes);
  at_indices = refl;
  some_picked = omega arith;
  reached = omega arith;
}

pub one_scan-OneFound : (notes : List Note) (goal : ℕ) → OneFound notes goal (one_scan notes goal)
unfolding one_scan
one_scan-OneFound [] goal = tt
one_scan-OneFound (x ∷ notes) goal = elim (checked_sub-cases x.1 goal) [
  | inl (e, lt) ↦
      rw (one_scan, e)
        (OneFound-skip x notes goal (one_scan notes goal) (one_scan-OneFound notes goal))
  | inr (e, le) ↦
      rw (one_scan, e)
        (elim (Bool-cases (x.1 - goal == 0)) [
          | inl z ↦
              let z' = (==_iff (x.1 - goal) 0).0 z in
              rw z (one_Reaches x notes goal 0 (omega arith))
          | inr z ↦ rw z (one_Reaches x notes goal (x.1 - goal) (omega arith))
        ])
]
