-- ===== src/TxPlanner/Combination/Many.antt =====
-- What the search for three and more notes, and the greedy choice, find.
use stellar_private_payments.Prelude.{
  ℕ, ◌+◌, ◌-◌, ◌≤◌, ◌<◌, ◌≡◌, inl, inr, refl, ap, Bool-cases, List, [], ◌∷◌, ◌++◌, length, Bool,
  true, false, ◌||◌, Option, none, some, ok, ok_or, leb, ltb, ◌==◌, arith, ==_iff, if◌then◌else◌,
}
use stellar_private_payments.Machine.{checked_add, checked_sub}
use stellar_private_payments.TxPlanner.Selection.{
  Note, Chosen, Chosen-total, total_amount, indices_of, take, skip, trans, Chosen-nil, Chosen-refl,
}
use stellar_private_payments.TxPlanner.Combination.{
  improves, input_amount_overflow, Search, pop, dfs_leaf, dfs,
}
use stellar_private_payments.TxPlanner.Combination.Runs.{
  Runs, Runs-bind, Runs-weaken, checked_add-Runs, checked_sub-cases, Reaches,
}

indices_of-append : (xs ys : List Note) → indices_of (xs ++ ys) ≡ indices_of xs ++ indices_of ys
indices_of-append [] ys = refl
indices_of-append (x ∷ xs) ys = ap (λ r. x.0 ∷ r) (indices_of-append xs ys)

total_amount-snoc :
    (xs : List Note) (y : Note) → total_amount (xs ++ y ∷ []) ≡ total_amount xs + y.1
total_amount-snoc [] y = omega arith
total_amount-snoc (x ∷ xs) y = omega (arith, total_amount-snoc xs y)

pop-snoc : (xs : List ℕ) (x : ℕ) → pop (xs ++ x ∷ []) ≡ xs
pop-snoc [] x = refl
pop-snoc (y ∷ []) x = refl
pop-snoc (y ∷ z ∷ xs) x = ap (λ r. y ∷ r) (pop-snoc (z ∷ xs) x)

append-assoc_cons :
    (xs : List Note) (x : Note) (ys : List Note) → (xs ++ x ∷ []) ++ ys ≡ xs ++ x ∷ ys
append-assoc_cons [] x ys = refl
append-assoc_cons (y ∷ xs) x ys = ap (λ r. y ∷ r) (append-assoc_cons xs x ys)

-- The chosen notes so far, and those that may still be chosen.
pub record ChosenSoFar (notes : List Note) (path : List ℕ) (sum : ℕ) (rest : List Note)
    : Type 0 where
  pub picked : List Note
  pub at_path : indices_of picked ≡ path
  pub sum_picked : total_amount picked ≡ sum
  pub chosen : Chosen (picked ++ rest) notes

drop-Chosen : (xs : List Note) (x : Note) (ys : List Note) → Chosen (xs ++ ys) (xs ++ x ∷ ys)
drop-Chosen [] x ys = skip (Chosen-refl ys)
drop-Chosen (y ∷ xs) x ys = take (drop-Chosen xs x ys)

front-Chosen : (xs ys : List Note) → Chosen xs (xs ++ ys)
front-Chosen [] ys = Chosen-nil ys
front-Chosen (x ∷ xs) ys = take (front-Chosen xs ys)

module _ {notes : List Note} {path : List ℕ} {sum : ℕ} where
  pub pick :
      (x : Note) (rest : List Note)
      → ChosenSoFar notes path sum (x ∷ rest)
      → ChosenSoFar notes (path ++ x.0 ∷ []) (sum + x.1) rest
  pick x rest c = record {
    picked = c.picked ++ x ∷ [];
    at_path = rw (indices_of-append c.picked (x ∷ []), c.at_path) refl;
    sum_picked = omega (arith, total_amount-snoc c.picked x, c.sum_picked);
    chosen = rw (append-assoc_cons c.picked x rest) c.chosen;
  }

  pass :
      (x : Note) (rest : List Note)
      → ChosenSoFar notes path sum (x ∷ rest)
      → ChosenSoFar notes path sum rest
  pass x rest c = record {
    picked = c.picked;
    at_path = c.at_path;
    sum_picked = c.sum_picked;
    chosen = trans (drop-Chosen c.picked x rest) c.chosen;
  }

  pub finish :
      (goal excess : ℕ) (rest : List Note)
      → ChosenSoFar notes path sum rest
      → 0 < length path
      → sum ≡ goal + excess
      → Reaches notes goal path excess
  finish goal excess rest c pos e = record {
    picked = c.picked;
    chosen = trans (front-Chosen c.picked rest) c.chosen;
    at_indices = c.at_path;
    some_picked = pos;
    reached = omega (arith, c.sum_picked);
  }

  pub within :
      (x : Note) (rest : List Note)
      → ChosenSoFar notes path sum (x ∷ rest)
      → sum + x.1 ≤ total_amount notes
  within x rest c =
      let p = pick x rest c in
      omega (arith, p.sum_picked, Chosen-total (trans (front-Chosen p.picked rest) p.chosen))

abbrev pub BestKept : List Note → ℕ → Option (ℕ × List ℕ) → Type 0
BestKept notes goal none = Unit
BestKept notes goal (some b) = Reaches notes goal b.1 b.0

abbrev pub DfsFound : List Note → ℕ → List ℕ → Bool × Search → Type 0
DfsFound notes goal path (true, c) = Reaches notes goal c.path 0
DfsFound notes goal path (false, c) = (c.path ≡ path) × BestKept notes goal c.best_overshoot

module _ (notes : List Note) (goal : ℕ) where
  kept_BestKept :
      (best : Option (ℕ × List ℕ)) (diff : ℕ) (path : List ℕ)
      → BestKept notes goal best
      → Reaches notes goal path diff
      → BestKept notes goal (if improves diff best then some (diff, path) else best)
  kept_BestKept none diff p h r = r
  kept_BestKept (some b) diff p h r = elim (Bool-cases (ltb diff b.0)) [
    | inl e ↦ rw e r
    | inr e ↦ rw e h
  ]

  leaf_kept :
      (b : Bool) (diff : ℕ) (ctx : Search)
      → BestKept notes goal (if b then some (diff, ctx.path) else ctx.best_overshoot)
      → DfsFound notes goal ctx.path
          (false, (if b then record ctx { best_overshoot = some (diff, ctx.path) } else ctx))
  leaf_kept true diff ctx h = (refl, h)
  leaf_kept false diff ctx h = (refl, h)

  dfs_leaf-DfsFound :
      (sum : ℕ) (ctx : Search) (rest : List Note)
      → ChosenSoFar notes ctx.path sum rest
      → 0 < length ctx.path
      → BestKept notes goal ctx.best_overshoot
      → DfsFound notes goal ctx.path (dfs_leaf goal sum ctx)
  unfolding dfs_leaf
  dfs_leaf-DfsFound sum ctx rest c pos h = elim (checked_sub-cases sum goal) [
    | inl (e, lt) ↦ rw (dfs_leaf, e) (refl, h)
    | inr (e, le) ↦
        rw (dfs_leaf, e)
          (elim (Bool-cases (sum - goal == 0)) [
            | inl z ↦
                let z' = (==_iff (sum - goal) 0).0 z in
                rw z (finish goal 0 rest c pos (omega arith))
            | inr z ↦
                let r = finish goal (sum - goal) rest c pos (omega arith) in
                rw z (
                  leaf_kept (improves (sum - goal) ctx.best_overshoot) (sum - goal) ctx
                    (kept_BestKept ctx.best_overshoot (sum - goal) ctx.path h r))
          ])
  ]

  restored : (path : List ℕ) (i : ℕ) (c : Search) → c.path ≡ path ++ i ∷ [] → pop c.path ≡ path
  restored path i c e = rw e (pop-snoc path i)

  same_path :
      {path path' : List ℕ} (r : Bool × Search)
      → path' ≡ path
      → DfsFound notes goal path' r
      → DfsFound notes goal path r
  same_path r e h = rw e at h

  after_note :
      (k : ℕ) (rest : List Note) (sum : ℕ) (path : List ℕ) (x : Note)
      → ((ctx : Search)
          → ctx.path ≡ path
          → BestKept notes goal ctx.best_overshoot
          → Runs (total_amount notes) (dfs goal k sum rest ctx) (DfsFound notes goal path))
      → (r : Bool × Search) → DfsFound notes goal (path ++ x.0 ∷ []) r
      → Runs
          (total_amount notes)
          (elim r.0 [
            | true ↦ ok (true, r.1)
            | false ↦ dfs goal k sum rest (record r.1 { path = pop r.1.path })
          ])
          (DfsFound notes goal path)
  after_note k rest sum path x next (true, ctx) f = inl ((true, ctx), refl, f)
  after_note k rest sum path x next (false, ctx) f =
      next (record ctx { path = pop ctx.path }) (restored path x.0 ctx f.0) f.1

  abbrev with_path : Search → Note → Search
  with_path ctx x = record ctx {
    iteration_limit = ctx.iteration_limit - 1;
    path = ctx.path ++ x.0 ∷ [];
  }

  limit_left :
      (limit : ℕ) (b : Bool) → (b || limit == 0) ≡ false → checked_sub limit 1 ≡ some (limit - 1)
  limit_left limit b h = ground arith

  pub dfs-Runs :
      (k : ℕ) (pos : 0 < k) (rest : List Note) (sum : ℕ) (ctx : Search)
      → ChosenSoFar notes ctx.path sum rest
      → BestKept notes goal ctx.best_overshoot
      → Runs (total_amount notes) (dfs goal k sum rest ctx) (DfsFound notes goal ctx.path)
  unfolding dfs
  dfs-Runs k pos [] sum ctx c h = elim (Bool-cases (length ctx.path == k)) [
    | inl e ↦
        let e' = (==_iff (length ctx.path) k).0 e in
        rw e (inl (_, refl, dfs_leaf-DfsFound sum ctx [] c (omega arith) h))
    | inr e ↦ rw e (inl ((false, ctx), refl, (refl, h)))
  ]
  dfs-Runs k pos (x ∷ rest) sum ctx c h = elim (Bool-cases (length ctx.path == k)) [
    | inl e ↦
        let e' = (==_iff (length ctx.path) k).0 e in
        rw (dfs, e) (inl (_, refl, dfs_leaf-DfsFound sum ctx (x ∷ rest) c (omega arith) h))
    | inr e ↦
        rw (dfs, e)
          (elim (Bool-cases (leb goal sum || ctx.iteration_limit == 0)) [
            | inl stop ↦ rw stop (inl ((false, ctx), refl, (refl, h)))
            | inr go ↦
                rw (go, limit_left ctx.iteration_limit (leb goal sum) go)
                  (Runs-bind (DfsFound notes goal ctx.path) (total_amount notes)
                    (ok_or (checked_add 128 sum x.1) input_amount_overflow) _
                    (checked_add-Runs (total_amount notes) sum x.1 (within x rest c))
                    (λ s e'. rw e' (
                      Runs-bind (DfsFound notes goal ctx.path) (total_amount notes) _ _
                        (dfs-Runs k pos rest (sum + x.1) (with_path ctx x) (pick x rest c) h)
                        (after_note k rest sum ctx.path x (λ ctx' p best.
                          Runs-weaken (total_amount notes) _ (λ r. same_path r p)
                            (dfs-Runs k pos rest sum ctx' (rw p (pass x rest c)) best))))))
          ])
  ]
