-- ===== src/Examples/PlannerRuns.antt =====
-- A wallet of three notes, sorted by insertion, and the planner's theorems there.
use stellar_private_payments.Prelude.{
  ℕ, All, ◌≤◌, get_elem?, leb→le, zero, suc, some, ◌≢◌, ◌≡◌, refl, inl, inr, Bool-cases, List, [],
  ◌∷◌, arith, leb, if◌then◌else◌, ok,
}
use stellar_private_payments.TxPlanner.Selection.{
  Chosen-All, skip, Note, Chosen, nil, take, swap, trans, Chosen-refl, total_amount,
}
use stellar_private_payments.TxPlanner.Combination.{
  find_combination, two_scan, two_loop, after_two, two_exact, enumerate,
}
use stellar_private_payments.TxPlanner.Combination.Runs.{Runs}
use stellar_private_payments.TxPlanner.Combination.Found.{IsSort, Selects, find_combination-Selects}
use stellar_private_payments.TxPlanner.Combination.Complete.{Ascending, find_combination-two_exact}
use stellar_private_payments.TxPlanner.Plan.{
  resolve, resolve_input_note, from_amount, final, SpendableNote, plan,
}
use stellar_private_payments.TxPlanner.Plan.Resolve.{In, resolve-two_notes}
use stellar_private_payments.TxPlanner.Plan.Spends.{PlanResult, plan-PlanResult}

abbrev pub insert : Note → List Note → List Note
insert x [] = x ∷ []
insert x (y ∷ ys) = if leb x.1 y.1 then x ∷ y ∷ ys else y ∷ insert x ys

abbrev pub sort : List Note → List Note
sort [] = []
sort (x ∷ xs) = insert x (sort xs)

insert-Chosen : (x : Note) (ys : List Note) → Chosen (insert x ys) (x ∷ ys)
insert-Chosen x [] = Chosen-refl (x ∷ [])
insert-Chosen x (y ∷ ys) = elim (Bool-cases (leb x.1 y.1)) [
  | inl e ↦ rw e (Chosen-refl (x ∷ y ∷ ys))
  | inr e ↦ rw e (trans (take (insert-Chosen x ys)) swap)
]

Chosen-insert : (x : Note) (ys : List Note) → Chosen (x ∷ ys) (insert x ys)
Chosen-insert x [] = Chosen-refl (x ∷ [])
Chosen-insert x (y ∷ ys) = elim (Bool-cases (leb x.1 y.1)) [
  | inl e ↦ rw e (Chosen-refl (x ∷ y ∷ ys))
  | inr e ↦ rw e (trans swap (take (Chosen-insert x ys)))
]

sort-Chosen : (xs : List Note) → Chosen (sort xs) xs
sort-Chosen [] = nil
sort-Chosen (x ∷ xs) = trans (insert-Chosen x (sort xs)) (take (sort-Chosen xs))

Chosen-sort : (xs : List Note) → Chosen xs (sort xs)
Chosen-sort [] = nil
Chosen-sort (x ∷ xs) = trans (take (Chosen-sort xs)) (Chosen-insert x (sort xs))

pub sort-IsSort : IsSort sort
sort-IsSort = record { sorted_Chosen = sort-Chosen; Chosen_sorted = Chosen-sort }

abbrev pub notes : List SpendableNote
notes =
    record { commitment = 31; amount = 7 }
    ∷ record { commitment = 32; amount = 3 }
    ∷ record { commitment = 33; amount = 5 }
    ∷ []

pair_found : find_combination sort (7 ∷ 3 ∷ 5 ∷ []) 10 ≡ ok (two_exact 1 0)
unfolding find_combination two_scan two_loop after_two
pair_found = refl

find_combination-Selects_example :
    Runs
      (total_amount (enumerate 0 (7 ∷ 3 ∷ 5 ∷ [])))
      (find_combination sort (7 ∷ 3 ∷ 5 ∷ []) 10)
      (Selects (enumerate 0 (7 ∷ 3 ∷ 5 ∷ [])) 10)
find_combination-Selects_example =
    find_combination-Selects sort sort-IsSort (7 ∷ 3 ∷ 5 ∷ []) 10 (omega arith)

plan-PlanResult_example : PlanResult notes 15 (plan sort 15 notes)
plan-PlanResult_example = plan-PlanResult sort sort-IsSort 15 notes (omega arith)

abbrev merged : List SpendableNote
merged = record { commitment = 40; amount = 10 } ∷ record { commitment = 33; amount = 5 } ∷ []

-- The second step of a plan: the merged note, and one of the wallet.
resolved :
    resolve
      (record {
        inputs = (from_amount 10, some (record { commitment = some 33; amount = 5 }));
        action = final 12 (some 3);
      })
      merged
    ≡ ok merged
unfolding resolve resolve_input_note
resolved = refl

resolve-two_notes_example :
    (a : SpendableNote) × (b : SpendableNote) × (merged ≡ a ∷ b ∷ [])
    × In a merged
    × In b merged
    × (a.amount ≡ 10)
    × (b.amount ≡ 5)
    × (a.commitment ≢ b.commitment)
resolve-two_notes_example =
    resolve-two_notes (from_amount 10) (record { commitment = some 33; amount = 5 })
      (final 12 (some 3)) merged merged (λ e. absurd cc) resolved

-- Insertion sort gives ascending amounts.
abbrev AllAbove : ℕ → List Note → Type 0
AllAbove m xs = All (λ x. m ≤ x.1) xs

abbrev Sorted : List Note → Type 0
Sorted [] = Unit
Sorted (x ∷ xs) = AllAbove x.1 xs × Sorted xs

above_less : (m n : ℕ) (xs : List Note) → m ≤ n → AllAbove n xs → AllAbove m xs
above_less m n [] h a = tt
above_less m n (x ∷ xs) h (b, a) = (omega arith, above_less m n xs h a)

insert-Sorted : (x : Note) (ys : List Note) → Sorted ys → Sorted (insert x ys)
insert-Sorted x [] s = (tt, tt)
insert-Sorted x (y ∷ ys) (above, s) = elim (Bool-cases (leb x.1 y.1)) [
  | inl e ↦ let le = leb→le x.1 y.1 e in rw e ((le, above_less x.1 y.1 ys le above), (above, s))
  | inr e ↦
      rw e (
        Chosen-All (λ z. y.1 ≤ z.1) (insert-Chosen x ys) (ground arith, above),
        insert-Sorted x ys s,
      )
]

sort-Sorted : (xs : List Note) → Sorted (sort xs)
sort-Sorted [] = tt
sort-Sorted (x ∷ xs) = insert-Sorted x (sort xs) (sort-Sorted xs)

above_all :
    (m : ℕ) (xs : List Note) (i : ℕ) (a : Note) → AllAbove m xs → get_elem? xs i ≡ some a → m ≤ a.1
above_all m [] i a h e = absurd cc
above_all m (x ∷ xs) zero a (le, h) e = let e' : x.1 ≡ a.1 = cc in omega arith
above_all m (x ∷ xs) (suc i) a (le, h) e = above_all m xs i a h e

Sorted-Ascending : (xs : List Note) → Sorted xs → Ascending xs
Sorted-Ascending [] s i j a b le ea eb = absurd cc
Sorted-Ascending (x ∷ xs) s zero zero a b le ea eb = let e : a.1 ≡ b.1 = cc in omega arith
Sorted-Ascending (x ∷ xs) (above, s) zero (suc j) a b le ea eb =
    let e : x.1 ≡ a.1 = cc in omega (arith, above_all x.1 xs j b above eb)
Sorted-Ascending (x ∷ xs) s (suc i) zero a b le ea eb = absurd (omega arith)
Sorted-Ascending (x ∷ xs) (above, s) (suc i) (suc j) a b le ea eb =
    Sorted-Ascending xs s i j a b (omega arith) ea eb

find_combination-two_exact_example :
    (p : ℕ × ℕ) × (find_combination sort (7 ∷ 3 ∷ 5 ∷ []) 10 ≡ ok (two_exact p.0 p.1))
find_combination-two_exact_example =
    find_combination-two_exact sort sort-IsSort (λ xs. Sorted-Ascending (sort xs) (sort-Sorted xs))
      (7 ∷ 3 ∷ 5 ∷ []) 10 (0, 7) (1, 3) (omega arith) (omega arith) (take (take (skip nil))) refl
