-- ===== src/TxPlanner/Selection.antt =====
-- Notes as pairs of an index and an amount, and what it means to choose some of them: each chosen
-- note takes a position of its own.
use stellar_private_payments.Prelude.{
  ℕ, ◌+◌, ◌≤◌, ◌≡◌, ◌≢◌, refl, sym, ap, inl, inr, Bool-cases, Bool, List, [], ◌∷◌, ◌++◌, arith,
  length, All, if◌then◌else◌,
}
use mathlib.Core.List.{reverse, reverse_aux}

abbrev pub Note : Type 0
Note = ℕ × ℕ

-- The first list holds notes of the second, in any order, none oftener than it stands there.
pub data Chosen : List Note → List Note → Type 0 where
  nil : Chosen [] []
  skip : {y : Note} {xs ys : List Note} → Chosen xs ys → Chosen xs (y ∷ ys)
  take : {y : Note} {xs ys : List Note} → Chosen xs ys → Chosen (y ∷ xs) (y ∷ ys)
  swap : {x y : Note} {xs : List Note} → Chosen (x ∷ y ∷ xs) (y ∷ x ∷ xs)
  trans : {xs ys zs : List Note} → Chosen xs ys → Chosen ys zs → Chosen xs zs

abbrev pub total_amount : List Note → ℕ
total_amount [] = 0
total_amount (x ∷ xs) = x.1 + total_amount xs

abbrev pub indices_of : List Note → List ℕ
indices_of [] = []
indices_of (x ∷ xs) = x.0 ∷ indices_of xs

-- No index stands twice.
abbrev pub Distinct : List Note → Type 0
Distinct [] = Unit
Distinct (x ∷ xs) = All (λ y. x.0 ≢ y.0) xs × Distinct xs

pub Chosen-refl : (xs : List Note) → Chosen xs xs
Chosen-refl [] = nil
Chosen-refl (x ∷ xs) = take (Chosen-refl xs)

pub Chosen-nil : (xs : List Note) → Chosen [] xs
Chosen-nil [] = nil
Chosen-nil (x ∷ xs) = skip (Chosen-nil xs)

pub Chosen-All : (P : Note → Type 0) {xs ys : List Note} → Chosen xs ys → All P ys → All P xs
Chosen-All P nil a = tt
Chosen-All P (skip c) a = Chosen-All P c a.1
Chosen-All P (take c) a = (a.0, Chosen-All P c a.1)
Chosen-All P swap a = (a.1.0, (a.0, a.1.1))
Chosen-All P (trans c d) a = Chosen-All P c (Chosen-All P d a)

pub Chosen-Distinct : {xs ys : List Note} → Chosen xs ys → Distinct ys → Distinct xs
Chosen-Distinct nil a = tt
Chosen-Distinct (skip c) a = Chosen-Distinct c a.1
Chosen-Distinct (take {y = y} c) a = (Chosen-All (λ z. y.0 ≢ z.0) c a.0, Chosen-Distinct c a.1)
Chosen-Distinct swap a = (((λ e. a.0.0 (sym e)), a.1.0), (a.0.1, a.1.1))
Chosen-Distinct (trans c d) a = Chosen-Distinct c (Chosen-Distinct d a)

pub Chosen-total : {xs ys : List Note} → Chosen xs ys → total_amount xs ≤ total_amount ys
Chosen-total nil = omega arith
Chosen-total (skip c) = omega (arith, Chosen-total c)
Chosen-total (take c) = omega (arith, Chosen-total c)
Chosen-total swap = omega arith
Chosen-total (trans c d) = omega (arith, Chosen-total c, Chosen-total d)

pub Chosen-length : {xs ys : List Note} → Chosen xs ys → length xs ≤ length ys
Chosen-length nil = omega arith
Chosen-length (skip c) = omega (arith, Chosen-length c)
Chosen-length (take c) = omega (arith, Chosen-length c)
Chosen-length swap = omega arith
Chosen-length (trans c d) = omega (arith, Chosen-length c, Chosen-length d)

-- Putting a note at the front or at the end is the same choice.
pub snoc-Chosen : (x : Note) (xs : List Note) → Chosen (xs ++ x ∷ []) (x ∷ xs)
snoc-Chosen x [] = Chosen-refl (x ∷ [])
snoc-Chosen x (y ∷ xs) = trans (take (snoc-Chosen x xs)) swap

pub cons-Chosen : (x : Note) (xs : List Note) → Chosen (x ∷ xs) (xs ++ x ∷ [])
cons-Chosen x [] = Chosen-refl (x ∷ [])
cons-Chosen x (y ∷ xs) = trans swap (take (cons-Chosen x xs))

move-Chosen : (x : Note) (xs ys : List Note) → Chosen (xs ++ x ∷ ys) (x ∷ xs ++ ys)
move-Chosen x [] ys = Chosen-refl (x ∷ ys)
move-Chosen x (y ∷ xs) ys = trans (take (move-Chosen x xs ys)) swap

back-Chosen : (x : Note) (xs ys : List Note) → Chosen (x ∷ xs ++ ys) (xs ++ x ∷ ys)
back-Chosen x [] ys = Chosen-refl (x ∷ ys)
back-Chosen x (y ∷ xs) ys = trans swap (take (back-Chosen x xs ys))

reverse_aux-Chosen : (xs r : List Note) → Chosen (reverse_aux xs r) (xs ++ r)
reverse_aux-Chosen [] r = Chosen-refl r
reverse_aux-Chosen (x ∷ xs) r = trans (reverse_aux-Chosen xs (x ∷ r)) (move-Chosen x xs r)

Chosen-reverse_aux : (xs r : List Note) → Chosen (xs ++ r) (reverse_aux xs r)
Chosen-reverse_aux [] r = Chosen-refl r
Chosen-reverse_aux (x ∷ xs) r = trans (back-Chosen x xs r) (Chosen-reverse_aux xs (x ∷ r))

append_nil : (xs : List Note) → xs ++ [] ≡ xs
append_nil [] = refl
append_nil (x ∷ xs) = ap (λ r. x ∷ r) (append_nil xs)

pub reverse-Chosen : (xs : List Note) → Chosen (reverse xs) xs
reverse-Chosen xs = let h = reverse_aux-Chosen xs [] in rw (append_nil xs) at h

pub Chosen-reverse : (xs : List Note) → Chosen xs (reverse xs)
Chosen-reverse xs = let h = Chosen-reverse_aux xs [] in rw (append_nil xs) at h

-- The notes that pass a test, in their order.
abbrev pub keep : (Note → Bool) → List Note → List Note
keep f [] = []
keep f (x ∷ xs) = if f x then x ∷ keep f xs else keep f xs

pub keep-Chosen : (f : Note → Bool) (xs : List Note) → Chosen (keep f xs) xs
keep-Chosen f [] = nil
keep-Chosen f (x ∷ xs) = elim (Bool-cases (f x)) [
  | inl e ↦ rw e (take (keep-Chosen f xs))
  | inr e ↦ rw e (skip (keep-Chosen f xs))
]
