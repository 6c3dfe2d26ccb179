-- ===== src/Merkle/Levels.antt =====
-- One level of an append-only tree is the list of its nodes from the left. `pairs` hashes the
-- complete pairs; `pending` is the node that waits for its right sibling; `next` also hashes that
-- one, with the empty subtree.
use stellar_private_payments.Prelude.{
  ℕ, ◌/◌, ◌%◌, ◌≡◌, refl, ap, Option, none, some, List, [], ◌∷◌, ◌++◌, arith, length, All,
}

module _ {ℓ} {A : Type ℓ} where
  unfoldable pub pending : List A → Option A
  pending [] = none
  pending (a ∷ []) = some a
  pending (a ∷ b ∷ r) = pending r

  -- A node that waits becomes the left child; another one is paired with the empty subtree.
  abbrev pub parent : (A → A → A) → A → Option A → A → A
  parent hash empty none h = hash h empty
  parent hash empty (some a) h = hash a h

module _ {ℓ} {A : Type ℓ} (hash : A → A → A) where
  unfoldable pub pairs : List A → List A
  pairs [] = []
  pairs (a ∷ []) = []
  pairs (a ∷ b ∷ r) = hash a b ∷ pairs r

  unfoldable pub next : A → List A → List A
  next empty [] = []
  next empty (a ∷ []) = hash a empty ∷ []
  next empty (a ∷ b ∷ r) = hash a b ∷ next empty r

  -- The level above, when one node is appended.
  pub next-append :
      (empty : A) (xs : List A) (h : A)
      → next empty (xs ++ h ∷ []) ≡ pairs xs ++ parent hash empty (pending xs) h ∷ []
  unfolding next pairs pending
  next-append empty [] h = refl
  next-append empty (a ∷ []) h = refl
  next-append empty (a ∷ b ∷ r) h = ap (◌∷◌ (hash a b)) (next-append empty r h)

  -- The complete pairs, when a node is appended that may be the right sibling of one that waits.
  abbrev pub completed : Option A → List A → A → List A
  completed none ps h = ps
  completed (some a) ps h = ps ++ hash a h ∷ []

  completed-cons :
      (o : Option A) (p : A) (ps : List A) (h : A) → p ∷ completed o ps h ≡ completed o (p ∷ ps) h
  completed-cons none p ps h = refl
  completed-cons (some a) p ps h = refl

  pub pairs-append :
      (xs : List A) (h : A) → pairs (xs ++ h ∷ []) ≡ completed (pending xs) (pairs xs) h
  unfolding pairs pending
  pairs-append [] h = refl
  pairs-append (a ∷ []) h = refl
  pairs-append (a ∷ b ∷ r) h =
      rw (pairs-append r h) (completed-cons (pending r) (hash a b) (pairs r) h)

  pub pairs-append_two :
      (xs : List A) (a b : A)
      → pending xs ≡ none
      → pairs (xs ++ a ∷ b ∷ []) ≡ pairs xs ++ hash a b ∷ []
  unfolding pairs pending
  pairs-append_two [] a b e = refl
  pairs-append_two (x ∷ []) a b e = cc
  pairs-append_two (x ∷ y ∷ r) a b e = ap (◌∷◌ (hash x y)) (pairs-append_two r a b e)

  pub length-pairs : (xs : List A) → length (pairs xs) ≡ length xs / 2
  unfolding pairs
  length-pairs [] = omega arith
  length-pairs (a ∷ []) = omega arith
  length-pairs (a ∷ b ∷ r) = omega (arith, length-pairs r)

module _ {ℓ} {A : Type ℓ} where
  abbrev pub waits : Option A → A → Option A
  waits none h = some h
  waits (some a) h = none

  pub pending-append : (xs : List A) (h : A) → pending (xs ++ h ∷ []) ≡ waits (pending xs) h
  unfolding pending
  pending-append [] h = refl
  pending-append (a ∷ []) h = refl
  pending-append (a ∷ b ∷ r) h = pending-append r h

  pub pending-append_two :
      (xs : List A) (a b : A) → pending xs ≡ none → pending (xs ++ a ∷ b ∷ []) ≡ none
  unfolding pending
  pending-append_two [] a b e = refl
  pending-append_two (x ∷ []) a b e = cc
  pending-append_two (x ∷ y ∷ r) a b e = pending-append_two r a b e

  abbrev pub parity : Option A → ℕ
  parity none = 0
  parity (some a) = 1

  -- A node waits exactly at an odd length.
  pub pending-parity : (xs : List A) → length xs % 2 ≡ parity (pending xs)
  unfolding pending
  pending-parity [] = refl
  pending-parity (a ∷ []) = refl
  pending-parity (a ∷ b ∷ r) = omega (arith, pending-parity r)

module _ {ℓ κ} {A : Type ℓ} (P : A → Type κ) where
  pub All-pending : (xs : List A) (a : A) → All P xs → pending xs ≡ some a → P a
  unfolding pending
  All-pending [] a h e = cc
  All-pending (x ∷ []) a h e = ground arith
  All-pending (x ∷ y ∷ r) a h e = All-pending r a h.1.1 e

  pub All-pairs :
      (hash : A → A → A) → ((x y : A) → P (hash x y)) → (xs : List A) → All P (pairs hash xs)
  unfolding pairs
  All-pairs hash closed [] = tt
  All-pairs hash closed (a ∷ []) = tt
  All-pairs hash closed (a ∷ b ∷ r) = (closed a b, All-pairs hash closed r)
