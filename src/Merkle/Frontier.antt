-- ===== src/Merkle/Frontier.antt =====
-- What a store keeps of an append-only tree: on each level the node that waits for its right
-- sibling. The climb from a new node keeps this up to date.
use stellar_private_payments.Prelude.{
  All, ℕ, zero, suc, ◌+◌, ◌≤◌, ◌<◌, ◌≡◌, ◌≢◌, refl, ◌∙◌, Option, some, none, update, List, [], ◌∷◌,
  ◌++◌, arith, ==_refl, ==_ne,
}
use stellar_private_payments.Poseidon.{bn256_modulus}
use stellar_private_payments.Merkle.Levels.{
  pairs, pending, parent, waits, completed, pairs-append, pending-append,
}

-- The keyed entries `FilledSubtree(lvl)` and `Zeroes(lvl)` of a store.
abbrev pub Levels : Type 0
Levels = ℕ → Option ℕ

abbrev pub Canonical : List ℕ → Type 0
Canonical = All (λ x. x < bn256_modulus)

-- The zero hashes of the `k` levels from `lvl` are stored.
abbrev pub ZeroesStored : Levels → (ℕ → ℕ) → ℕ → ℕ → Type 0
ZeroesStored zeroes empty k lvl =
    (i : ℕ) → lvl ≤ i → i < lvl + k → (zeroes i ≡ some (empty i)) × (empty i < bn256_modulus)

-- A waiting node is the one that the store has for its level.
abbrev pub Stored : Levels → ℕ → Option ℕ → Type 0
Stored filled lvl none = Unit {0}
Stored filled lvl (some a) = filled lvl ≡ some a

abbrev pub store_unless : Levels → ℕ → Option ℕ → ℕ → Levels
store_unless filled lvl none h = update filled lvl (some h)
store_unless filled lvl (some a) h = filled

module _ (hash : ℕ → ℕ → ℕ) where
  -- For the `k` levels from `lvl`, with the complete nodes `xs` on level `lvl`.
  abbrev pub Frontier : ℕ → ℕ → Levels → List ℕ → Type 0
  Frontier zero lvl filled xs = Unit {0}
  Frontier (suc k) lvl filled xs =
      Stored filled lvl (pending xs) × Frontier k (lvl + 1) filled (pairs hash xs)

  -- The stored subtrees after the loop.
  unfoldable pub stored : (ℕ → ℕ) → ℕ → ℕ → List ℕ → ℕ → Levels → Levels
  stored empty zero lvl xs h filled = filled
  stored empty (suc k) lvl xs h filled =
      stored empty k (lvl + 1) (pairs hash xs) (parent hash (empty lvl) (pending xs) h)
        (store_unless filled lvl (pending xs) h)

store_unless-above :
    (filled : Levels) (lvl j h : ℕ) (o : Option ℕ)
    → j ≢ lvl
    → store_unless filled lvl o h j ≡ filled j
store_unless-above filled lvl j h none e = rw (==_ne j lvl e)
store_unless-above filled lvl j h (some a) e = refl

Stored-agree :
    (f g : Levels) (lvl : ℕ) (o : Option ℕ) → g lvl ≡ f lvl → Stored f lvl o → Stored g lvl o
Stored-agree f g lvl none e s = tt
Stored-agree f g lvl (some a) e s = e ∙ s

module _ (hash : ℕ → ℕ → ℕ) where
  pub Frontier-nil : (k lvl : ℕ) (filled : Levels) → Frontier hash k lvl filled []
  unfolding pending pairs
  Frontier-nil zero lvl filled = tt
  Frontier-nil (suc k) lvl filled = (tt, Frontier-nil k (lvl + 1) filled)

  -- Only the levels from `lvl` matter.
  Frontier-agree :
      (k lvl : ℕ) (f g : Levels) (xs : List ℕ)
      → ((j : ℕ) → lvl ≤ j → g j ≡ f j)
      → Frontier hash k lvl f xs
      → Frontier hash k lvl g xs
  Frontier-agree zero lvl f g xs e fr = tt
  Frontier-agree (suc k) lvl f g xs e fr = (
    Stored-agree f g lvl (pending xs) (e lvl (omega arith)) fr.0,
    Frontier-agree k (lvl + 1) f g (pairs hash xs) (λ j h. e j (omega arith)) fr.1,
  )

  pub Frontier-store_unless :
      (k lvl h : ℕ) (filled : Levels) (o : Option ℕ) (xs : List ℕ)
      → Frontier hash k (lvl + 1) filled xs
      → Frontier hash k (lvl + 1) (store_unless filled lvl o h) xs
  Frontier-store_unless k lvl h filled o xs =
      Frontier-agree k (lvl + 1) filled (store_unless filled lvl o h) xs
        (λ j le. store_unless-above filled lvl j h o (omega arith))

module _ (hash : ℕ → ℕ → ℕ) (empty : ℕ → ℕ) where
  stored-below :
      (k lvl h : ℕ) (filled : Levels) (xs : List ℕ) (j : ℕ)
      → j < lvl
      → stored hash empty k lvl xs h filled j ≡ filled j
  unfolding stored
  stored-below zero lvl h filled xs j lt = refl
  stored-below (suc k) lvl h filled xs j lt =
      stored-below k (lvl + 1) _ (store_unless filled lvl (pending xs) h) (pairs hash xs) j
        (omega arith)
      ∙ store_unless-above filled lvl j h (pending xs) (omega arith)

  -- The insertion keeps the nodes that waited before it on the levels that it leaves by the right.
  stored-Frontier :
      (k lvl h : ℕ) (filled : Levels) (xs : List ℕ)
      → Frontier hash k lvl filled xs
      → Frontier hash k lvl (stored hash empty k lvl xs h filled) xs
  unfolding stored
  stored-Frontier zero lvl h filled xs f = tt
  stored-Frontier (suc k) lvl h filled xs f = (
    on_level (pending xs) f.0,
    stored-Frontier k (lvl + 1) _ _ (pairs hash xs)
        (Frontier-store_unless hash k lvl h filled (pending xs) (pairs hash xs) f.1),
  )
    where
      on_level :
          (o : Option ℕ)
          → Stored filled lvl o
          → Stored
              (stored hash empty k
                (lvl + 1)
                (pairs hash xs)
                (parent hash (empty lvl) o h)
                (store_unless filled lvl o h))
              lvl
              o
      on_level none s = tt
      on_level (some a) s = stored-below k (lvl + 1) _ filled (pairs hash xs) lvl (omega arith) ∙ s

  appended :
      (k lvl h : ℕ) (filled : Levels) (xs : List ℕ) (o : Option ℕ)
      → ((h' : ℕ) (g : Levels)
          → Frontier hash k (lvl + 1) g xs
          → Frontier hash k (lvl + 1) (stored hash empty k (lvl + 1) xs h' g) (xs ++ h' ∷ []))
      → Frontier hash k (lvl + 1) filled xs
      → let g =
          stored hash empty k
            (lvl + 1)
            xs
            (parent hash (empty lvl) o h)
            (store_unless filled lvl o h) in
        Stored g lvl (waits o h) × Frontier hash k (lvl + 1) g (completed hash o xs h)
  appended k lvl h filled xs none ih f = (
    stored-below k (lvl + 1) _ (update filled lvl (some h)) xs lvl (omega arith)
        ∙ rw (==_refl lvl) refl,
    stored-Frontier k (lvl + 1) _ _ xs (Frontier-store_unless hash k lvl h filled none xs f),
  )
  appended k lvl h filled xs (some a) ih f = (tt, ih (hash a h) filled f)

  -- After the loop the store holds the waiting nodes of the level with the new node.
  pub stored-Frontier-append :
      (k lvl h : ℕ) (filled : Levels) (xs : List ℕ)
      → Frontier hash k lvl filled xs
      → Frontier hash k lvl (stored hash empty k lvl xs h filled) (xs ++ h ∷ [])
  unfolding stored
  stored-Frontier-append zero lvl h filled xs f = tt
  stored-Frontier-append (suc k) lvl h filled xs f =
      rw (pending-append xs h, pairs-append hash xs h)
        (appended k lvl h filled (pairs hash xs) (pending xs)
          (λ h' g. stored-Frontier-append k (lvl + 1) h' g (pairs hash xs)) f.1)
