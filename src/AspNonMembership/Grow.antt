-- ===== src/AspNonMembership/Grow.antt =====
-- Insertion into the tree: a leaf takes an empty place, or divides from the leaf that is there.
use stellar_private_payments.Prelude.{
  ℕ, suc, zero, ◌+◌, ◌≡◌, ◌≢◌, ◌⊎◌, inl, inr, refl, ap, Bool, true, false, List, [], ◌∷◌, arith,
  length,
}
use stellar_private_payments.AspNonMembership.{split_bits}
use stellar_private_payments.AspNonMembership.Insertion.{drop}
use stellar_private_payments.AspNonMembership.Tree.{
  Smt, blank, leaf, fork, In, here, left, right, Remaining, below, at_root,
}
use stellar_private_payments.AspNonMembership.Shape.{Sub, self, in_left, in_right}

-- The fork whose bit side is the second tree.
abbrev pub fork_by : Bool → Smt → Smt → Smt
fork_by true sib t = fork sib t
fork_by false sib t = fork t sib

-- Two leaves part where the bits of their keys do.
unfoldable pub divide : List Bool → List Bool → Smt → Smt → Smt
divide (true ∷ cs) (true ∷ bs) old new = fork blank (divide cs bs old new)
divide (false ∷ cs) (false ∷ bs) old new = fork (divide cs bs old new) blank
divide (false ∷ cs) (true ∷ bs) old new = fork old new
divide (true ∷ cs) (false ∷ bs) old new = fork new old
divide [] bs old new = new
divide (a ∷ cs) [] old new = new

-- `level` bits of the path are used, and `bits` are left.
unfoldable pub insert_in : ℕ → List Bool → ℕ → ℕ → Smt → Smt
insert_in level bits key value blank = leaf key value
insert_in level bits key value (leaf k v) =
    divide (drop level (split_bits k)) bits (leaf k v) (leaf key value)
insert_in level (true ∷ bits) key value (fork l r) = fork l (insert_in (level + 1) bits key value r)
insert_in level (false ∷ bits) key value (fork l r) =
    fork (insert_in (level + 1) bits key value l) r
insert_in level [] key value (fork l r) = fork l r

-- The bits that remain are those that the level leaves.
abbrev pub Drops : ℕ → Remaining → Type 0
Drops level remains = (k : ℕ) (bs : List Bool) → remains k bs → drop level (split_bits k) ≡ bs

drop_next :
    (level : ℕ) (xs : List Bool) (b : Bool) (bs : List Bool)
    → drop level xs ≡ b ∷ bs
    → drop (level + 1) xs ≡ bs
drop_next zero [] b bs h = absurd cc
drop_next zero (x ∷ xs) b bs h = ground arith
drop_next (suc level) [] b bs h = absurd cc
drop_next (suc level) (x ∷ xs) b bs h =
    let e : suc level + 1 ≡ suc (level + 1) = omega arith in rw e (drop_next level xs b bs h)

pub Drops-below :
    (level : ℕ) (b : Bool) (remains : Remaining)
    → Drops level remains
    → Drops (level + 1) (below b remains)
Drops-below level b remains h k bs p = drop_next level (split_bits k) b bs (h k (b ∷ bs) p)

pub Drops-at_root : Drops 0 at_root
Drops-at_root k bs h = h

-- Two lists of bits part somewhere.
pub data Part : List Bool → List Bool → Type 0 where
  parts : {a b : Bool} {cs bs : List Bool} → a ≢ b → Part (a ∷ cs) (b ∷ bs)
  later : {a : Bool} {cs bs : List Bool} → Part cs bs → Part (a ∷ cs) (a ∷ bs)

pub Part-or_same : (cs bs : List Bool) → length cs ≡ length bs → Part cs bs ⊎ (cs ≡ bs)
Part-or_same [] [] h = inr refl
Part-or_same [] (b ∷ bs) h = absurd (omega arith)
Part-or_same (a ∷ cs) [] h = absurd (omega arith)
Part-or_same (true ∷ cs) (false ∷ bs) h = inl (parts (λ e. cc))
Part-or_same (false ∷ cs) (true ∷ bs) h = inl (parts (λ e. cc))
Part-or_same (true ∷ cs) (true ∷ bs) h = elim (Part-or_same cs bs (omega arith)) [
  | inl p ↦ inl (later p)
  | inr e ↦ inr (ap (λ xs. true ∷ xs) e)
]
Part-or_same (false ∷ cs) (false ∷ bs) h = elim (Part-or_same cs bs (omega arith)) [
  | inl p ↦ inl (later p)
  | inr e ↦ inr (ap (λ xs. false ∷ xs) e)
]

pub In-divide :
    (cs bs : List Bool) (old : Smt) (key value : ℕ)
    → In key value (divide cs bs old (leaf key value))
unfolding divide
In-divide [] bs old key value = here
In-divide (a ∷ cs) [] old key value = here
In-divide (false ∷ cs) (true ∷ bs) old key value = right here
In-divide (true ∷ cs) (false ∷ bs) old key value = left here
In-divide (true ∷ cs) (true ∷ bs) old key value = right (In-divide cs bs old key value)
In-divide (false ∷ cs) (false ∷ bs) old key value = left (In-divide cs bs old key value)

-- The parts of a divided leaf.
pub Sub-divide :
    (cs bs : List Bool) (old : Smt) (key value : ℕ) (u : Smt)
    → Sub u (divide cs bs old (leaf key value))
    → In key value u ⊎ (Sub u old ⊎ (u ≡ blank))
unfolding divide
Sub-divide [] bs old key value u self = inl here
Sub-divide (a ∷ cs) [] old key value u self = inl here
Sub-divide (false ∷ cs) (true ∷ bs) old key value u self = inl (right here)
Sub-divide (false ∷ cs) (true ∷ bs) old key value u (in_left s) = inr (inl s)
Sub-divide (false ∷ cs) (true ∷ bs) old key value u (in_right self) = inl here
Sub-divide (true ∷ cs) (false ∷ bs) old key value u self = inl (left here)
Sub-divide (true ∷ cs) (false ∷ bs) old key value u (in_right s) = inr (inl s)
Sub-divide (true ∷ cs) (false ∷ bs) old key value u (in_left self) = inl here
Sub-divide (true ∷ cs) (true ∷ bs) old key value u self =
    inl (right (In-divide cs bs old key value))
Sub-divide (true ∷ cs) (true ∷ bs) old key value u (in_left self) = inr (inr refl)
Sub-divide (true ∷ cs) (true ∷ bs) old key value u (in_right s) = Sub-divide cs bs old key value u s
Sub-divide (false ∷ cs) (false ∷ bs) old key value u self =
    inl (left (In-divide cs bs old key value))
Sub-divide (false ∷ cs) (false ∷ bs) old key value u (in_right self) = inr (inr refl)
Sub-divide (false ∷ cs) (false ∷ bs) old key value u (in_left s) =
    Sub-divide cs bs old key value u s

-- The bits lead to a blank, or to a leaf from which they part.
pub data Way : ℕ → List Bool → Smt → Type 0 where
  on_blank : {level : ℕ} {bits : List Bool} → Way level bits blank
  on_leaf :
      {level : ℕ} {bits : List Bool} {k v : ℕ}
      → Part (drop level (split_bits k)) bits
      → Way level bits (leaf k v)
  to_left :
      {level : ℕ} {bits : List Bool} {l r : Smt}
      → Way (level + 1) bits l
      → Way level (false ∷ bits) (fork l r)
  to_right :
      {level : ℕ} {bits : List Bool} {l r : Smt}
      → Way (level + 1) bits r
      → Way level (true ∷ bits) (fork l r)

module _ (key value : ℕ) where
  pub In-insert_in :
      (level : ℕ) (bits : List Bool) (t : Smt)
      → Way level bits t
      → In key value (insert_in level bits key value t)
  unfolding insert_in
  In-insert_in level bits blank w = here
  In-insert_in level bits (leaf k v) w =
      In-divide (drop level (split_bits k)) bits (leaf k v) key value
  In-insert_in level [] (fork l r) w = elim w [ ]
  In-insert_in level (true ∷ bits) (fork l r) (to_right w) =
      right (In-insert_in (level + 1) bits r w)
  In-insert_in level (false ∷ bits) (fork l r) (to_left w) =
      left (In-insert_in (level + 1) bits l w)

  -- What a part of the new tree is.
  pub Sub-insert_in :
      (level : ℕ) (bits : List Bool) (t : Smt)
      → Way level bits t
      → (u : Smt) → Sub u (insert_in level bits key value t)
      → In key value u ⊎ (Sub u t ⊎ (u ≡ blank))
  unfolding insert_in
  Sub-insert_in level bits blank w u self = inl here
  Sub-insert_in level bits (leaf k v) w u s =
      Sub-divide (drop level (split_bits k)) bits (leaf k v) key value u s
  Sub-insert_in level [] (fork l r) w u s = elim w [ ]
  Sub-insert_in level (true ∷ bits) (fork l r) (to_right w) u self =
      inl (right (In-insert_in (level + 1) bits r w))
  Sub-insert_in level (true ∷ bits) (fork l r) (to_right w) u (in_left s) = inr (inl (in_left s))
  Sub-insert_in level (true ∷ bits) (fork l r) (to_right w) u (in_right s) =
      elim (Sub-insert_in (level + 1) bits r w u s) [
        | inl i ↦ inl i
        | inr (inl i) ↦ inr (inl (in_right i))
        | inr (inr e) ↦ inr (inr e)
      ]
  Sub-insert_in level (false ∷ bits) (fork l r) (to_left w) u self =
      inl (left (In-insert_in (level + 1) bits l w))
  Sub-insert_in level (false ∷ bits) (fork l r) (to_left w) u (in_right s) = inr (inl (in_right s))
  Sub-insert_in level (false ∷ bits) (fork l r) (to_left w) u (in_left s) =
      elim (Sub-insert_in (level + 1) bits l w u s) [
        | inl i ↦ inl i
        | inr (inl i) ↦ inr (inl (in_left i))
        | inr (inr e) ↦ inr (inr e)
      ]

  -- Nothing is lost.
  In-divide_old :
      (xs bs : List Bool) (k v : ℕ) (old : Smt)
      → Part xs bs
      → In k v old
      → In k v (divide xs bs old (leaf key value))
  unfolding divide
  In-divide_old (true ∷ xs) (true ∷ bs) k v old (later p) i =
      right (In-divide_old xs bs k v old p i)
  In-divide_old (false ∷ xs) (false ∷ bs) k v old (later p) i =
      left (In-divide_old xs bs k v old p i)
  In-divide_old (true ∷ xs) (true ∷ bs) k v old (parts ne) i = absurd (ne refl)
  In-divide_old (false ∷ xs) (false ∷ bs) k v old (parts ne) i = absurd (ne refl)
  In-divide_old (true ∷ xs) (false ∷ bs) k v old p i = right i
  In-divide_old (false ∷ xs) (true ∷ bs) k v old p i = left i
  In-divide_old [] bs k v old p i = elim p [ ]
  In-divide_old (true ∷ xs) [] k v old p i = elim p [ ]
  In-divide_old (false ∷ xs) [] k v old p i = elim p [ ]

  pub In-insert_in_old :
      (level : ℕ) (bits : List Bool) (t : Smt)
      → Way level bits t
      → (k v : ℕ) → In k v t
      → In k v (insert_in level bits key value t)
  unfolding insert_in
  In-insert_in_old level bits (leaf k' v') (on_leaf p) k v i =
      In-divide_old (drop level (split_bits k')) bits k v (leaf k' v') p i
  In-insert_in_old level bits blank w k v i = elim i [ ]
  In-insert_in_old level [] (fork l r) w k v i = elim w [ ]
  In-insert_in_old level (true ∷ bits) (fork l r) (to_right w) k v (left i) = left i
  In-insert_in_old level (true ∷ bits) (fork l r) (to_right w) k v (right i) =
      right (In-insert_in_old (level + 1) bits r w k v i)
  In-insert_in_old level (false ∷ bits) (fork l r) (to_left w) k v (right i) = right i
  In-insert_in_old level (false ∷ bits) (fork l r) (to_left w) k v (left i) =
      left (In-insert_in_old (level + 1) bits l w k v i)
