-- ===== src/AspNonMembership/Kept.antt =====
-- What insertion into the tree keeps: the place of each key, the shape, and the field elements.
use stellar_private_payments.Prelude.{
  ℕ, suc, ◌+◌, ◌<◌, ◌≡◌, inl, inr, refl, sym, ◌∙◌, Bool, true, false, List, [], ◌∷◌, arith, length,
  some, Option-cases, ==_refl,
}
use stellar_private_payments.Poseidon.{Host, bn256_modulus}
use stellar_private_payments.AspNonMembership.{split_bits, FindResult}
use stellar_private_payments.AspNonMembership.Insertion.{drop}
use stellar_private_payments.AspNonMembership.Tree.{
  Smt, blank, leaf, fork, here, left, right, Remaining, below, Placed, OnePath, OnePath-below, Even,
  Even-below, bits_of-injective, at_root,
}
use stellar_private_payments.AspNonMembership.Find.{find_in}
use stellar_private_payments.AspNonMembership.Shape.{Canon, Two, Fields, is_fork}
use stellar_private_payments.AspNonMembership.Grow.{
  divide, insert_in, Drops, Drops-below, Part, parts, later, Part-or_same, Way, on_blank, on_leaf,
  to_left, to_right, In-insert_in, In-divide,
}

-- Two field elements with the same bits are equal.
abbrev pub Apart : Remaining → Type 0
Apart remains =
    (k k' : ℕ) (bs : List Bool)
    → k < bn256_modulus
    → k' < bn256_modulus
    → remains k bs
    → remains k' bs
    → k ≡ k'

pub Apart-at_root : Apart at_root
unfolding bn256_modulus
Apart-at_root k k' bs hk hk' h h' =
    bits_of-injective 256 k k' (omega arith) (omega arith) (h ∙ sym h')

pub Apart-below : (b : Bool) (remains : Remaining) → Apart remains → Apart (below b remains)
Apart-below b remains apart k k' bs hk hk' h h' = apart k k' (b ∷ bs) hk hk' h h'

-- What the places of the tree below a level have in common.
pub record Level (level n : ℕ) (remains : Remaining) : Type 0 where
  pub one : OnePath remains
  pub even : Even n remains
  pub drops : Drops level remains
  pub apart : Apart remains

pub Level-below :
    (level n : ℕ) (b : Bool) (remains : Remaining)
    → Level level (suc n) remains
    → Level (level + 1) n (below b remains)
Level-below level n b remains l = record {
  one = OnePath-below b remains l.one;
  even = Even-below n b remains l.even;
  drops = Drops-below level b remains l.drops;
  apart = Apart-below b remains l.apart;
}

module _ (host : Host) (key : ℕ) (hkey : key < bn256_modulus) where
  -- A search that does not find the key ends where the key's leaf can go.
  pub find_in-Way :
      (level : ℕ) (bits : List Bool) (remains : Remaining)
      → Level level (length bits) remains
      → remains key bits
      → (t : Smt) → Placed remains t
      → Fields t
      → (x : FindResult) → find_in host key bits t ≡ some x
      → x.found ≡ false
      → Way level bits t
  unfolding find_in
  find_in-Way level bits remains lv h blank p f x e absent = on_blank
  find_in-Way level bits remains lv h (leaf k v) (bs, h') f x e absent =
      elim (Part-or_same bs bits (lv.even k bs h' ∙ sym (lv.even key bits h))) [
        | inl part ↦ on_leaf (rw (lv.drops k bs h') part)
        | inr same ↦
            let e' : k ≡ key = lv.apart k key bits f.0 hkey (rw same at h') h in
            let yes_found : x.found ≡ true = ground (arith, ==_refl key) in absurd (ground arith)
      ]
  find_in-Way level [] remains lv h (fork l r) p f x e absent = absurd cc
  find_in-Way level (true ∷ bits) remains lv h (fork l r) p f x e absent =
      elim (Option-cases (find_in host key bits r)) [
        | inl none_found ↦ absurd (ground arith)
        | inr (y, e') ↦ to_right (
            find_in-Way (level + 1) bits (below true remains)
              (Level-below level (length bits) true remains lv) h r p.2 f.1 y e' (ground arith))
      ]
  find_in-Way level (false ∷ bits) remains lv h (fork l r) p f x e absent =
      elim (Option-cases (find_in host key bits l)) [
        | inl none_found ↦ absurd (ground arith)
        | inr (y, e') ↦ to_left (
            find_in-Way (level + 1) bits (below false remains)
              (Level-below level (length bits) false remains lv) h l p.1 f.0 y e' (ground arith))
      ]

module _ (key value : ℕ) where
  Placed-divide :
      (xs bs : List Bool) (remains : Remaining) (k v : ℕ)
      → Part xs bs
      → remains k xs
      → remains key bs
      → Placed remains (divide xs bs (leaf k v) (leaf key value))
  unfolding divide
  Placed-divide (true ∷ xs) (true ∷ bs) remains k v (later p) h h' =
      let q = Placed-divide xs bs (below true remains) k v p h h' in
      ((key, value, right (In-divide xs bs (leaf k v) key value)), tt, q)
  Placed-divide (false ∷ xs) (false ∷ bs) remains k v (later p) h h' =
      let q = Placed-divide xs bs (below false remains) k v p h h' in
      ((key, value, left (In-divide xs bs (leaf k v) key value)), q, tt)
  Placed-divide (true ∷ xs) (false ∷ bs) remains k v p h h' =
      ((key, value, left here), (bs, h'), (xs, h))
  Placed-divide (false ∷ xs) (true ∷ bs) remains k v p h h' =
      ((key, value, right here), (xs, h), (bs, h'))
  Placed-divide (true ∷ xs) (true ∷ bs) remains k v (parts ne) h h' = absurd (ne refl)
  Placed-divide (false ∷ xs) (false ∷ bs) remains k v (parts ne) h h' = absurd (ne refl)
  Placed-divide [] bs remains k v p h h' = elim p [ ]
  Placed-divide (true ∷ xs) [] remains k v p h h' = elim p [ ]
  Placed-divide (false ∷ xs) [] remains k v p h h' = elim p [ ]

  pub Placed-insert_in :
      (level : ℕ) (bits : List Bool) (remains : Remaining)
      → Drops level remains
      → remains key bits
      → (t : Smt) → Placed remains t
      → Way level bits t
      → Placed remains (insert_in level bits key value t)
  unfolding insert_in
  Placed-insert_in level bits remains d h blank p w = (bits, h)
  Placed-insert_in level bits remains d h (leaf k v) (bs, h') (on_leaf part) =
      let e = d k bs h' in
      Placed-divide (drop level (split_bits k)) bits remains k v part (rw e h') h
  Placed-insert_in level [] remains d h (fork l r) p w = elim w [ ]
  Placed-insert_in level (true ∷ bits) remains d h (fork l r) p (to_right w) = (
    (key, value, right (In-insert_in key value (level + 1) bits r w)),
    p.1,
    Placed-insert_in (level + 1) bits (below true remains) (Drops-below level true remains d) h r
        p.2 w,
  )
  Placed-insert_in level (false ∷ bits) remains d h (fork l r) p (to_left w) = (
    (key, value, left (In-insert_in key value (level + 1) bits l w)),
    Placed-insert_in (level + 1) bits (below false remains) (Drops-below level false remains d) h l
        p.1 w,
    p.2,
  )

Two-is_fork : (u f : Smt) → is_fork f ≡ true → Two u f
Two-is_fork blank f h = h
Two-is_fork (leaf k v) blank h = absurd cc
Two-is_fork (leaf k v) (leaf k' v') h = absurd cc
Two-is_fork (leaf k v) (fork l r) h = refl
Two-is_fork (fork l r) f h = tt

fork_Two : (f u : Smt) → is_fork f ≡ true → Two f u
fork_Two blank u h = absurd cc
fork_Two (leaf k v) u h = absurd cc
fork_Two (fork l r) u h = tt

Two-blank : (k v : ℕ) (u : Smt) → Two u blank → Two u (leaf k v)
Two-blank k v blank h = absurd cc
Two-blank k v (leaf k' v') h = refl
Two-blank k v (fork l r) h = tt

blank_Two : (k v : ℕ) (u : Smt) → Two blank u → Two (leaf k v) u
blank_Two k v blank h = absurd cc
blank_Two k v (leaf k' v') h = absurd cc
blank_Two k v (fork l r) h = refl

module _ (key value : ℕ) where
  Canon-divide :
      (xs bs : List Bool) (k v : ℕ)
      → Part xs bs
      → Canon (divide xs bs (leaf k v) (leaf key value))
        × (is_fork (divide xs bs (leaf k v) (leaf key value)) ≡ true)
  unfolding divide
  Canon-divide (true ∷ xs) (true ∷ bs) k v (later p) =
      let q = Canon-divide xs bs k v p in ((q.1, tt, q.0), refl)
  Canon-divide (false ∷ xs) (false ∷ bs) k v (later p) =
      let q = Canon-divide xs bs k v p in ((fork_Two _ blank q.1, q.0, tt), refl)
  Canon-divide (true ∷ xs) (false ∷ bs) k v p = ((refl, tt, tt), refl)
  Canon-divide (false ∷ xs) (true ∷ bs) k v p = ((refl, tt, tt), refl)
  Canon-divide (true ∷ xs) (true ∷ bs) k v (parts ne) = absurd (ne refl)
  Canon-divide (false ∷ xs) (false ∷ bs) k v (parts ne) = absurd (ne refl)
  Canon-divide [] bs k v p = elim p [ ]
  Canon-divide (true ∷ xs) [] k v p = elim p [ ]
  Canon-divide (false ∷ xs) [] k v p = elim p [ ]

  -- The new tree fits beside whatever the old one did.
  pub Canon-insert_in :
      (level : ℕ) (bits : List Bool) (t : Smt)
      → Canon t
      → Way level bits t
      → Canon (insert_in level bits key value t)
        × ((u : Smt) → Two u t → Two u (insert_in level bits key value t))
        × ((u : Smt) → Two t u → Two (insert_in level bits key value t) u)
  unfolding insert_in
  Canon-insert_in level bits blank c w = (tt, Two-blank key value, blank_Two key value)
  Canon-insert_in level bits (leaf k v) c (on_leaf part) =
      let (q, f) = Canon-divide (drop level (split_bits k)) bits k v part in
      (q, λ u h. Two-is_fork u _ f, λ u h. fork_Two _ u f)
  Canon-insert_in level [] (fork l r) c w = elim w [ ]
  Canon-insert_in level (true ∷ bits) (fork l r) (two, cl, cr) (to_right w) =
      let q = Canon-insert_in (level + 1) bits r cr w in
      ((q.1 l two, cl, q.0), λ u h. Two-is_fork u _ refl, λ u h. tt)
  Canon-insert_in level (false ∷ bits) (fork l r) (two, cl, cr) (to_left w) =
      let q = Canon-insert_in (level + 1) bits l cl w in
      ((q.2 r two, q.0, cr), λ u h. Two-is_fork u _ refl, λ u h. tt)

  module _ (hkey : key < bn256_modulus) (hvalue : value < bn256_modulus) where
    Fields-divide :
        (xs bs : List Bool) (old : Smt) → Fields old → Fields (divide xs bs old (leaf key value))
    unfolding divide
    Fields-divide (true ∷ xs) (true ∷ bs) old f = (tt, Fields-divide xs bs old f)
    Fields-divide (false ∷ xs) (false ∷ bs) old f = (Fields-divide xs bs old f, tt)
    Fields-divide (true ∷ xs) (false ∷ bs) old f = ((hkey, hvalue), f)
    Fields-divide (false ∷ xs) (true ∷ bs) old f = (f, (hkey, hvalue))
    Fields-divide [] bs old f = (hkey, hvalue)
    Fields-divide (true ∷ xs) [] old f = (hkey, hvalue)
    Fields-divide (false ∷ xs) [] old f = (hkey, hvalue)

    pub Fields-insert_in :
        (level : ℕ) (bits : List Bool) (t : Smt)
        → Fields t
        → Fields (insert_in level bits key value t)
    unfolding insert_in
    Fields-insert_in level bits blank f = (hkey, hvalue)
    Fields-insert_in level bits (leaf k v) f =
        Fields-divide (drop level (split_bits k)) bits (leaf k v) f
    Fields-insert_in level [] (fork l r) f = f
    Fields-insert_in level (true ∷ bits) (fork l r) f =
        (f.0, Fields-insert_in (level + 1) bits r f.1)
    Fields-insert_in level (false ∷ bits) (fork l r) f =
        (Fields-insert_in (level + 1) bits l f.0, f.1)
