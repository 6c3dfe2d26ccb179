-- ===== src/AspNonMembership/Shape.antt =====
-- Subtrees, the shape that the tree keeps, and what a store has of a subtree.
use stellar_private_payments.Prelude.{
  ℕ, suc, ◌+◌, ◌<◌, ◌≤◌, ◌≡◌, ◌≢◌, ◌⊎◌, inl, inr, refl, sym, ap, Bool, true, false, none, some,
  List, [], ◌∷◌, arith, update, ==_ne, ==_refl,
}
use native.Mathlib.Decide.{ℕ_discrete}
use stellar_private_payments.Poseidon.{Host, bn256_modulus}
use stellar_private_payments.AspNonMembership.{Nodes}
use stellar_private_payments.AspNonMembership.Tree.{
  Smt, blank, leaf, fork, digest, Stored, In, left, right, Remaining, below, Placed, OnePath,
  In-remains,
}

pub data Sub (u : Smt) : Smt → Type 0 where
  self : Sub u u
  in_left : {l r : Smt} → Sub u l → Sub u (fork l r)
  in_right : {l r : Smt} → Sub u r → Sub u (fork l r)

unfoldable pub size : Smt → ℕ
size blank = 0
size (leaf k v) = 1
size (fork l r) = suc (size l + size r)

pub Sub-size : {u t : Smt} → Sub u t → size u ≤ size t
unfolding size
Sub-size self = omega arith
Sub-size (in_left s) = omega (arith, Sub-size s)
Sub-size (in_right s) = omega (arith, Sub-size s)

pub Sub-In : {u t : Smt} {k v : ℕ} → Sub u t → In k v u → In k v t
Sub-In self i = i
Sub-In (in_left s) i = left (Sub-In s i)
Sub-In (in_right s) i = right (Sub-In s i)

abbrev pub is_fork : Smt → Bool
is_fork blank = false
is_fork (leaf k v) = false
is_fork (fork l r) = true

abbrev pub is_blank : Smt → Bool
is_blank blank = true
is_blank (leaf k v) = false
is_blank (fork l r) = false

-- An internal node has at least two keys below it: no child of it is empty beside a leaf.
abbrev pub Two : Smt → Smt → Type 0
Two (fork l r) u = Unit
Two blank u = is_fork u ≡ true
Two (leaf k v) u = is_blank u ≡ false

abbrev pub Canon : Smt → Type 0
Canon blank = Unit
Canon (leaf k v) = Unit
Canon (fork l r) = Two l r × Canon l × Canon r

-- The entry of a subtree.
abbrev pub entry_of : Host → Smt → List ℕ
entry_of host blank = []
entry_of host (leaf k v) = 1 ∷ k ∷ v ∷ []
entry_of host (fork l r) = digest host l ∷ digest host r ∷ []

abbrev pub Entry : Host → Nodes → Smt → Type 0
Entry host nodes u = (is_blank u ≡ true) ⊎ (nodes (digest host u) ≡ some (entry_of host u))

-- The leaves of a tree are field elements.
abbrev pub Fields : Smt → Type 0
Fields blank = Unit
Fields (leaf k v) = (k < bn256_modulus) × (v < bn256_modulus)
Fields (fork l r) = Fields l × Fields r

pub Stored-Fields : (host : Host) (nodes : Nodes) (t : Smt) → Stored host nodes t → Fields t
Stored-Fields host nodes blank s = tt
Stored-Fields host nodes (leaf k v) (hk, hv, pos, e) = (hk, hv)
Stored-Fields host nodes (fork l r) (pos, e, sl, sr) =
    (Stored-Fields host nodes l sl, Stored-Fields host nodes r sr)

pub Stored-Entry :
    (host : Host) (nodes : Nodes) (u t : Smt) → Sub u t → Stored host nodes t → Entry host nodes u
unfolding digest
Stored-Entry host nodes u blank self s = inl refl
Stored-Entry host nodes u (leaf k v) self s = inr s.3
Stored-Entry host nodes u (fork l r) self s = inr s.1
Stored-Entry host nodes u (fork l r) (in_left i) s = Stored-Entry host nodes u l i s.2
Stored-Entry host nodes u (fork l r) (in_right i) s = Stored-Entry host nodes u r i s.3

-- The hash tells these trees apart, and none but the empty one has hash zero: no collision.
pub record NoCollision (host : Host) (C : Smt → Type 0) : Type 0 where
  pub injective : (u w : Smt) → C u → C w → digest host u ≡ digest host w → u ≡ w
  pub nonzero : (u : Smt) → C u → is_blank u ≡ false → digest host u ≢ 0

Entry-here :
    (host : Host) (nodes : Nodes) (u : Smt)
    → Entry host nodes u
    → is_blank u ≡ false
    → nodes (digest host u) ≡ some (entry_of host u)
Entry-here host nodes u (inl e) h = absurd (ground arith)
Entry-here host nodes u (inr e) h = e

pub Entry-Stored :
    (host : Host) (C : Smt → Type 0) (n : NoCollision host C) (nodes : Nodes) (t : Smt)
    → Fields t
    → ((u : Smt) → Sub u t → C u)
    → ((u : Smt) → Sub u t → Entry host nodes u)
    → Stored host nodes t
unfolding digest
Entry-Stored host C n nodes blank f c e = tt
Entry-Stored host C n nodes (leaf k v) f c e = (
  f.0,
  f.1,
  n.nonzero (leaf k v) (c (leaf k v) self) refl,
  Entry-here host nodes (leaf k v) (e (leaf k v) self) refl,
)
Entry-Stored host C n nodes (fork l r) f c e = (
  n.nonzero (fork l r) (c (fork l r) self) refl,
  Entry-here host nodes (fork l r) (e (fork l r) self) refl,
  Entry-Stored host C n nodes l f.0 (λ u s. c u (in_left s)) (λ u s. e u (in_left s)),
  Entry-Stored host C n nodes r f.1 (λ u s. c u (in_right s)) (λ u s. e u (in_right s)),
)

module _ (host : Host) (C : Smt → Type 0) (n : NoCollision host C) (nodes : Nodes) (u a : Smt)
    (cu : C u) (ca : C a) where
  -- Removing the node of another tree keeps an entry.
  pub Entry-remove : u ≢ a → Entry host nodes u → Entry host (update nodes (digest host a) none) u
  Entry-remove other (inl e) = inl e
  Entry-remove other (inr e) =
      let apart : digest host u ≢ digest host a = λ h. other (n.injective u a cu ca h) in
      inr (rw (==_ne (digest host u) (digest host a) apart) e)

  -- Storing a node keeps every entry.
  pub Entry-set :
      Entry host nodes u → Entry host (update nodes (digest host a) (some (entry_of host a))) u
  Entry-set (inl e) = inl e
  Entry-set (inr e) = elim (ℕ_discrete (digest host u) (digest host a)) [
    | yes same ↦
        let e' = n.injective u a cu ca same in
        inr (rw (same, ==_refl (digest host a)) (ap (λ x. some (entry_of host x)) (sym e')))
    | no apart ↦ inr (rw (==_ne (digest host u) (digest host a) apart) e)
  ]

pub Entry-set_self :
    (host : Host) (nodes : Nodes) (a : Smt)
    → Entry host (update nodes (digest host a) (some (entry_of host a))) a
Entry-set_self host nodes a = inr (rw (==_refl (digest host a)) refl)

false-true : {bs bs' : List Bool} → ¬ (false ∷ bs ≡ true ∷ bs')
false-true e = absurd cc

-- Trees of two branches differ, if one of them has a key.
pub branches_differ :
    (remains : Remaining) (one : OnePath remains) (l r : Smt)
    → Placed (below false remains) l
    → Placed (below true remains) r
    → (u a : Smt) (k v : ℕ) → Sub u l
    → Sub a r
    → In k v u ⊎ In k v a
    → u ≢ a
branches_differ remains one l r pl pr u a k v su sa (inl i) same =
    let (bs, h) = In-remains (below false remains) pl (Sub-In su i) in
    let (bs', h') = In-remains (below true remains) pr (Sub-In sa (rw same at i)) in
    false-true (one k (false ∷ bs) (true ∷ bs') h h')
branches_differ remains one l r pl pr u a k v su sa (inr i) same =
    let (bs, h) = In-remains (below false remains) pl (Sub-In su (rw (sym same) at i)) in
    let (bs', h') = In-remains (below true remains) pr (Sub-In sa i) in
    false-true (one k (false ∷ bs) (true ∷ bs') h h')
