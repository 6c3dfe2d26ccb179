-- ===== src/AspNonMembership/Around.antt =====
-- A tree that takes a new leaf, and the trees outside it whose nodes must stay.
use stellar_private_payments.Prelude.{
  ℕ, suc, ◌+◌, ◌≡◌, ◌≢◌, ◌⊎◌, inl, inr, refl, sym, ap, ◌∙◌, Bool, true, false, not, arith,
}
use stellar_private_payments.Poseidon.{Host}
use stellar_private_payments.AspNonMembership.{Nodes}
use stellar_private_payments.AspNonMembership.Tree.{
  Smt, blank, leaf, fork, In, left, right, Remaining, below, Placed, OnePath, OnePath-below,
}
use stellar_private_payments.AspNonMembership.Shape.{
  Sub, self, in_left, in_right, Sub-size, size, Canon, is_fork, is_blank, Entry, branches_differ,
}
use stellar_private_payments.AspNonMembership.Grow.{fork_by}

abbrev pub is_leaf : Smt → Bool
is_leaf blank = false
is_leaf (leaf k v) = true
is_leaf (fork l r) = false

-- The old tree, the new one, and the trees outside.
pub record Around (host : Host) (nodes : Nodes) (C Outside : Smt → Type 0) (key value : ℕ)
    (remains : Remaining) (t t' : Smt) : Type 0 where
  pub one : OnePath remains
  pub placed : Placed remains t
  pub canon : Canon t
  pub absent : ¬ In key value t
  pub old_known : (u : Smt) → Sub u t → C u
  pub new_known : (u : Smt) → Sub u t' → C u
  pub outside_known : (u : Smt) → Outside u → C u
  pub differs : (u a : Smt) → Outside u → Sub a t → is_fork a ≡ true → u ≢ a
  pub new_parts : (u : Smt) → Sub u t' → In key value u ⊎ (Sub u t ⊎ (u ≡ blank))
  pub old_entry : (u : Smt) → Sub u t → Entry host nodes u
  pub outside_entry : (u : Smt) → Outside u → Entry host nodes u

pub Sub-child : {u : Smt} (bit : Bool) (d c : Smt) → Sub u c → Sub u (fork_by bit d c)
Sub-child true d c s = in_right s
Sub-child false d c s = in_left s

pub Sub-other : {u : Smt} (bit : Bool) (d c : Smt) → Sub u d → Sub u (fork_by bit d c)
Sub-other true d c s = in_left s
Sub-other false d c s = in_right s

In-child : {k v : ℕ} (bit : Bool) (d c : Smt) → In k v c → In k v (fork_by bit d c)
In-child true d c i = right i
In-child false d c i = left i

Placed-fork_by :
    (bit : Bool) (d c : Smt) (remains : Remaining)
    → Placed remains (fork_by bit d c)
    → Placed (below bit remains) c × Placed (below (not bit) remains) d
Placed-fork_by true d c remains p = (p.2, p.1)
Placed-fork_by false d c remains p = (p.1, p.2)

Canon-child : (bit : Bool) (d c : Smt) → Canon (fork_by bit d c) → Canon c
Canon-child true d c h = h.2
Canon-child false d c h = h.1

-- A leaf has a sibling.
pub leaf_sibling :
    (bit : Bool) (d c : Smt) → Canon (fork_by bit d c) → is_leaf c ≡ true → is_blank d ≡ false
leaf_sibling true blank (leaf k v) h e = absurd (cc (h.0))
leaf_sibling true (leaf k' v') (leaf k v) h e = refl
leaf_sibling true (fork l r) (leaf k v) h e = refl
leaf_sibling false d (leaf k v) h e = h.0
leaf_sibling bit d blank h e = absurd cc
leaf_sibling bit d (fork l r) h e = absurd cc

-- An internal node is larger than what is below it.
pub smaller : {u : Smt} (bit : Bool) (d c : Smt) → (Sub u d ⊎ Sub u c) → u ≢ fork_by bit d c
unfolding size
smaller {u = u} true d c (inl s) e =
    let h = Sub-size s in let g : size u ≡ suc (size d + size c) = ap size e in omega arith
smaller {u = u} true d c (inr s) e =
    let h = Sub-size s in let g : size u ≡ suc (size d + size c) = ap size e in omega arith
smaller {u = u} false d c (inl s) e =
    let h = Sub-size s in let g : size u ≡ suc (size c + size d) = ap size e in omega arith
smaller {u = u} false d c (inr s) e =
    let h = Sub-size s in let g : size u ≡ suc (size c + size d) = ap size e in omega arith

fork_key :
    (remains : Remaining) (t a : Smt)
    → Placed remains t
    → Sub a t
    → is_fork a ≡ true
    → (k : ℕ) × (v : ℕ) × In k v a
fork_key remains blank a p self f = absurd cc
fork_key remains (leaf k v) a p self f = absurd cc
fork_key remains (fork l r) a p self f = p.0
fork_key remains (fork l r) a p (in_left s) f = fork_key (below false remains) l a p.1 s f
fork_key remains (fork l r) a p (in_right s) f = fork_key (below true remains) r a p.2 s f

other_differs :
    (bit : Bool) (d c : Smt) (remains : Remaining)
    → OnePath remains
    → Placed remains (fork_by bit d c)
    → (u a : Smt) → Sub u d
    → Sub a c
    → is_fork a ≡ true
    → u ≢ a
other_differs true d c remains one p u a su sa f e =
    let (k, v, i) = fork_key (below true remains) c a p.2 sa f in
    branches_differ remains one d c p.1 p.2 u a k v su sa (inr i) e
other_differs false d c remains one p u a su sa f e =
    let (k, v, i) = fork_key (below false remains) c a p.1 sa f in
    branches_differ remains one c d p.1 p.2 a u k v sa su (inl i) (sym e)

-- The same for a child: the other child is then outside.
pub Around-child :
    (host : Host) (nodes : Nodes) (C Outside : Smt → Type 0) (key value : ℕ) (remains : Remaining)
    (bit : Bool) (d c c' : Smt)
    → Around host nodes C Outside key value remains (fork_by bit d c) (fork_by bit d c')
    → ((u : Smt) → Sub u c' → In key value u ⊎ (Sub u c ⊎ (u ≡ blank)))
    → Around host nodes C (λ u. Outside u ⊎ Sub u d) key value (below bit remains) c c'
Around-child host nodes C Outside key value remains bit d c c' a parts = record {
  one = OnePath-below bit remains a.one;
  placed = (Placed-fork_by bit d c remains a.placed).0;
  canon = Canon-child bit d c a.canon;
  absent = λ i. a.absent (In-child bit d c i);
  old_known = λ u s. a.old_known u (Sub-child bit d c s);
  new_known = λ u s. a.new_known u (Sub-child bit d c' s);
  outside_known = known;
  differs = differ;
  new_parts = parts;
  old_entry = λ u s. a.old_entry u (Sub-child bit d c s);
  outside_entry = entry;
}
  where
    known : (u : Smt) → (Outside u ⊎ Sub u d) → C u
    known u (inl o) = a.outside_known u o
    known u (inr s) = a.old_known u (Sub-other bit d c s)

    entry : (u : Smt) → (Outside u ⊎ Sub u d) → Entry host nodes u
    entry u (inl o) = a.outside_entry u o
    entry u (inr s) = a.old_entry u (Sub-other bit d c s)

    differ : (u w : Smt) → (Outside u ⊎ Sub u d) → Sub w c → is_fork w ≡ true → u ≢ w
    differ u w (inl o) s f = a.differs u w o (Sub-child bit d c s) f
    differ u w (inr o) s f = other_differs bit d c remains a.one a.placed u w o s f

fork_by-is_fork : (bit : Bool) (d c : Smt) → is_fork (fork_by bit d c) ≡ true
fork_by-is_fork true d c = refl
fork_by-is_fork false d c = refl

blank_not_fork : (bit : Bool) (d c : Smt) → blank ≢ fork_by bit d c
blank_not_fork true d c e = absurd cc
blank_not_fork false d c e = absurd cc

-- The old node is none of those that stay.
pub stays_differs :
    (host : Host) (nodes : Nodes) (C Outside : Smt → Type 0) (key value : ℕ) (remains : Remaining)
    (bit : Bool) (d c c' : Smt)
    → Around host nodes C Outside key value remains (fork_by bit d c) (fork_by bit d c')
    → ((u : Smt) → Sub u c' → In key value u ⊎ (Sub u c ⊎ (u ≡ blank)))
    → (u : Smt) → ((Outside u ⊎ Sub u d) ⊎ Sub u c')
    → u ≢ fork_by bit d c
stays_differs host nodes C Outside key value remains bit d c c' a parts u (inl (inl o)) e =
    a.differs u (fork_by bit d c) o self (fork_by-is_fork bit d c) e
stays_differs host nodes C Outside key value remains bit d c c' a parts u (inl (inr s)) e =
    smaller bit d c (inl s) e
stays_differs host nodes C Outside key value remains bit d c c' a parts u (inr s) e =
    elim (parts u s) [
      | inl i ↦ a.absent (rw e at i)
      | inr (inl o) ↦ smaller bit d c (inr o) e
      | inr (inr b) ↦ blank_not_fork bit d c (sym b ∙ e)
    ]
