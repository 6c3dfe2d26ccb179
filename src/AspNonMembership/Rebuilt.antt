-- ===== src/AspNonMembership/Rebuilt.antt =====
-- One level of the old path in the rebuilding of `insert_leaf`.
use stellar_private_payments.Prelude.{
  ℕ, zero, suc, ◌+◌, ◌-◌, ◌<◌, ◌≡◌, ◌⊎◌, inl, inr, refl, sym, ap, ◌∙◌, Bool, true, false, not, ◌&&◌,
  List, [], ◌∷◌, length, arith, ok, Option, some, none, update, get_elem?, get_or, ltb, lt→ltb,
  ◌==◌, ==_ne, From, From-head, Bool-cases, length-append,
}
use stellar_private_payments.Poseidon.{Host, IsCanonical}
use stellar_private_payments.AspNonMembership.Insertion.{Build, build, build_round, shared, drop}
use stellar_private_payments.AspNonMembership.{split_bits, FindResult, empty_branch}
use stellar_private_payments.AspNonMembership.Tree.{
  Smt, blank, leaf, fork, digest, leaf_digest, In, Remaining,
}
use stellar_private_payments.AspNonMembership.Find.{find_in}
use stellar_private_payments.AspNonMembership.Verify.{end_digest}
use stellar_private_payments.AspNonMembership.Shape.{
  entry_of, Sub, self, Entry, NoCollision, Entry-set, Entry-remove,
}
use stellar_private_payments.AspNonMembership.Grow.{fork_by}
use stellar_private_payments.AspNonMembership.Siblings.{path_siblings}
use stellar_private_payments.AspNonMembership.Rounds.{build_round-old}
use stellar_private_payments.AspNonMembership.Added.{Entry-fork_by}
use stellar_private_payments.AspNonMembership.Around.{
  Around, stays_differs, Sub-child, Sub-other, is_leaf, leaf_sibling,
}

not_leaf : (bit : Bool) (d c : Smt) → not (is_leaf (fork_by bit d c)) ≡ true
not_leaf true d c = refl
not_leaf false d c = refl

-- What the rebuilding leaves: the new tree, and the nodes outside it.
pub record Rebuilt (host : Host) (Outside : Smt → Type 0) (t t' : Smt) (b : Build) : Type 0 where
  pub rt_eq : b.rt ≡ digest host t'
  pub old_eq : b.rt_old ≡ digest host t
  pub mixed_eq : b.mixed ≡ not (is_leaf t)
  pub kept : (u : Smt) → Outside u ⊎ Sub u t' → Entry host b.nodes u

-- The rebuilding's start, at the end of the path.
pub record Start (host : Host) (key value : ℕ) (added_one : Bool) (x : FindResult) (s : Build)
    : Type 0 where
  pub rt_eq : s.rt ≡ leaf_digest host key value
  pub old_eq : s.rt_old ≡ end_digest host x
  pub mixed_eq : s.mixed ≡ x.is_old0
  pub added_eq : added_one ≡ not x.is_old0
  pub new_entry : Entry host s.nodes (leaf key value)

and_false : (a : Bool) → (a && false) ≡ false
and_false true = refl
and_false false = refl

get_or-some : (xs : List ℕ) (i d y : ℕ) → get_elem? xs i ≡ some y → get_or xs i d ≡ y
get_or-some [] i d y h = absurd cc
get_or-some (x ∷ xs) zero d y h = ground arith
get_or-some (x ∷ xs) (suc i) d y h = get_or-some xs i d y h

-- Below a level there is another, or a blank.
room :
    (host : Host) (key level : ℕ) (bits : List Bool) (t : Smt) (x : FindResult)
    → find_in host key bits t ≡ some x
    → ((x.is_old0 ≡ true) × (is_leaf t ≡ false)) ⊎ (0 < length (path_siblings host level bits t))
unfolding find_in path_siblings
room host key level bits blank x e =
    let same : empty_branch key ≡ x = ground arith in inl (rw (← same) refl, refl)
room host key level bits (leaf k v) x e =
    let h = length-append (shared (drop level (split_bits k)) bits) (leaf_digest host k v ∷ []) in
    inr (omega (arith, h))
room host key level [] (fork l r) x e = absurd cc
room host key level (true ∷ bits) (fork l r) x e = inr (omega arith)
room host key level (false ∷ bits) (fork l r) x e = inr (omega arith)

module _ (host : Host) (canonical : IsCanonical host) (C : Smt → Type 0) (n : NoCollision host C)
    (key_bits : List Bool) (old_siblings : List ℕ) (siblings_len : ℕ) (added_one : Bool)
    (key value : ℕ) where
  -- One level of the old path.
  fork_round :
      (i : ℕ) (bit : Bool) (d c c' : Smt) (Outside : Smt → Type 0) (remains : Remaining)
      (nodes : ℕ → Option (List ℕ)) (b : Build)
      → get_elem? key_bits i ≡ some bit
      → get_or old_siblings i 0 ≡ digest host d
      → (added_one && i == siblings_len - 1) ≡ false
      → (is_leaf c ≡ true → ltb i (siblings_len - 1) ≡ true)
      → Around host nodes C Outside key value remains (fork_by bit d c) (fork_by bit d c')
      → ((u : Smt) → Sub u c' → In key value u ⊎ (Sub u c ⊎ (u ≡ blank)))
      → Rebuilt host (λ u. Outside u ⊎ Sub u d) c c' b
      → (b' : Build) × (build_round host key_bits old_siblings siblings_len added_one i
            (digest host d)
            b
          ≡ ok b')
        × Rebuilt host Outside (fork_by bit d c) (fork_by bit d c') b'
  fork_round i bit d c c' Outside remains nodes b at sib last low a parts r = (
    _,
    build_round-old host canonical key_bits old_siblings siblings_len added_one i bit d c c' b at
        sib r.rt_eq r.old_eq last mixes,
    record { rt_eq = refl; old_eq = refl; mixed_eq = sym (not_leaf bit d c); kept = keeps },
  )
    where
      mixes :
          (b.mixed ≡ true) ⊎ ((ltb i (siblings_len - 1) ≡ true) × ((digest host d == 0) ≡ false))
      mixes = elim (Bool-cases (is_leaf c)) [
        | inl l ↦
            let ne =
              n.nonzero d (a.old_known d (Sub-other bit d c self))
                (leaf_sibling bit d c a.canon l) in
            inr (low l, ==_ne (digest host d) 0 ne)
        | inr l ↦ inl (r.mixed_eq ∙ ap not l)
      ]

      old_C : C (fork_by bit d c)
      old_C = a.old_known (fork_by bit d c) self

      removed : ℕ → Option (List ℕ)
      removed = update b.nodes (digest host (fork_by bit d c)) none

      left_over : (u : Smt) → C u → ((Outside u ⊎ Sub u d) ⊎ Sub u c') → Entry host removed u
      left_over u cu h =
          Entry-remove host C n b.nodes u (fork_by bit d c) cu old_C
            (stays_differs host nodes C Outside key value remains bit d c c' a parts u h)
            (r.kept u h)

      keeps :
          (u : Smt)
          → (Outside u ⊎ Sub u (fork_by bit d c'))
          → Entry host
              (update removed
                (digest host (fork_by bit d c'))
                (some (entry_of host (fork_by bit d c'))))
              u
      keeps u (inl o) =
          Entry-set host C n removed u (fork_by bit d c') (a.outside_known u o) (a.new_known _ self)
            (left_over u (a.outside_known u o) (inl (inl o)))
      keeps u (inr s) =
          Entry-fork_by host C n removed bit d c' a.new_known
            (λ w sw. left_over w (a.old_known w (Sub-other bit d c sw)) (inl (inr sw)))
            (λ w sw. left_over w (a.new_known w (Sub-child bit d c' sw)) (inr sw)) u s

  not_last :
      (level : ℕ) (bits : List Bool) (c : Smt) (y : FindResult) (s : Build)
      → find_in host key bits c ≡ some y
      → Start host key value added_one y s
      → siblings_len ≡ level + suc (length (path_siblings host (level + 1) bits c))
      → ((added_one && level == siblings_len - 1) ≡ false)
        × (is_leaf c ≡ true → ltb level (siblings_len - 1) ≡ true)
  not_last level bits c y s e st len = elim (room host key (level + 1) bits c y e) [
    | inl (old0, no_leaf) ↦
        let added : added_one ≡ false = st.added_eq ∙ ap not old0 in (rw added refl, λ h. absurd cc)
    | inr more ↦
        let ne = ==_ne level (siblings_len - 1) (λ h. omega arith) in
        (rw ne (and_false added_one), λ h. lt→ltb level (siblings_len - 1) (omega arith))
  ]

  pub fork_step :
      (level : ℕ) (bit : Bool) (bits : List Bool) (d c c' : Smt) (y : FindResult)
      (remains : Remaining) (Outside : Smt → Type 0) (s b : Build)
      → find_in host key bits c ≡ some y
      → From key_bits level (bit ∷ bits)
      → From old_siblings level (digest host d ∷ y.siblings)
      → siblings_len ≡ level + suc (length (path_siblings host (level + 1) bits c))
      → Start host key value added_one y s
      → Around host s.nodes C Outside key value remains (fork_by bit d c) (fork_by bit d c')
      → ((u : Smt) → Sub u c' → In key value u ⊎ (Sub u c ⊎ (u ≡ blank)))
      → build host key_bits old_siblings siblings_len added_one
          (level + 1)
          (path_siblings host (level + 1) bits c)
          s
        ≡ ok b
      → Rebuilt host (λ u. Outside u ⊎ Sub u d) c c' b
      → (b' : Build) × (build host key_bits old_siblings siblings_len added_one level
            (digest host d ∷ path_siblings host (level + 1) bits c)
            s
          ≡ ok b')
        × Rebuilt host Outside (fork_by bit d c) (fork_by bit d c') b'
  unfolding build
  fork_step level bit bits d c c' y remains Outside s b e from old len st a parts run r =
      let (last, low) = not_last level bits c y s e st len in
      let sib =
        get_or-some old_siblings level 0 (digest host d)
          (From-head old_siblings level (digest host d) y.siblings old) in
      let (b', run', r') =
        fork_round level bit d c c' Outside remains s.nodes b
          (From-head key_bits level bit bits from) sib last low a parts r in
      (b', rw run run', r')
