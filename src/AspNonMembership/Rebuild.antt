-- ===== src/AspNonMembership/Rebuild.antt =====
-- The rebuilding in `insert_leaf` stores the new tree and removes the old path.
use stellar_private_payments.Prelude.{
  ℕ, ◌+◌, ◌≡◌, ◌⊎◌, inl, inr, refl, ap, ◌∙◌, Bool, true, false, not, List, [], ◌∷◌, length, arith,
  ok, some, ◌==◌, From, From-next, Option-cases, Bool-cases, length-append,
}
use stellar_private_payments.Poseidon.{Host, IsCanonical}
use stellar_private_payments.AspNonMembership.Insertion.{Build, build, shared, drop}
use stellar_private_payments.AspNonMembership.{
  split_bits, FindResult, at_leaf, empty_branch, with_sibling,
}
use stellar_private_payments.AspNonMembership.Tree.{
  Smt, blank, leaf, fork, digest, leaf_digest, Remaining, below,
}
use stellar_private_payments.AspNonMembership.Find.{find_in}
use stellar_private_payments.AspNonMembership.Verify.{end_digest}
use stellar_private_payments.AspNonMembership.Shape.{Sub, self, Entry, NoCollision}
use stellar_private_payments.AspNonMembership.Grow.{
  insert_in, Part, Way, on_leaf, to_left, to_right, Sub-insert_in,
}
use stellar_private_payments.AspNonMembership.Siblings.{path_siblings}
use stellar_private_payments.AspNonMembership.Added.{build-divide}
use stellar_private_payments.AspNonMembership.Around.{Around, Around-child}
use stellar_private_payments.AspNonMembership.Rebuilt.{Rebuilt, Start, fork_step}

module _ (host : Host) (canonical : IsCanonical host) (C : Smt → Type 0) (n : NoCollision host C)
    (key_bits : List Bool) (old_siblings : List ℕ) (siblings_len : ℕ) (added_one : Bool)
    (key value : ℕ) where
  Start-blank :
      (Outside : Smt → Type 0) (remains : Remaining) (x : FindResult) (s : Build)
      → x.is_old0 ≡ true
      → Start host key value added_one x s
      → Around host s.nodes C Outside key value remains blank (leaf key value)
      → Rebuilt host Outside blank (leaf key value) s
  unfolding digest
  Start-blank Outside remains x s old0 st a = record {
    rt_eq = st.rt_eq;
    old_eq = st.old_eq ∙ rw old0 refl;
    mixed_eq = st.mixed_eq ∙ old0;
    kept = keeps;
  }
    where
      keeps : (u : Smt) → (Outside u ⊎ Sub u (leaf key value)) → Entry host s.nodes u
      keeps u (inl o) = a.outside_entry u o
      keeps u (inr self) = st.new_entry

  Start-leaf :
      (level : ℕ) (bits : List Bool) (k v : ℕ) (Outside : Smt → Type 0) (remains : Remaining)
      (x : FindResult) (s : Build)
      → Part (drop level (split_bits k)) bits
      → From key_bits level bits
      → x.is_old0 ≡ false
      → end_digest host x ≡ leaf_digest host k v
      → siblings_len ≡ level + length (path_siblings host level bits (leaf k v))
      → Start host key value added_one x s
      → Around host s.nodes C Outside key value remains
          (leaf k v)
          (insert_in level bits key value (leaf k v))
      → (b : Build) × (build host key_bits old_siblings siblings_len added_one level
            (path_siblings host level bits (leaf k v))
            s
          ≡ ok b)
        × Rebuilt host Outside (leaf k v) (insert_in level bits key value (leaf k v)) b
  unfolding path_siblings insert_in digest
  Start-leaf level bits k v Outside remains x s part from old0 end len st a =
      let xs = drop level (split_bits k) in
      let h = length-append (shared xs bits) (leaf_digest host k v ∷ []) in
      let added : added_one ≡ true = st.added_eq ∙ ap not old0 in
      let (b, run, d) =
        build-divide host canonical C n key_bits old_siblings siblings_len k v key value level xs
          bits s part from (omega arith) st.rt_eq (st.mixed_eq ∙ old0) a.new_known st.new_entry
          (a.old_entry (leaf k v) self) in
      (
        b,
        rw added run,
        record {
          rt_eq = d.rt_eq;
          old_eq = d.old_eq ∙ st.old_eq ∙ end;
          mixed_eq = d.mixed_eq;
          kept = λ u h. elim h [
            | inl o ↦ d.kept u (a.outside_known u o) (a.outside_entry u o)
            | inr i ↦ d.made u i
          ];
        },
      )

  Start-child :
      (sibling : ℕ) (y x : FindResult) (s : Build)
      → x ≡ with_sibling sibling y
      → Start host key value added_one x s
      → Start host key value added_one y s
  Start-child sibling y x s same st =
      let st' : Start host key value added_one (with_sibling sibling y) s = rw same at st in
      record {
        rt_eq = st'.rt_eq;
        old_eq = st'.old_eq;
        mixed_eq = st'.mixed_eq;
        added_eq = st'.added_eq;
        new_entry = st'.new_entry;
      }

  -- From a level down to the end of the path.
  pub build-insert_in :
      (level : ℕ) (bits : List Bool) (t : Smt) (x : FindResult) (remains : Remaining)
      (Outside : Smt → Type 0) (s : Build)
      → Way level bits t
      → From key_bits level bits
      → find_in host key bits t ≡ some x
      → x.found ≡ false
      → From old_siblings level x.siblings
      → siblings_len ≡ level + length (path_siblings host level bits t)
      → Start host key value added_one x s
      → Around host s.nodes C Outside key value remains t (insert_in level bits key value t)
      → (b : Build) × (build host key_bits old_siblings siblings_len added_one level
            (path_siblings host level bits t)
            s
          ≡ ok b)
        × Rebuilt host Outside t (insert_in level bits key value t) b
  unfolding build path_siblings insert_in find_in digest
  build-insert_in level bits blank x remains Outside s w from e f old len st a =
      let same : empty_branch key ≡ x = ground arith in
      (s, refl, Start-blank Outside remains x s (rw (← same) refl) st a)
  build-insert_in level bits (leaf k v) x remains Outside s (on_leaf part) from e f old len st a =
      elim (Bool-cases (k == key)) [
        | inl equal ↦ absurd (ground arith)
        | inr other ↦
            let same : at_leaf key k v ≡ x = ground arith in
            Start-leaf level bits k v Outside remains x s part from (rw (← same, other) refl)
              (rw (← same, other) refl) len st a
      ]
  build-insert_in level [] (fork l r) x remains Outside s w from e f old len st a = elim w [ ]
  build-insert_in level (true ∷ bits) (fork l r) x remains Outside s (to_right w) from e f old len
        st a =
      elim (Option-cases (find_in host key bits r)) [
        | inl none_found ↦ absurd (ground arith)
        | inr (y, e') ↦
            let same : x ≡ with_sibling (digest host l) y = ground arith in
            let st' = Start-child (digest host l) y x s same st in
            let old' : From old_siblings level (digest host l ∷ y.siblings) = rw same at old in
            let parts = Sub-insert_in key value (level + 1) bits r w in
            let (b, run, rb) =
              build-insert_in (level + 1) bits r y (below true remains) (λ u. Outside u ⊎ Sub u l) s
                w (From-next key_bits level true bits from) e' (ground arith)
                (From-next old_siblings level (digest host l) y.siblings old') (omega arith) st'
                (Around-child host s.nodes C Outside key value remains true l r _ a parts) in
            fork_step host canonical C n key_bits old_siblings siblings_len added_one key value
              level true bits l r _ y remains Outside s b e' from old' len st' a parts run rb
      ]
  build-insert_in level (false ∷ bits) (fork l r) x remains Outside s (to_left w) from e f old len
        st a =
      elim (Option-cases (find_in host key bits l)) [
        | inl none_found ↦ absurd (ground arith)
        | inr (y, e') ↦
            let same : x ≡ with_sibling (digest host r) y = ground arith in
            let st' = Start-child (digest host r) y x s same st in
            let old' : From old_siblings level (digest host r ∷ y.siblings) = rw same at old in
            let parts = Sub-insert_in key value (level + 1) bits l w in
            let (b, run, rb) =
              build-insert_in (level + 1) bits l y (below false remains) (λ u. Outside u ⊎ Sub u r)
                s w (From-next key_bits level false bits from) e' (ground arith)
                (From-next old_siblings level (digest host r) y.siblings old') (omega arith) st'
                (Around-child host s.nodes C Outside key value remains false r l _ a parts) in
            fork_step host canonical C n key_bits old_siblings siblings_len added_one key value
              level false bits r l _ y remains Outside s b e' from old' len st' a parts run rb
      ]
