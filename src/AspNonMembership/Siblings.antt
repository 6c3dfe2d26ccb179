-- ===== src/AspNonMembership/Siblings.antt =====
-- The siblings of the new leaf's path, and what `insert_leaf` starts its rebuilding from.
use stellar_private_payments.Prelude.{
  ℕ, suc, ◌+◌, ◌≡◌, inl, inr, refl, Bool, true, false, not, ◌&&◌, List, [], ◌∷◌, ◌++◌, arith,
  length, ok, some, Option-cases, Bool-cases, ◌==◌, if◌then◌else◌,
}
use mathlib.Core.List.{append-nil}
use stellar_private_payments.Poseidon.{Host}
use stellar_private_payments.AspNonMembership.Insertion.{insert_path, shared, drop}
use stellar_private_payments.AspNonMembership.{
  split_bits, FindResult, empty_branch, at_leaf, with_sibling,
}
use stellar_private_payments.AspNonMembership.Tree.{
  Smt, blank, leaf, fork, digest, leaf_digest, hash_leaf-eq-ok,
}
use stellar_private_payments.AspNonMembership.Find.{find_in}
use stellar_private_payments.AspNonMembership.Verify.{end_digest, Ends, at_blank, at_other}

-- The siblings of the new leaf's path.
unfoldable pub path_siblings : Host → ℕ → List Bool → Smt → List ℕ
path_siblings host level bits blank = []
path_siblings host level bits (leaf k v) =
    shared (drop level (split_bits k)) bits ++ leaf_digest host k v ∷ []
path_siblings host level (true ∷ bits) (fork l r) =
    digest host l ∷ path_siblings host (level + 1) bits r
path_siblings host level (false ∷ bits) (fork l r) =
    digest host r ∷ path_siblings host (level + 1) bits l
path_siblings host level [] (fork l r) = []

-- What follows the siblings that the search has found.
abbrev path_end : Host → ℕ → List Bool → FindResult → List ℕ
path_end host level bits x =
    if x.is_old0
    then []
    else shared (drop (level + length x.siblings) (split_bits x.not_found_key))
        (drop (length x.siblings) bits)
      ++ leaf_digest host x.not_found_key x.not_found_value ∷ []

path_end-with_sibling :
    (host : Host) (level : ℕ) (b : Bool) (bits : List Bool) (sibling : ℕ) (x : FindResult)
    → path_end host level (b ∷ bits) (with_sibling sibling x) ≡ path_end host (level + 1) bits x
path_end-with_sibling host level b bits sibling x =
    let e : level + suc (length x.siblings) ≡ level + 1 + length x.siblings = omega arith in
    rw e refl

module _ (host : Host) (key : ℕ) where
  pub path_siblings-find_in :
      (level : ℕ) (bits : List Bool) (t : Smt) (x : FindResult)
      → find_in host key bits t ≡ some x
      → x.found ≡ false
      → path_siblings host level bits t ≡ x.siblings ++ path_end host level bits x
  unfolding find_in path_siblings
  path_siblings-find_in level bits blank x e f =
      let same : empty_branch key ≡ x = ground arith in rw (← same) refl
  path_siblings-find_in level bits (leaf k v) x e f = elim (Bool-cases (k == key)) [
    | inl same ↦ absurd (ground arith)
    | inr other ↦
        let same : at_leaf key k v ≡ x = ground arith in
        let z : level + 0 ≡ level = omega arith in rw (← same, other, z) refl
  ]
  path_siblings-find_in level [] (fork l r) x e f = absurd cc
  path_siblings-find_in level (true ∷ bits) (fork l r) x e f =
      elim (Option-cases (find_in host key bits r)) [
        | inl none_found ↦ absurd (ground arith)
        | inr (y, e') ↦
            let same : with_sibling (digest host l) y ≡ x = ground arith in
            let rest = path_siblings-find_in (level + 1) bits r y e' (ground arith) in
            rw (← same, rest, path_end-with_sibling host level true bits (digest host l) y) refl
      ]
  path_siblings-find_in level (false ∷ bits) (fork l r) x e f =
      elim (Option-cases (find_in host key bits l)) [
        | inl none_found ↦ absurd (ground arith)
        | inr (y, e') ↦
            let same : with_sibling (digest host r) y ≡ x = ground arith in
            let rest = path_siblings-find_in (level + 1) bits l y e' (ground arith) in
            rw (← same, rest, path_end-with_sibling host level false bits (digest host r) y) refl
      ]

  start :
      (bits : List Bool) (x : FindResult)
      → Ends key x
      → insert_path host bits x
        ≡ ok (record {
          siblings = x.siblings ++ path_end host 0 bits x;
          rt_old = end_digest host x;
          mixed = x.is_old0 && not (length x.siblings == 0);
          added_one = not x.is_old0;
        })
  unfolding insert_path
  start bits x (at_blank old0 same) = rw (old0, append-nil x.siblings) refl
  start bits x (at_other old0 other hk hv) =
      let z : 0 + length x.siblings ≡ length x.siblings = omega arith in
      rw (z, old0, hash_leaf-eq-ok host x.not_found_key x.not_found_value hk hv) refl

  -- The path that insertion starts from, for a search in the whole tree.
  pub insert_path-path_siblings :
      (bits : List Bool) (t : Smt) (x : FindResult)
      → find_in host key bits t ≡ some x
      → x.found ≡ false
      → Ends key x
      → insert_path host bits x
        ≡ ok (record {
          siblings = path_siblings host 0 bits t;
          rt_old = end_digest host x;
          mixed = x.is_old0 && not (length x.siblings == 0);
          added_one = not x.is_old0;
        })
  unfolding insert_path
  insert_path-path_siblings bits t x e f ends =
      rw (path_siblings-find_in 0 bits t x e f) (start bits x ends)
