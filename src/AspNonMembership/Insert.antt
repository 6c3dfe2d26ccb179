-- ===== src/AspNonMembership/Insert.antt =====
-- Insertion of a key, as insertion into the tree.
use stellar_private_payments.Prelude.{
  ℕ, suc, ◌<◌, ◌≡◌, ◌⊎◌, ◌↔◌, inl, inr, refl, ap, Bool, true, false, not, ◌&&◌, List, [], ◌∷◌, ◌++◌,
  length, arith, ok, some, get_elem?, update, ◌==◌, Option-cases, Bool-cases,
}
use stellar_private_payments.Poseidon.{Host, IsCanonical, bn256_modulus}
use stellar_private_payments.AspNonMembership.{
  AspNonMembership, Nodes, leaf_inserted, find_key, split_bits, FindResult, at_leaf, with_sibling,
}
use stellar_private_payments.AspNonMembership.Insertion.{Build, build, insert_leaf, insert_path}
use stellar_private_payments.AspNonMembership.Tree.{
  Smt, blank, leaf, fork, digest, leaf_digest, In, at_root, OnePath-at_root, hash_leaf-eq-ok,
}
use stellar_private_payments.AspNonMembership.Find.{find_in, found-In}
use stellar_private_payments.AspNonMembership.Represents.{Represents, find_key-find_in, find_key-In}
use stellar_private_payments.AspNonMembership.Verify.{end_digest, find_in-Ends}
use stellar_private_payments.AspNonMembership.Shape.{
  Sub, Entry, NoCollision, Entry-set, Entry-set_self, Entry-Stored, Stored-Entry, Stored-Fields,
  Canon,
}
use stellar_private_payments.AspNonMembership.Grow.{
  insert_in, Way, In-insert_in, Sub-insert_in, Drops-at_root,
}
use stellar_private_payments.AspNonMembership.Kept.{
  Placed-insert_in, Canon-insert_in, Fields-insert_in,
}
use stellar_private_payments.AspNonMembership.Siblings.{path_siblings, insert_path-path_siblings}
use stellar_private_payments.AspNonMembership.Around.{Around}
use stellar_private_payments.AspNonMembership.Added.{only}
use stellar_private_payments.AspNonMembership.Rebuild.{build-insert_in}
use stellar_private_payments.AspNonMembership.Rebuilt.{Start}
use stellar_private_payments.AspNonMembership.NewKey.{insert_key, Parts, In-Sub, way, In-insert_key}

and_suc : (b : Bool) (n : ℕ) → (b && not (suc n == 0)) ≡ b
and_suc true n = ground arith
and_suc false n = refl

with_sibling-mixed :
    (sibling : ℕ) (y x : FindResult)
    → with_sibling sibling y ≡ x
    → (x.is_old0 && not (length x.siblings == 0)) ≡ x.is_old0
with_sibling-mixed sibling y x e = rw (← e) (and_suc y.is_old0 (length y.siblings))

-- At the empty tree nothing is rebuilt; elsewhere a path that ends in an empty branch has siblings.
mixed_start :
    (host : Host) (key : ℕ) (bits : List Bool) (t : Smt) (x : FindResult)
    → find_in host key bits t ≡ some x
    → (t ≡ blank) ⊎ ((x.is_old0 && not (length x.siblings == 0)) ≡ x.is_old0)
unfolding find_in
mixed_start host key bits blank x e = inl refl
mixed_start host key bits (leaf k v) x e = elim (Bool-cases (k == key)) [
  | inl same ↦ let eq : at_leaf key k v ≡ x = ground arith in inr (rw (← eq, same) refl)
  | inr other ↦ let eq : at_leaf key k v ≡ x = ground arith in inr (rw (← eq, other) refl)
]
mixed_start host key [] (fork l r) x e = absurd cc
mixed_start host key (true ∷ bits) (fork l r) x e = elim (Option-cases (find_in host key bits r)) [
  | inl none_found ↦ absurd (ground arith)
  | inr (y, e') ↦ inr (with_sibling-mixed (digest host l) y x (ground arith))
]
mixed_start host key (false ∷ bits) (fork l r) x e = elim (Option-cases (find_in host key bits l)) [
  | inl none_found ↦ absurd (ground arith)
  | inr (y, e') ↦ inr (with_sibling-mixed (digest host r) y x (ground arith))
]

module _ (host : Host) (canonical : IsCanonical host) (s : AspNonMembership) (t : Smt)
    (r : Represents host s t) (canon : Canon t) (key value : ℕ) (hkey : key < bn256_modulus)
    (hvalue : value < bn256_modulus) (absent : (v : ℕ) → ¬ In key v t)
    (n : NoCollision host (Parts t (insert_key key value t))) where
  search :
      (x : FindResult) × (find_in host key (split_bits key) t ≡ some x)
      × (find_key s key ≡ ok x)
      × (x.found ≡ false)
  search =
      let (x, e, run) = find_key-find_in host s t r key in
      elim (Bool-cases x.found) [
        | inl yes_found ↦
            absurd (absent x.found_value (found-In host key (split_bits key) t x e yes_found))
        | inr not_found ↦ (x, e, run, not_found)
      ]

  new_nodes : Nodes
  new_nodes = update s.nodes (leaf_digest host key value) (some (1 ∷ key ∷ value ∷ []))

  new_known : Way 0 (split_bits key) t → Parts t (insert_key key value t) (leaf key value)
  new_known w = inr (In-Sub (In-insert_in key value 0 (split_bits key) t w))

  old_kept : Way 0 (split_bits key) t → (u : Smt) → Sub u t → Entry host new_nodes u
  unfolding new_nodes digest
  old_kept w u su =
      Entry-set host (Parts t (insert_key key value t)) n s.nodes u (leaf key value) (inl su)
        (new_known w) (Stored-Entry host s.nodes u t su r.stored)

  fresh_kept : Entry host new_nodes (leaf key value)
  unfolding new_nodes digest
  fresh_kept = Entry-set_self host s.nodes (leaf key value)

  around :
      Way 0 (split_bits key) t
      → Around host new_nodes
          (Parts t (insert_key key value t))
          (λ u. ⊥)
          key
          value
          at_root
          t
          (insert_key key value t)
  around w = record {
    one = OnePath-at_root;
    placed = r.placed;
    canon = canon;
    absent = absent value;
    old_known = λ u i. inl i;
    new_known = λ u i. inr i;
    outside_known = λ u o. absurd o;
    differs = λ u a o. absurd o;
    new_parts = Sub-insert_in key value 0 (split_bits key) t w;
    old_entry = old_kept w;
    outside_entry = λ u o. absurd o;
  }

  first : FindResult → Build
  first x = record {
    rt = leaf_digest host key value;
    rt_old = end_digest host x;
    mixed = x.is_old0 && not (length x.siblings == 0);
    nodes = new_nodes;
  }

  -- The rebuilding stores the new tree.
  rebuilt :
      (x : FindResult)
      → find_in host key (split_bits key) t ≡ some x
      → x.found ≡ false
      → (b : Build) × (build host
            (split_bits key)
            x.siblings
            (length (path_siblings host 0 (split_bits key) t))
            (not x.is_old0)
            0
            (path_siblings host 0 (split_bits key) t)
            (first x)
          ≡ ok b)
        × (b.rt ≡ digest host (insert_key key value t))
        × ((u : Smt) → Sub u (insert_key key value t) → Entry host b.nodes u)
  unfolding first build path_siblings insert_in digest
  rebuilt x e f = elim (mixed_start host key (split_bits key) t x e) [
    | inl empty ↦ rw empty (first x, refl, refl, only host new_nodes key value fresh_kept)
    | inr m ↦
        let w = way host key hkey t r.placed (Stored-Fields host s.nodes t r.stored) x e f in
        let start : Start host key value (not x.is_old0) x (first x) = record {
          rt_eq = refl;
          old_eq = refl;
          mixed_eq = m;
          added_eq = refl;
          new_entry = fresh_kept;
        } in
        let (b, run, rb) =
          build-insert_in host canonical (Parts t (insert_key key value t)) n (split_bits key)
            x.siblings (length (path_siblings host 0 (split_bits key) t)) (not x.is_old0) key value
            0 (split_bits key) t x at_root (λ u. ⊥) (first x) w
            (λ j. ap (get_elem? (split_bits key)) (omega arith)) e f
            (λ j. ap (get_elem? x.siblings) (omega arith)) (omega arith) start (around w) in
        (b, run, rb.rt_eq, λ u su. rb.kept u (inr su))
  ]

  inserted : Build → AspNonMembership
  inserted b = record s {
    root = some b.rt;
    nodes = b.nodes;
    events = s.events ++ leaf_inserted key value b.rt ∷ [];
  }

  insert_leaf-run :
      (authorized : ℕ → Bool) (admin : ℕ) (x : FindResult) (b : Build)
      → s.admin ≡ some admin
      → authorized admin ≡ true
      → find_key s key ≡ ok x
      → x.found ≡ false
      → insert_path host (split_bits key) x
        ≡ ok (record {
          siblings = path_siblings host 0 (split_bits key) t;
          rt_old = end_digest host x;
          mixed = x.is_old0 && not (length x.siblings == 0);
          added_one = not x.is_old0;
        })
      → build host
          (split_bits key)
          x.siblings
          (length (path_siblings host 0 (split_bits key) t))
          (not x.is_old0)
          0
          (path_siblings host 0 (split_bits key) t)
          (first x)
        ≡ ok b
      → insert_leaf host authorized s key value ≡ ok (inserted b)
  unfolding insert_leaf find_key inserted first new_nodes insert_path
  insert_leaf-run authorized admin x b is_admin auth run f path done =
      rw (is_admin, auth, run, f, path, hash_leaf-eq-ok host key value hkey hvalue, done) refl

  inserted-Represents :
      (b : Build)
      → Way 0 (split_bits key) t
      → b.rt ≡ digest host (insert_key key value t)
      → ((u : Smt) → Sub u (insert_key key value t) → Entry host b.nodes u)
      → Represents host (inserted b) (insert_key key value t)
  unfolding inserted
  inserted-Represents b w root entries = record {
    root_stored = ap some root;
    stored =
        Entry-Stored host (Parts t (insert_key key value t)) n b.nodes (insert_key key value t)
          (Fields-insert_in key value hkey hvalue 0 (split_bits key) t
            (Stored-Fields host s.nodes t r.stored))
          (λ u su. inr su) entries;
    placed = Placed-insert_in key value 0 (split_bits key) at_root Drops-at_root refl t r.placed w;
  }

  -- For field elements that no hash collision concerns, inserting a key that is not in the tree
  -- ends without an error. The new store holds a tree of the same shape rules, which has the key
  -- with its value and otherwise just what the old tree had.
  pub insert_leaf-insert_key :
      (authorized : ℕ → Bool) (admin : ℕ)
      → s.admin ≡ some admin
      → authorized admin ≡ true
      → (s' : AspNonMembership) × (insert_leaf host authorized s key value ≡ ok s')
        × Represents host s' (insert_key key value t)
        × Canon (insert_key key value t)
        × ((k v : ℕ) → In k v (insert_key key value t) ↔ (((k ≡ key) × (v ≡ value)) ⊎ In k v t))
  insert_leaf-insert_key authorized admin is_admin auth =
      let (x, e, run, f) = search in
      let ends = find_in-Ends host canonical s.nodes key (split_bits key) t x r.stored e f in
      let path = insert_path-path_siblings host key (split_bits key) t x e f ends in
      let (b, done, root, entries) = rebuilt x e f in
      let w = way host key hkey t r.placed (Stored-Fields host s.nodes t r.stored) x e f in
      (
        inserted b,
        insert_leaf-run authorized admin x b is_admin auth run f path done,
        inserted-Represents b w root entries,
        (Canon-insert_in key value 0 (split_bits key) t canon w).0,
        In-insert_key host key hkey t r.placed (Stored-Fields host s.nodes t r.stored) value absent,
      )

  found_new :
      (s' : AspNonMembership)
      → Represents host s' (insert_key key value t)
      → (x : FindResult) × (find_key s' key ≡ ok x) × (x.found ≡ true) × (x.found_value ≡ value)
  found_new s' r' =
      let (x, searched, cases) = find_key-In host s' (insert_key key value t) r' key in
      let fields = Stored-Fields host s.nodes t r.stored in
      let facts = In-insert_key host key hkey t r.placed fields value absent in
      elim cases [
        | inl (yes_found, i) ↦ (
          x,
          searched,
          yes_found,
          elim ((facts key x.found_value).0 i) [
            | inl (same_key, same_value) ↦ same_value
            | inr old ↦ absurd (absent x.found_value old)
          ],
        )
        | inr (not_found, none_in) ↦ absurd (none_in value ((facts key value).1 (inl (refl, refl))))
      ]

  -- For field elements that no hash collision concerns, inserting a key that is not in the tree
  -- ends without an error, and a search for it then finds it with its value.
  pub insert_leaf-find_key :
      (authorized : ℕ → Bool) (admin : ℕ)
      → s.admin ≡ some admin
      → authorized admin ≡ true
      → (s' : AspNonMembership) × (x : FindResult) × (insert_leaf host authorized s key value
          ≡ ok s')
        × (find_key s' key ≡ ok x)
        × (x.found ≡ true)
        × (x.found_value ≡ value)
  insert_leaf-find_key authorized admin is_admin auth =
      let (s', run, r', c, d) = insert_leaf-insert_key authorized admin is_admin auth in
      let (x, searched, yes_found, same_value) = found_new s' r' in
      (s', x, run, searched, yes_found, same_value)
