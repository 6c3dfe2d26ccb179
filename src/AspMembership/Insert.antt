-- ===== src/AspMembership/Insert.antt =====
-- `insert_leaf` appends a leaf, and the root that it stores is the root of all leaves.
use native.Mathlib.Nat.{pow-le-pow_right}
use stellar_private_payments.Prelude.{
  ℕ, ◌+◌, ◌^◌, ◌≤◌, ◌<◌, ◌≡◌, refl, sym, ap, Bool, some, List, [], ◌∷◌, ◌++◌, arith, length,
  length-append, All-append, ok, err, lt→ltb, le→leb, lt→leb,
}
use stellar_private_payments.Poseidon.{Host, IsCanonical, bn256_modulus, compression, empty_subtree}
use stellar_private_payments.Soroban.{Address}
use stellar_private_payments.Merkle.Root.{top-prefix_root, prefix_root}
use stellar_private_payments.Merkle.Frontier.{
  Frontier, Canonical, ZeroesStored, stored, stored-Frontier-append,
}
use stellar_private_payments.Merkle.Climb.Correct.{climb-eq-ok}
use stellar_private_payments.AspMembership.{
  AspMembership, merkle_tree_full, not_initialized, leaf_added, authorise_insert, insert_leaf,
}

-- The store holds the tree of these leaves and its root.
pub record Represents (host : Host) (s : AspMembership) (levels : ℕ) (leaves : List ℕ)
    : Type 0 where
  pub levels_le : levels ≤ 32
  pub levels_stored : s.levels ≡ some levels
  pub next_stored : s.next_index ≡ some (length leaves)
  pub canonical : Canonical leaves
  pub room : length leaves ≤ 2 ^ levels
  pub zeroes_stored : ZeroesStored s.zeroes empty_subtree levels 0
  pub frontier : Frontier (compression host) levels 0 s.filled_subtrees leaves
  pub root_stored : s.root ≡ some (prefix_root (compression host) empty_subtree levels 0 leaves)

module _ (host : Host) (canonical : IsCanonical host) (authorized : Address → Bool)
    (s : AspMembership) (levels : ℕ) (leaves : List ℕ) (r : Represents host s levels leaves)
    (leaf : ℕ) (allowed : authorise_insert authorized s ≡ ok tt) where
  abbrev root_with : ℕ
  root_with = prefix_root (compression host) empty_subtree levels 0 (leaves ++ leaf ∷ [])

  after : AspMembership
  after = record s {
    filled_subtrees =
        stored (compression host) empty_subtree levels 0 leaves leaf s.filled_subtrees;
    root = some root_with;
    events = s.events ++ leaf_added leaf (length leaves) root_with ∷ [];
    next_index = some (length leaves + 1);
  }

  insert_leaf-eq-ok :
      leaf < bn256_modulus
      → length leaves < 2 ^ levels
      → insert_leaf host authorized s leaf ≡ ok after
  unfolding insert_leaf after
  insert_leaf-eq-ok small fits =
      let cap : 2 ^ levels ≤ 2 ^ 32 = pow-le-pow_right (omega arith) r.levels_le in
      simp (
        allowed,
        r.levels_stored,
        r.next_stored,
        lt→ltb levels 64 (omega (arith, r.levels_le)),
        lt→leb (2 ^ levels) (length leaves) fits,
        climb-eq-ok host canonical not_initialized s.zeroes empty_subtree levels 0 leaf
            s.filled_subtrees leaves r.zeroes_stored r.canonical small r.frontier,
        top-prefix_root (compression host) empty_subtree levels 0 leaves leaf fits,
        lt→ltb (length leaves + 1) (2 ^ 64) (omega arith),
      )

  after-Represents :
      leaf < bn256_modulus
      → length leaves < 2 ^ levels
      → Represents host after levels (leaves ++ leaf ∷ [])
  unfolding after
  after-Represents small fits = record {
    levels_le = r.levels_le;
    levels_stored = r.levels_stored;
    next_stored = ap some (sym (length-append leaves (leaf ∷ [])));
    canonical = All-append (λ x. x < bn256_modulus) leaves (leaf ∷ []) r.canonical (small, tt);
    room = omega (arith, length-append leaves (leaf ∷ []));
    zeroes_stored = r.zeroes_stored;
    frontier =
        stored-Frontier-append (compression host) empty_subtree levels 0 leaf s.filled_subtrees
          leaves r.frontier;
    root_stored = refl;
  }

  -- An authorised insertion of a field element, while there is room, appends the leaf: the stored
  -- root becomes the root of all leaves, and one event tells the leaf, its index and that root.
  pub insert_leaf-Represents :
      leaf < bn256_modulus
      → length leaves < 2 ^ levels
      → (t : AspMembership) × (insert_leaf host authorized s leaf ≡ ok t)
        × Represents host t levels (leaves ++ leaf ∷ [])
        × (t.events ≡ s.events ++ leaf_added leaf (length leaves) root_with ∷ [])
  unfolding after
  insert_leaf-Represents small fits =
      (after, insert_leaf-eq-ok small fits, after-Represents small fits, refl)

  -- A full tree refuses every leaf.
  pub insert_leaf_full :
      length leaves ≡ 2 ^ levels → insert_leaf host authorized s leaf ≡ err merkle_tree_full
  unfolding insert_leaf
  insert_leaf_full full = simp (
    allowed,
    r.levels_stored,
    r.next_stored,
    lt→ltb levels 64 (omega (arith, r.levels_le)),
    le→leb (2 ^ levels) (length leaves) (omega arith),
  )
