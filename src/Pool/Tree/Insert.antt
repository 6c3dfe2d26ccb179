-- ===== src/Pool/Tree/Insert.antt =====
-- `insert_two_leaves` appends two leaves, and the root that it stores is the root of all leaves.
use native.Mathlib.Nat.{pow-suc, pow-le-pow_right}
use stellar_private_payments.Prelude.{
  ℕ, suc, ◌+◌, ◌-◌, ◌/◌, ◌%◌, ◌^◌, ◌≤◌, ◌<◌, ◌≡◌, refl, sym, ap, ◌∙◌, none, some, List, [], ◌∷◌,
  ◌++◌, arith, length, length-append, All-append, update, ok, err, lt→ltb, le→leb, lt→leb,
}
use stellar_private_payments.Poseidon.{
  empty_subtree, Host, IsCanonical, bn256_modulus, compression, compression-lt,
  poseidon2_compress-eq-ok,
}
use stellar_private_payments.Merkle.Levels.{
  pending, parity, pairs, next, pending-parity, length-pairs, pairs-append_two, pending-append_two,
  All-pairs,
}
use stellar_private_payments.Merkle.Root.{top, prefix_root, top-prefix_root}
use stellar_private_payments.Merkle.Frontier.{stored, stored-Frontier-append}
use stellar_private_payments.Merkle.Climb.Correct.{climb-eq-ok}
use stellar_private_payments.Pool.Tree.{
  MerkleTree, MerkleError, not_initialized, merkle_tree_full, root_history_size, insert_two_leaves,
}
use stellar_private_payments.Pool.Tree.Ring.{Ring-cons}
use stellar_private_payments.Pool.Tree.Represents.{Represents, root_of}

next-pairs :
    (hash : ℕ → ℕ → ℕ) (e : ℕ) (xs : List ℕ) → pending xs ≡ none → next hash e xs ≡ pairs hash xs
unfolding next pairs pending
next-pairs hash e [] h = refl
next-pairs hash e (x ∷ []) h = cc
next-pairs hash e (x ∷ y ∷ r) h = ap (◌∷◌ (hash x y)) (next-pairs hash e r h)

capacity_le : (k : ℕ) → suc k ≤ 32 → 2 ^ suc k ≤ 2 ^ 32
capacity_le k h = pow-le-pow_right (omega arith) h

module _ (host : Host) (canonical : IsCanonical host) (t : MerkleTree) (k : ℕ)
    (leaves roots : List ℕ) (r : Represents host t k leaves roots) (leaf_1 leaf_2 : ℕ) where
  abbrev pub grown : List ℕ
  grown = leaves ++ leaf_1 ∷ leaf_2 ∷ []

  length-grown : length grown ≡ length leaves + 2
  length-grown = length-append leaves (leaf_1 ∷ leaf_2 ∷ [])

  -- The store after an insertion.
  after : MerkleTree
  after = record t {
    filled_subtree =
        stored (compression host) empty_subtree k 1 (pairs (compression host) leaves)
          (compression host leaf_1 leaf_2) t.filled_subtree;
    root = update t.root ((r.index + 1) % root_history_size) (some (root_of host (suc k) grown));
    current_root_index = some ((r.index + 1) % root_history_size);
    next_index = some (length leaves + 2);
  }

  even_length : length leaves % 2 ≡ 0
  even_length = pending-parity leaves ∙ ap parity r.even

  -- What the climb gives is the root of all leaves.
  climbed :
      length leaves + 2 ≤ 2 ^ suc k
      → top
          (compression host)
          empty_subtree
          k
          1
          (pairs (compression host) leaves)
          (compression host leaf_1 leaf_2)
        ≡ root_of host (suc k) grown
  unfolding prefix_root
  climbed fits =
      rw
        (
          next-pairs (compression host) (empty_subtree 0) grown
              (pending-append_two leaves leaf_1 leaf_2 r.even),
          pairs-append_two (compression host) leaves leaf_1 leaf_2 r.even,
        )
        (top-prefix_root (compression host) empty_subtree k 1 (pairs (compression host) leaves)
          (compression host leaf_1 leaf_2)
          (omega (arith, length-pairs (compression host) leaves, pow-suc 2 k)))

  insert_two_leaves-eq-ok :
      leaf_1 < bn256_modulus
      → leaf_2 < bn256_modulus
      → length leaves + 2 ≤ 2 ^ suc k
      → insert_two_leaves host t leaf_1 leaf_2 ≡ ok ((length leaves, length leaves + 1), after)
  unfolding insert_two_leaves after
  insert_two_leaves-eq-ok h1 h2 fits =
      let cap = capacity_le k r.levels_le in
      let climbs =
        climb-eq-ok host canonical not_initialized t.zeroes empty_subtree k 1
          (compression host leaf_1 leaf_2) t.filled_subtree (pairs (compression host) leaves)
          r.zeroes_stored
          (All-pairs (λ x. x < bn256_modulus) (compression host) (compression-lt host) leaves)
          (compression-lt host leaf_1 leaf_2) r.frontier in
      let half : length leaves / 2 ≡ length (pairs (compression host) leaves) =
        sym (length-pairs (compression host) leaves) in
      let rounds : suc k - 1 ≡ k = omega arith in
      simp (
        r.levels_stored,
        r.next_stored,
        r.index_stored,
        lt→ltb (suc k) 64 (omega (arith, r.levels_le)),
        even_length,
        lt→ltb (length leaves + 2) (2 ^ 64) (omega arith),
        le→leb (length leaves + 2) (2 ^ suc k) fits,
        poseidon2_compress-eq-ok {E = MerkleError} host canonical leaf_1 leaf_2 h1 h2,
        rounds,
        half,
        climbs,
        climbed fits,
        lt→ltb (r.index + 1) (2 ^ 32) (omega (arith, r.index_lt)),
        lt→ltb (length leaves) (2 ^ 32) (omega arith),
        lt→ltb (length leaves + 1) (2 ^ 64) (omega arith),
        lt→ltb (length leaves + 1) (2 ^ 32) (omega arith),
      )

  after-Represents :
      leaf_1 < bn256_modulus
      → leaf_2 < bn256_modulus
      → length leaves + 2 ≤ 2 ^ suc k
      → Represents host after k grown (root_of host (suc k) grown ∷ roots)
  unfolding after
  after-Represents h1 h2 fits = record {
    index = (r.index + 1) % root_history_size;
    levels_le = r.levels_le;
    levels_stored = r.levels_stored;
    next_stored = ap some (sym length-grown);
    index_stored = refl;
    index_lt = omega arith;
    even = pending-append_two leaves leaf_1 leaf_2 r.even;
    room = omega (arith, length-grown);
    canonical =
        All-append (λ x. x < bn256_modulus) leaves (leaf_1 ∷ leaf_2 ∷ []) r.canonical
          (h1, (h2, tt));
    zeroes_stored = r.zeroes_stored;
    frontier = rw (pairs-append_two (compression host) leaves leaf_1 leaf_2 r.even) (
        stored-Frontier-append (compression host) empty_subtree k 1 (compression host leaf_1 leaf_2)
          t.filled_subtree (pairs (compression host) leaves) r.frontier);
    ring = Ring-cons t.root r.index (root_of host (suc k) grown) roots r.index_lt r.ring;
    latest = refl;
  }

  -- While there is room for two more leaves, two field elements are appended: the call returns
  -- their indexes, the stored root is the root of all leaves, and the old roots stay known.
  pub insert_two_leaves-Represents :
      leaf_1 < bn256_modulus
      → leaf_2 < bn256_modulus
      → length leaves + 2 ≤ 2 ^ suc k
      → (t' : MerkleTree) × (insert_two_leaves host t leaf_1 leaf_2
          ≡ ok ((length leaves, length leaves + 1), t'))
        × Represents host t' k grown (root_of host (suc k) grown ∷ roots)
  insert_two_leaves-Represents h1 h2 fits =
      (after, insert_two_leaves-eq-ok h1 h2 fits, after-Represents h1 h2 fits)

  -- Without room the insertion fails, whatever the leaves are.
  pub insert_two_leaves_full :
      2 ^ suc k < length leaves + 2 → insert_two_leaves host t leaf_1 leaf_2 ≡ err merkle_tree_full
  unfolding insert_two_leaves
  insert_two_leaves_full full = simp (
    r.levels_stored,
    r.next_stored,
    r.index_stored,
    lt→ltb (suc k) 64 (omega (arith, r.levels_le)),
    even_length,
    lt→ltb (length leaves + 2) (2 ^ 64) (omega (arith, r.room, capacity_le k r.levels_le)),
    lt→leb (length leaves + 2) (2 ^ suc k) full,
  )
