-- ===== src/Pool/Tree/Init.antt =====
-- `init` gives the empty tree, for the level counts that it accepts.
use native.Mathlib.Decide.{ℕ_discrete}
use stellar_private_payments.Prelude.{
  ℕ, zero, suc, ◌+◌, ◌-◌, ◌%◌, ◌≤◌, ◌<◌, ◌≡◌, ◌⊎◌, refl, ◌∙◌, some, [], ◌∷◌, arith, update, ok, err,
  ==_refl, ==_ne, le→ltb,
}
use stellar_private_payments.Poseidon.{
  compression, Host, empty_subtree, empty_subtree-stored, empty_subtree-lt,
}
use stellar_private_payments.Merkle.Levels.{pending, pairs}
use stellar_private_payments.Merkle.Root.{prefix_root-nil}
use stellar_private_payments.Merkle.Frontier.{Frontier-nil}
use stellar_private_payments.Pool.Tree.{
  MerkleTree, wrong_levels, already_initialized, no_entries, set_zeroes, init,
}
use stellar_private_payments.Pool.Tree.Ring.{Ring}
use stellar_private_payments.Pool.Tree.Represents.{Represents, root_of}

-- What the loop of `init` leaves.
record ZeroesSet (n i : ℕ) (t t' : MerkleTree) : Type 0 where
  set_here : (j : ℕ) → i ≤ j → j < i + n → t'.zeroes j ≡ some (empty_subtree j)
  kept : (j : ℕ) → j < i → t'.zeroes j ≡ t.zeroes j
  levels : t'.levels ≡ t.levels
  root : t'.root ≡ t.root

abbrev zeroed : ℕ → MerkleTree → MerkleTree
zeroed i t = record t {
  filled_subtree = update t.filled_subtree i (some (empty_subtree i));
  zeroes = update t.zeroes i (some (empty_subtree i));
}

set_zeroes-ZeroesSet :
    (n i : ℕ) (t : MerkleTree)
    → i + n ≤ 33
    → (t' : MerkleTree) × (set_zeroes n i t ≡ ok t') × ZeroesSet n i t t'
unfolding set_zeroes
set_zeroes-ZeroesSet zero i t h = (
  t,
  refl,
  record {
    set_here = λ j a b. absurd (omega arith);
    kept = λ j a. refl;
    levels = refl;
    root = refl;
  },
)
set_zeroes-ZeroesSet (suc n) i t h =
    let (t', e, s) = set_zeroes-ZeroesSet n (i + 1) (zeroed i t) (omega arith) in
    (
      t',
      rw (empty_subtree-stored i (omega arith)) e,
      record {
        set_here = λ j a b. elim (ℕ_discrete j i) [
          | yes same ↦ s.kept j (omega arith) ∙ rw (same, ==_refl i) refl
          | no other ↦ s.set_here j (omega arith) (omega arith)
        ];
        kept = λ j a. s.kept j (omega arith) ∙ rw (==_ne j i (omega arith)) refl;
        levels = s.levels;
        root = s.root;
      },
    )

abbrev fresh : ℕ → MerkleTree
fresh k = record no_entries { levels = some (suc k) }

module _ (host : Host) (k : ℕ) (h : suc k ≤ 32) (t : MerkleTree)
    (s : ZeroesSet (suc k + 1) 0 (fresh k) t) where
  rooted : MerkleTree
  rooted = record t {
    root = update t.root 0 (some (empty_subtree (suc k)));
    current_root_index = some 0;
    next_index = some 0;
  }

  first-Ring :
      Ring (update t.root 0 (some (empty_subtree (suc k)))) 0 (root_of host (suc k) [] ∷ [])
  first-Ring zero lt =
      let same : 0 + suc k ≡ suc k = omega arith in
      rw (prefix_root-nil (compression host) empty_subtree (suc k) 0, same) refl
  first-Ring (suc j) lt =
      let e : (0 + 90 - suc j) % 90 ≡ 90 - suc j = omega arith in
      rw (e, ==_ne (90 - suc j) 0 (omega arith), s.root) refl

  rooted-Represents : Represents host rooted k [] (root_of host (suc k) [] ∷ [])
  unfolding rooted pending pairs
  rooted-Represents = record {
    index = 0;
    levels_le = h;
    levels_stored = s.levels;
    next_stored = refl;
    index_stored = refl;
    index_lt = omega arith;
    even = refl;
    room = omega arith;
    canonical = tt;
    zeroes_stored =
        λ i from to. (s.set_here i (omega arith) (omega arith), empty_subtree-lt i (omega arith));
    frontier = Frontier-nil (compression host) k 1 t.filled_subtree;
    ring = first-Ring;
    latest = refl;
  }

-- With 1 to 32 levels, a fresh store becomes the empty tree, whose root is the topmost zero hash.
pub init-Represents :
    (host : Host) (k : ℕ)
    → suc k ≤ 32
    → (t : MerkleTree) × (init no_entries (suc k) ≡ ok t)
      × Represents host t k [] (root_of host (suc k) [] ∷ [])
unfolding init rooted
init-Represents host k h =
    let (t, e, s) = set_zeroes-ZeroesSet (suc k + 1) 0 (fresh k) (omega arith) in
    (
      rooted host k h t s,
      simp (
        ==_ne (suc k) 0 (omega arith),
        le→ltb 32 (suc k) h,
        e,
        empty_subtree-stored (suc k) (omega arith),
      ),
      rooted-Represents host k h t s,
    )

-- Any other number of levels is refused, and so is a store that has a tree.
pub init_refuses :
    (t : MerkleTree) (levels : ℕ)
    → ((levels ≡ 0) ⊎ (32 < levels) → init t levels ≡ err wrong_levels)
      × ((current : ℕ)
          → 0 < levels
          → levels ≤ 32
          → t.current_root_index ≡ some current
          → init t levels ≡ err already_initialized)
unfolding init
init_refuses t levels = (
  (λ h. ground arith),
  (λ current pos small e. simp (==_ne levels 0 (omega arith), le→ltb 32 levels small, e)),
)
