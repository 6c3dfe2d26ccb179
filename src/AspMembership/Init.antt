-- ===== src/AspMembership/Init.antt =====
-- The constructor gives the empty membership tree, for the level counts that it accepts.
use native.Mathlib.Decide.{ℕ_discrete}
use stellar_private_payments.Prelude.{
  ℕ, zero, suc, ◌+◌, ◌≤◌, ◌<◌, ◌≡◌, ◌⊎◌, refl, ◌∙◌, some, true, [], arith, update, ok, err, ==_refl,
  ==_ne, le→ltb,
}
use stellar_private_payments.Poseidon.{
  compression, Host, empty_subtree, empty_subtree-stored, empty_subtree-lt,
}
use stellar_private_payments.Soroban.{Address}
use stellar_private_payments.Merkle.Root.{prefix_root-nil}
use stellar_private_payments.Merkle.Frontier.{Frontier-nil}
use stellar_private_payments.AspMembership.{
  AspMembership, wrong_levels, no_members, set_zeroes, constructor,
}
use stellar_private_payments.AspMembership.Insert.{Represents}

-- What the loop of the constructor leaves.
record ZeroesSet (n i : ℕ) (t t' : AspMembership) : Type 0 where
  set_here : (j : ℕ) → i ≤ j → j < i + n → t'.zeroes j ≡ some (empty_subtree j)
  kept : (j : ℕ) → j < i → t'.zeroes j ≡ t.zeroes j
  levels_kept : t'.levels ≡ t.levels
  next_kept : t'.next_index ≡ t.next_index

abbrev zeroed : ℕ → AspMembership → AspMembership
zeroed i t = record t {
  filled_subtrees = update t.filled_subtrees i (some (empty_subtree i));
  zeroes = update t.zeroes i (some (empty_subtree i));
}

set_zeroes-ZeroesSet :
    (n i : ℕ) (t : AspMembership)
    → i + n ≤ 33
    → (t' : AspMembership) × (set_zeroes n i t ≡ ok t') × ZeroesSet n i t t'
unfolding set_zeroes
set_zeroes-ZeroesSet zero i t h = (
  t,
  refl,
  record {
    set_here = λ j a b. absurd (omega arith);
    kept = λ j a. refl;
    levels_kept = refl;
    next_kept = refl;
  },
)
set_zeroes-ZeroesSet (suc n) i t h =
    let (t', e, s) = set_zeroes-ZeroesSet n (i + 1) (zeroed i t) (omega arith) in
    (
      t',
      rw (empty_subtree-stored i (omega arith)) e,
      record {
        set_here = λ j a b. elim (ℕ_discrete j i) [
          | yes same ↦ s.kept j (omega arith) ∙ rw (same, ==_refl i) refl
          | no other ↦ s.set_here j (omega arith) (omega arith)
        ];
        kept = λ j a. s.kept j (omega arith) ∙ rw (==_ne j i (omega arith)) refl;
        levels_kept = s.levels_kept;
        next_kept = s.next_kept;
      },
    )

abbrev started : Address → ℕ → AspMembership
started admin levels = record no_members {
  admin = some admin;
  levels = some levels;
  next_index = some 0;
  admin_insert_only = some true;
}

module _ (host : Host) (admin : Address) (levels : ℕ) (h : levels ≤ 32) (t : AspMembership)
    (s : ZeroesSet (levels + 1) 0 (started admin levels) t) where
  rooted : AspMembership
  rooted = record t { root = some (empty_subtree levels) }

  rooted-Represents : Represents host rooted levels []
  unfolding rooted
  rooted-Represents = record {
    levels_le = h;
    levels_stored = s.levels_kept;
    next_stored = s.next_kept;
    canonical = tt;
    room = omega arith;
    zeroes_stored =
        λ i from to. (s.set_here i (omega arith) (omega arith), empty_subtree-lt i (omega arith));
    frontier = Frontier-nil (compression host) levels 0 t.filled_subtrees;
    root_stored =
        let same : 0 + levels ≡ levels = omega arith in
        rw (prefix_root-nil (compression host) empty_subtree levels 0, same) refl;
  }

-- With 1 to 32 levels, the constructor gives the empty tree, whose root is the topmost zero hash.
pub constructor-Represents :
    (host : Host) (admin : Address) (levels : ℕ)
    → 0 < levels
    → levels ≤ 32
    → (t : AspMembership) × (constructor no_members admin levels ≡ ok t)
      × Represents host t levels []
unfolding constructor rooted
constructor-Represents host admin levels pos h =
    let (t, e, s) = set_zeroes-ZeroesSet (levels + 1) 0 (started admin levels) (omega arith) in
    (
      rooted host admin levels h t s,
      simp (
        ==_ne levels 0 (omega arith),
        le→ltb 32 levels h,
        e,
        empty_subtree-stored levels (omega arith),
      ),
      rooted-Represents host admin levels h t s,
    )

-- Any other number of levels is refused.
pub constructor_refuses :
    (s : AspMembership) (admin : Address) (levels : ℕ)
    → (levels ≡ 0) ⊎ (32 < levels)
    → constructor s admin levels ≡ err wrong_levels
unfolding constructor
constructor_refuses s admin levels h = ground arith
