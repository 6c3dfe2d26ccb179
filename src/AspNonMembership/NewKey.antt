-- ===== src/AspNonMembership/NewKey.antt =====
-- A key that is not in the tree, and the tree with its leaf.
use stellar_private_payments.Prelude.{
  ℕ, ◌<◌, ◌≡◌, ◌≢◌, ◌⊎◌, ◌↔◌, inl, inr, refl, sym, false, length, some, Bool-cases,
}
use stellar_private_payments.Poseidon.{Host, bn256_modulus}
use stellar_private_payments.AspNonMembership.{split_bits, FindResult}
use stellar_private_payments.AspNonMembership.Tree.{
  Smt, blank, leaf, Placed, In, here, left, right, at_root, OnePath-at_root, Even-at_root,
  length-split_bits,
}
use stellar_private_payments.AspNonMembership.Find.{find_in, found-In, find_in-some}
use stellar_private_payments.AspNonMembership.Shape.{Sub, Sub-In, self, in_left, in_right, Fields}
use stellar_private_payments.AspNonMembership.Grow.{
  insert_in, Way, In-insert_in, In-insert_in_old, Sub-insert_in, Drops-at_root,
}
use stellar_private_payments.AspNonMembership.Kept.{Level, Apart-at_root, find_in-Way}

-- The tree with a new leaf.
abbrev pub insert_key : ℕ → ℕ → Smt → Smt
insert_key key value t = insert_in 0 (split_bits key) key value t

abbrev pub Parts : Smt → Smt → Smt → Type 0
Parts t t' u = Sub u t ⊎ Sub u t'

pub In-Sub : {k v : ℕ} {t : Smt} → In k v t → Sub (leaf k v) t
In-Sub here = self
In-Sub (left i) = in_left (In-Sub i)
In-Sub (right i) = in_right (In-Sub i)

blank_or_leaf : {k v : ℕ} → leaf k v ≢ blank
blank_or_leaf e = absurd cc

pub In-leaf : {k v k' v' : ℕ} → In k v (leaf k' v') → (k ≡ k') × (v ≡ v')
In-leaf here = (refl, refl)

module _ (host : Host) (key : ℕ) (hkey : key < bn256_modulus) (t : Smt) (placed : Placed at_root t)
    (fields : Fields t) where
  level : Level 0 (length (split_bits key)) at_root
  level = record {
    one = OnePath-at_root;
    even = rw (length-split_bits key) Even-at_root;
    drops = Drops-at_root;
    apart = Apart-at_root;
  }

  pub way :
      (x : FindResult)
      → find_in host key (split_bits key) t ≡ some x
      → x.found ≡ false
      → Way 0 (split_bits key) t
  way x e f = find_in-Way host key hkey 0 (split_bits key) at_root level refl t placed fields x e f

  -- The way in a tree that does not have the key.
  absent-Way : ((v : ℕ) → ¬ In key v t) → Way 0 (split_bits key) t
  absent-Way absent =
      let (x, e) = find_in-some host key at_root (split_bits key) t level.even placed in
      elim (Bool-cases x.found) [
        | inl yes_found ↦
            absurd (absent x.found_value (found-In host key (split_bits key) t x e yes_found))
        | inr not_found ↦ way x e not_found
      ]

  -- The tree with the leaf of a new key has that leaf, and otherwise what it had.
  pub In-insert_key :
      (value : ℕ)
      → ((v : ℕ) → ¬ In key v t)
      → (k v : ℕ) → In k v (insert_key key value t) ↔ (((k ≡ key) × (v ≡ value)) ⊎ In k v t)
  In-insert_key value absent k v =
      let w = absent-Way absent in
      (
        λ i. elim (Sub-insert_in key value 0 (split_bits key) t w (leaf k v) (In-Sub i)) [
          | inl at_key ↦ let (ek, ev) = In-leaf at_key in inl (sym ek, sym ev)
          | inr (inl su) ↦ inr (Sub-In su here)
          | inr (inr b) ↦ absurd (blank_or_leaf b)
        ],
        λ h. elim h [
          | inl (ek, ev) ↦ rw (ek, ev) (In-insert_in key value 0 (split_bits key) t w)
          | inr i ↦ In-insert_in_old key value 0 (split_bits key) t w k v i
        ],
      )
