-- ===== src/AspNonMembership/Represents.antt =====
-- The contract's state as a tree, and what its search tells of it.
use stellar_private_payments.Prelude.{
  ℕ, ◌≡◌, ◌⊎◌, inl, inr, refl, true, false, Bool-cases, some, length, ok,
}
use stellar_private_payments.Poseidon.{Host}
use stellar_private_payments.AspNonMembership.{
  AspNonMembership, FindResult, no_blocked, constructor, find_key, split_bits,
}
use stellar_private_payments.AspNonMembership.Tree.{
  Smt, blank, digest, Stored, In, Placed, Even, at_root, OnePath-at_root, Even-at_root,
  length-split_bits,
}
use stellar_private_payments.AspNonMembership.Find.{
  find_in, find_key_internal-Stored, found-In, not_found-In, find_in-some,
}

-- The store holds this tree under its root.
pub record Represents (host : Host) (s : AspNonMembership) (t : Smt) : Type 0 where
  pub root_stored : s.root ≡ some (digest host t)
  pub stored : Stored host s.nodes t
  pub placed : Placed at_root t

pub constructor-Represents :
    (host : Host) (admin : ℕ)
    → (s : AspNonMembership) × (constructor no_blocked admin ≡ ok s) × Represents host s blank
unfolding constructor digest
constructor-Represents host admin =
    (_, refl, record { root_stored = refl; stored = tt; placed = tt })

module _ (host : Host) (s : AspNonMembership) (t : Smt) (r : Represents host s t) (key : ℕ) where
  -- The search gives what the tree has along the key's bits.
  pub find_key-find_in :
      (x : FindResult) × (find_in host key (split_bits key) t ≡ some x) × (find_key s key ≡ ok x)
  unfolding find_key
  find_key-find_in =
      let even : Even (length (split_bits key)) at_root = rw (length-split_bits key) Even-at_root in
      let (x, e) = find_in-some host key at_root (split_bits key) t even r.placed in
      (
        x,
        e,
        rw (r.root_stored, find_key_internal-Stored host s.nodes key (split_bits key) t r.stored, e)
            refl,
      )

  -- The search for any key ends without an error, and tells whether the key is in the tree, and
  -- with which value.
  pub find_key-In :
      (x : FindResult) × (find_key s key ≡ ok x)
      × (((x.found ≡ true) × In key x.found_value t)
          ⊎ ((x.found ≡ false) × ((v : ℕ) → ¬ In key v t)))
  find_key-In =
      let (x, e, run) = find_key-find_in in
      elim (Bool-cases x.found) [
        | inl yes_found ↦
            (x, run, inl (yes_found, found-In host key (split_bits key) t x e yes_found))
        | inr not_found ↦ (
          x,
          run,
          inr (
            not_found,
            λ v.
                not_found-In host key at_root OnePath-at_root (split_bits key) t x v refl r.placed e
                  not_found,
          ),
        )
      ]
