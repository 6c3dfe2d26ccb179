-- ===== src/AspMembership/Settings.antt =====
-- Who may change the membership contract.
use stellar_private_payments.Prelude.{
  Bool-cases, Option-cases, ◌↔◌, ℕ, ◌≡◌, ◌⊎◌, inl, inr, Bool, true, false, Option, none, some, ok,
  arith,
}
use stellar_private_payments.Poseidon.{Host}
use stellar_private_payments.Soroban
use stellar_private_payments.Soroban.{Address}
use stellar_private_payments.AspMembership.{
  AspMembership, admin_only_of, authorise_insert, insert_leaf, set_admin_insert_only, update_admin,
}

open_to_all : (o : Option Bool) → admin_only_of o ≡ false → o ≡ some false
open_to_all none h = cc
open_to_all (some b) h = cc

-- While insertion is reserved to the administrator, whoever inserts has signed as administrator;
-- an entry that was never written counts as reserved.
pub insert_leaf-signed :
    (host : Host) (authorized : Address → Bool) (s t : AspMembership) (leaf : ℕ)
    → insert_leaf host authorized s leaf ≡ ok t
    → (s.admin_insert_only ≡ some false)
      ⊎ ((admin : Address) × (s.admin ≡ some admin) × (authorized admin ≡ true))
unfolding insert_leaf authorise_insert
insert_leaf-signed host authorized s t leaf h =
    elim (Bool-cases (admin_only_of s.admin_insert_only)) [
      | inl reserved ↦ elim (Option-cases s.admin) [
        | inl e ↦ absurd (ground arith)
        | inr (admin, e) ↦ inr (admin, e, ground arith)
      ]
      | inr free ↦ inl (open_to_all s.admin_insert_only free)
    ]

-- The reservation is changed, and the administrator replaced, exactly with the signature of the
-- current administrator; nothing else changes.
pub settings-signed :
    (authorized : Address → Bool) (s t : AspMembership) (b : Bool) (a : Address)
    → ((set_admin_insert_only authorized s b ≡ ok t) ↔ (
        (admin : Address) × (s.admin ≡ some admin)
        × (authorized admin ≡ true)
        × (t ≡ record s { admin_insert_only = some b })))
      × ((update_admin authorized s a ≡ ok t) ↔ (
          (admin : Address) × (s.admin ≡ some admin)
          × (authorized admin ≡ true)
          × (t ≡ record s { admin = some a })))
unfolding set_admin_insert_only update_admin Soroban.update_admin
settings-signed authorized s t b a = (
  ((λ h. ground arith), λ (admin, e, signed, r). ground arith),
  ((λ h. ground arith), λ (admin, e, signed, r). ground arith),
)
