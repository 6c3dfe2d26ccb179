-- ===== src/AspNonMembership/Refusals.antt =====
-- What the contract refuses: a key that is already in the tree, and one that is not.
use stellar_private_payments.Prelude.{ℕ, ◌≡◌, ◌⊎◌, inl, inr, Bool, true, false, some, ok, err, refl}
use stellar_private_payments.Poseidon.{Host}
use stellar_private_payments.AspNonMembership.{
  AspNonMembership, FindResult, key_already_exists, key_not_found, find_key,
}
use stellar_private_payments.AspNonMembership.Insertion.{insert_leaf}
use stellar_private_payments.AspNonMembership.Deletion.{delete_leaf}
use stellar_private_payments.AspNonMembership.Tree.{Smt, In}
use stellar_private_payments.AspNonMembership.Represents.{Represents, find_key-In}

module _ (host : Host) (s : AspNonMembership) (t : Smt) (r : Represents host s t) (key value : ℕ)
    (authorized : ℕ → Bool) (admin : ℕ) (is_admin : s.admin ≡ some admin)
    (auth : authorized admin ≡ true) where
  insert_found :
      (x : FindResult)
      → find_key s key ≡ ok x
      → x.found ≡ true
      → insert_leaf host authorized s key value ≡ err key_already_exists
  unfolding insert_leaf find_key
  insert_found x run f = rw (is_admin, auth, run, f) refl

  delete_absent :
      (x : FindResult)
      → find_key s key ≡ ok x
      → x.found ≡ false
      → delete_leaf host authorized s key ≡ err key_not_found
  unfolding delete_leaf find_key
  delete_absent x run f =
      let run' = rw r.root_stored at run in rw (is_admin, auth, r.root_stored, run', f) refl

  -- For each key, either it is in the tree and its insertion is refused because it exists, or it is
  -- not in the tree and its deletion is refused because it is not found.
  pub key-refused :
      (((v : ℕ) × In key v t) × (insert_leaf host authorized s key value ≡ err key_already_exists))
      ⊎ (((v : ℕ) → ¬ In key v t) × (delete_leaf host authorized s key ≡ err key_not_found))
  key-refused =
      let (x, run, cases) = find_key-In host s t r key in
      elim cases [
        | inl (yes_found, i) ↦ inl ((x.found_value, i), insert_found x run yes_found)
        | inr (not_found, none_in) ↦ inr (none_in, delete_absent x run not_found)
      ]
