-- ===== src/Examples/AspRuns.antt =====
-- The membership tree of two levels, and the theorems there.
use stellar_private_payments.Prelude.{
  Outcome, ok, err, ℕ, ◌<◌, ◌≡◌, ◌⊎◌, ◌↔◌, refl, Bool, true, false, some, [], ◌∷◌, ◌++◌, ◌==◌,
  arith,
}
use stellar_private_payments.Poseidon.{
  bn256_modulus, poseidon2_compress, compression, empty_subtree, get_zeroes,
}
use stellar_private_payments.Merkle.Root.{prefix_root}
use stellar_private_payments.Merkle.Climb.{climb}
use stellar_private_payments.AspMembership.{
  AspMembership, Error, no_members, set_zeroes, constructor, set_admin_insert_only, update_admin,
  authorise_insert, insert_leaf, leaf_added, merkle_tree_full,
}
use stellar_private_payments.AspMembership.Init.{constructor-Represents}
use stellar_private_payments.AspMembership.Insert.{
  Represents, insert_leaf-Represents, insert_leaf_full,
}
use stellar_private_payments.AspMembership.Settings.{insert_leaf-signed, settings-signed}
use stellar_private_payments.Examples.Hosts.{chained, chained-IsCanonical, successor_of}

abbrev value_of : Outcome Error AspMembership → AspMembership
value_of (ok s) = s
value_of _ = no_members

abbrev is_seven : ℕ → Bool
is_seven a = a == 7

abbrev members : AspMembership
members = value_of (constructor no_members 7 1)

started : constructor no_members 7 1 ≡ ok members
unfolding constructor set_zeroes get_zeroes
started = refl

members-Represents : Represents chained members 1 []
members-Represents =
    let (s, e, r) = constructor-Represents chained 7 1 (omega arith) (omega arith) in
    let same : s ≡ members = cc (e, started) in rw same at r

constructor-Represents_example :
    (t : AspMembership) × (constructor no_members 7 2 ≡ ok t) × Represents chained t 2 []
constructor-Represents_example = constructor-Represents chained 7 2 (omega arith) (omega arith)

allowed : authorise_insert is_seven members ≡ ok tt
unfolding authorise_insert constructor set_zeroes get_zeroes
allowed = refl

small : 21 < bn256_modulus
unfolding bn256_modulus
small = omega arith

abbrev one_member : AspMembership
one_member = value_of (insert_leaf chained is_seven members 21)

inserted : insert_leaf chained is_seven members 21 ≡ ok one_member
unfolding insert_leaf authorise_insert constructor set_zeroes get_zeroes climb poseidon2_compress
    bn256_modulus successor_of
inserted = refl

insert_leaf-Represents_example :
    (t : AspMembership) × (insert_leaf chained is_seven members 21 ≡ ok t)
    × Represents chained t 1 (21 ∷ [])
    × (t.events
        ≡ members.events
          ++ leaf_added 21 0 (prefix_root (compression chained) empty_subtree 1 0 (21 ∷ [])) ∷ [])
insert_leaf-Represents_example =
    insert_leaf-Represents chained chained-IsCanonical is_seven members 1 [] members-Represents 21
      allowed small (omega arith)

insert_leaf-signed_example :
    (members.admin_insert_only ≡ some false)
    ⊎ ((admin : ℕ) × (members.admin ≡ some admin) × (is_seven admin ≡ true))
insert_leaf-signed_example = insert_leaf-signed chained is_seven members one_member 21 inserted

settings-signed_example :
    ((set_admin_insert_only is_seven members false ≡ ok members) ↔ (
      (admin : ℕ) × (members.admin ≡ some admin)
      × (is_seven admin ≡ true)
      × (members ≡ record members { admin_insert_only = some false })))
    × ((update_admin is_seven members 8 ≡ ok members) ↔ (
        (admin : ℕ) × (members.admin ≡ some admin)
        × (is_seven admin ≡ true)
        × (members ≡ record members { admin = some 8 })))
settings-signed_example = settings-signed is_seven members members false 8

one-Represents : Represents chained one_member 1 (21 ∷ [])
one-Represents =
    let (s, e, r, events) = insert_leaf-Represents_example in
    let same : s ≡ one_member = cc (e, inserted) in rw same at r

allowed_again : authorise_insert is_seven one_member ≡ ok tt
unfolding authorise_insert insert_leaf constructor set_zeroes get_zeroes climb poseidon2_compress
    bn256_modulus successor_of
allowed_again = refl

abbrev two_members : AspMembership
two_members = value_of (insert_leaf chained is_seven one_member 21)

inserted_again : insert_leaf chained is_seven one_member 21 ≡ ok two_members
unfolding insert_leaf authorise_insert constructor set_zeroes get_zeroes climb poseidon2_compress
    bn256_modulus successor_of
inserted_again = refl

two-Represents : Represents chained two_members 1 (21 ∷ 21 ∷ [])
two-Represents =
    let (s, e, r, events) =
      insert_leaf-Represents chained chained-IsCanonical is_seven one_member 1 (21 ∷ [])
        one-Represents 21 allowed_again small (omega arith) in
    let same : s ≡ two_members = cc (e, inserted_again) in rw same at r

allowed_thrice : authorise_insert is_seven two_members ≡ ok tt
unfolding authorise_insert insert_leaf constructor set_zeroes get_zeroes climb poseidon2_compress
    bn256_modulus successor_of
allowed_thrice = refl

insert_leaf_full_example : insert_leaf chained is_seven two_members 5 ≡ err merkle_tree_full
insert_leaf_full_example =
    insert_leaf_full chained chained-IsCanonical is_seven two_members 1 (21 ∷ 21 ∷ [])
      two-Represents 5 allowed_thrice (omega arith)
