-- ===== src/Examples/NonMembershipRuns.antt =====
-- A tree of one blocked key, and the theorems there.
use stellar_private_payments.Prelude.{
  Outcome, ok, err, ℕ, ◌<◌, ◌≡◌, ◌≢◌, ◌⊎◌, ◌↔◌, inl, inr, refl, Bool, true, false, some, [], ◌∷◌,
  ◌==◌, arith,
}
use stellar_private_payments.Poseidon.{
  bn256_modulus, compression, poseidon2_hash2, poseidon2_compress,
}
use stellar_private_payments.AspNonMembership.{
  AspNonMembership, Error, no_blocked, key_already_exists, key_not_found, invalid_proof,
  constructor, hash_by_bit, find_key, find_key_internal, at_node, at_leaf, FindResult, bits_of,
}
use stellar_private_payments.AspNonMembership.Proof.{
  check_proof, proof_end, path_root, verify_non_membership,
}
use stellar_private_payments.AspNonMembership.Insertion.{
  insert_leaf, insert_path, build, build_round, drop_old, make_new,
}
use stellar_private_payments.AspNonMembership.Deletion.{
  delete_leaf, rebuild, rebuild_round, promote,
}
use stellar_private_payments.AspNonMembership.Tree.{Smt, leaf, fork, digest, In}
use stellar_private_payments.AspNonMembership.Represents.{Represents, find_key-In}
use stellar_private_payments.AspNonMembership.Verify.{
  verify_non_membership-find_key, verify_non_membership-In,
}
use stellar_private_payments.AspNonMembership.Shape.{Canon, NoCollision, self, in_left, in_right}
use stellar_private_payments.AspNonMembership.Grow.{insert_in, divide}
use stellar_private_payments.AspNonMembership.NewKey.{insert_key, Parts, In-leaf}
use stellar_private_payments.AspNonMembership.Insert.{insert_leaf-insert_key, insert_leaf-find_key}
use stellar_private_payments.AspNonMembership.Refusals.{key-refused}
use stellar_private_payments.Examples.Hosts.{chained, chained-IsCanonical, successor_of}

abbrev value_of : Outcome Error AspNonMembership → AspNonMembership
value_of (ok s) = s
value_of _ = no_blocked

abbrev is_seven : ℕ → Bool
is_seven a = a == 7

abbrev empty : AspNonMembership
empty = value_of (constructor no_blocked 7)

abbrev one_blocked : AspNonMembership
one_blocked = value_of (insert_leaf chained is_seven empty 12 5)

one_blocked_eq : insert_leaf chained is_seven empty 12 5 ≡ ok one_blocked
unfolding insert_leaf insert_path build build_round drop_old make_new hash_by_bit find_key_internal
    at_node bits_of poseidon2_hash2 poseidon2_compress constructor bn256_modulus
one_blocked_eq = refl

one_Represents : Represents chained one_blocked (leaf 12 5)
unfolding insert_leaf insert_path build build_round drop_old make_new hash_by_bit find_key_internal
    at_node bits_of poseidon2_hash2 poseidon2_compress constructor bn256_modulus digest
one_Represents = record {
  root_stored = refl;
  stored = (omega arith, omega arith, λ e. omega arith, refl);
  placed = (_, refl);
}

find_key-In_example :
    (x : FindResult) × (find_key one_blocked 13 ≡ ok x)
    × (((x.found ≡ true) × In 13 x.found_value (leaf 12 5))
        ⊎ ((x.found ≡ false) × ((v : ℕ) → ¬ In 13 v (leaf 12 5))))
find_key-In_example = find_key-In chained one_blocked (leaf 12 5) one_Represents 13

-- The search for another key ends at the leaf.
abbrev beside : FindResult
beside = at_leaf 13 12 5

beside_eq : find_key one_blocked 13 ≡ ok beside
unfolding insert_leaf insert_path build build_round drop_old make_new hash_by_bit find_key_internal
    at_node bits_of poseidon2_hash2 poseidon2_compress constructor bn256_modulus find_key
beside_eq = refl

verify_non_membership-find_key_example :
    verify_non_membership chained one_blocked 13 beside.siblings beside.not_found_key
      beside.not_found_value
    ≡ ok true
verify_non_membership-find_key_example =
    verify_non_membership-find_key chained chained-IsCanonical one_blocked (leaf 12 5)
      one_Represents 13 beside beside_eq refl (inr (λ e. omega arith))

verify_non_membership-In_example :
    ((true ≡ true) × ((v : ℕ) → ¬ In 13 v (leaf 12 5)))
    ⊎ ((true ≡ false) × (v : ℕ) × In 13 v (leaf 12 5))
verify_non_membership-In_example =
    verify_non_membership-In chained chained-IsCanonical one_blocked (leaf 12 5) one_Represents 13
      [] 12 5 true verify_non_membership-find_key_example

not_blocked : (v : ℕ) → ¬ In 13 v (leaf 12 5)
not_blocked v i = absurd (omega (arith, (In-leaf i).0))

-- The trees of the insertion.
data Known : Smt → Type 0 where
  old_leaf : Known (leaf 12 5)
  new_leaf : Known (leaf 13 4)
  both : Known (fork (leaf 12 5) (leaf 13 4))

known : (u : Smt) → Parts (leaf 12 5) (insert_key 13 4 (leaf 12 5)) u → Known u
unfolding insert_in divide bits_of
known u (inl self) = old_leaf
known u (inr self) = both
known u (inr (in_left self)) = old_leaf
known u (inr (in_right self)) = new_leaf

apart : (u w : Smt) → Known u → Known w → digest chained u ≡ digest chained w → u ≡ w
unfolding digest compression bn256_modulus successor_of
apart u w old_leaf old_leaf e = refl
apart u w new_leaf new_leaf e = refl
apart u w both both e = refl
apart u w old_leaf new_leaf e = absurd (omega (arith, e))
apart u w old_leaf both e = absurd (omega (arith, e))
apart u w new_leaf old_leaf e = absurd (omega (arith, e))
apart u w new_leaf both e = absurd (omega (arith, e))
apart u w both old_leaf e = absurd (omega (arith, e))
apart u w both new_leaf e = absurd (omega (arith, e))

nonzero : (u : Smt) → Known u → digest chained u ≢ 0
unfolding digest compression bn256_modulus successor_of
nonzero u old_leaf e = absurd (omega (arith, e))
nonzero u new_leaf e = absurd (omega (arith, e))
nonzero u both e = absurd (omega (arith, e))

no_collision : NoCollision chained (Parts (leaf 12 5) (insert_key 13 4 (leaf 12 5)))
no_collision = record {
  injective = λ u w cu cw e. apart u w (known u cu) (known w cw) e;
  nonzero = λ u cu h. nonzero u (known u cu);
}

canon : Canon (leaf 12 5)
canon = tt

small : 13 < bn256_modulus
unfolding bn256_modulus
small = omega arith

four_small : 4 < bn256_modulus
unfolding bn256_modulus
four_small = omega arith

admin_seven : one_blocked.admin ≡ some 7
unfolding insert_leaf insert_path build build_round drop_old make_new hash_by_bit find_key_internal
    at_node bits_of poseidon2_hash2 poseidon2_compress constructor bn256_modulus
admin_seven = refl

insert_leaf-insert_key_example :
    (s' : AspNonMembership) × (insert_leaf chained is_seven one_blocked 13 4 ≡ ok s')
    × Represents chained s' (insert_key 13 4 (leaf 12 5))
    × Canon (insert_key 13 4 (leaf 12 5))
    × ((k v : ℕ)
        → In k v (insert_key 13 4 (leaf 12 5)) ↔ (((k ≡ 13) × (v ≡ 4)) ⊎ In k v (leaf 12 5)))
insert_leaf-insert_key_example =
    insert_leaf-insert_key chained chained-IsCanonical one_blocked (leaf 12 5) one_Represents canon
      13 4 small four_small not_blocked no_collision is_seven 7 admin_seven refl

insert_leaf-find_key_example :
    (s' : AspNonMembership) × (x : FindResult) × (insert_leaf chained is_seven one_blocked 13 4
      ≡ ok s')
    × (find_key s' 13 ≡ ok x)
    × (x.found ≡ true)
    × (x.found_value ≡ 4)
insert_leaf-find_key_example =
    insert_leaf-find_key chained chained-IsCanonical one_blocked (leaf 12 5) one_Represents canon 13
      4 small four_small not_blocked no_collision is_seven 7 admin_seven refl

key-refused_example :
    (((v : ℕ) × In 13 v (leaf 12 5))
      × (insert_leaf chained is_seven one_blocked 13 4 ≡ err key_already_exists))
    ⊎ (((v : ℕ) → ¬ In 13 v (leaf 12 5))
        × (delete_leaf chained is_seven one_blocked 13 ≡ err key_not_found))
key-refused_example =
    key-refused chained one_blocked (leaf 12 5) one_Represents 13 4 is_seven 7 admin_seven refl

-- A sibling that is promoted leaves the node above it in the store.
abbrev two_blocked : AspNonMembership
two_blocked = value_of (insert_leaf chained is_seven one_blocked 13 4)

abbrev one_again : AspNonMembership
one_again = value_of (delete_leaf chained is_seven two_blocked 13)

root_again : one_again.root ≡ one_blocked.root
unfolding insert_leaf insert_path build build_round drop_old make_new hash_by_bit find_key_internal
    at_node bits_of poseidon2_hash2 poseidon2_compress constructor bn256_modulus delete_leaf rebuild
    rebuild_round promote successor_of
root_again = refl

stale_node :
    one_again.nodes (digest chained (fork (leaf 12 5) (leaf 13 4)))
    ≡ some (digest chained (leaf 12 5) ∷ digest chained (leaf 13 4) ∷ [])
unfolding insert_leaf insert_path build build_round drop_old make_new hash_by_bit find_key_internal
    at_node bits_of poseidon2_hash2 poseidon2_compress constructor bn256_modulus delete_leaf rebuild
    rebuild_round promote successor_of digest compression
stale_node = refl

-- The proof against a leaf of value zero is refused.
abbrev zero_blocked : AspNonMembership
zero_blocked = value_of (insert_leaf chained is_seven empty 12 0)

zero_refused : verify_non_membership chained zero_blocked 13 [] 12 0 ≡ err invalid_proof
unfolding insert_leaf insert_path build build_round drop_old make_new hash_by_bit find_key_internal
    at_node bits_of poseidon2_hash2 poseidon2_compress constructor bn256_modulus find_key
    verify_non_membership check_proof proof_end path_root
zero_refused = refl
