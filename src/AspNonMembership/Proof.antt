-- ===== src/AspNonMembership/Proof.antt =====
-- contracts/asp-non-membership/src/lib.rs: `verify_non_membership`.
use stellar_private_payments.Prelude.{
  ℕ, ◌+◌, Bool, true, false, ◌&&◌, not, List, [], ◌∷◌, ◌==◌, if◌then◌else◌, get_elem?, Outcome, ok,
  ok_or, ensure, ◌>>=◌, ◌>>◌,
}
use stellar_private_payments.Poseidon.{Host}
use stellar_private_payments.AspNonMembership.{
  Error, AspNonMembership, FindResult, hash_leaf, split_bits, root_or_zero, find_key, hash_by_bit,
  invalid_proof,
}

-- The root that a path of siblings gives to a hash at its end.
unfoldable pub path_root : Host → List Bool → ℕ → List ℕ → ℕ → Outcome Error ℕ
path_root host key_bits level [] h = ok h
path_root host key_bits level (sibling ∷ siblings) h = do
  below ← path_root host key_bits (level + 1) siblings h
  bit ← ok_or (get_elem? key_bits level) invalid_proof
  hash_by_bit host bit sibling below

abbrev pub list_eq : List ℕ → List ℕ → Bool
list_eq [] [] = true
list_eq (x ∷ xs) (y ∷ ys) = x == y && list_eq xs ys
list_eq _ _ = false

-- The hash at the end of a proof's path.
unfoldable pub proof_end : Host → ℕ → ℕ → ℕ → Outcome Error ℕ
proof_end host key not_found_key not_found_value =
    if not (not_found_key == key) && not (not_found_value == 0)
    then hash_leaf host not_found_key not_found_value
    else ok 0

unfoldable pub check_proof : Host → ℕ → ℕ → FindResult → List ℕ → ℕ → ℕ → Outcome Error Bool
check_proof host key root find_result siblings not_found_key not_found_value = do
  ensure (list_eq siblings find_result.siblings) invalid_proof
  ensure
      (find_result.not_found_key == not_found_key && find_result.not_found_value == not_found_value)
      invalid_proof
  end ← proof_end host key not_found_key not_found_value
  computed_root ← path_root host (split_bits key) 0 siblings end
  ensure (computed_root == root) invalid_proof
  ok true

unfoldable pub verify_non_membership :
    Host → AspNonMembership → ℕ → List ℕ → ℕ → ℕ → Outcome Error Bool
verify_non_membership host s key siblings not_found_key not_found_value = do
  find_result ← find_key s key
  elim find_result.found [
    | true ↦ ok false
    | false ↦
        check_proof host key (root_or_zero s.root) find_result siblings not_found_key
          not_found_value
  ]
