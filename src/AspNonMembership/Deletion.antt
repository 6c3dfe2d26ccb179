-- ===== src/AspNonMembership/Deletion.antt =====
-- contracts/asp-non-membership/src/lib.rs: `delete_leaf`.
use stellar_private_payments.Prelude.{
  ℕ, ◌+◌, Bool, false, ◌||◌, not, none, some, List, [], ◌∷◌, ◌++◌, ◌==◌, if◌then◌else◌, get_elem?,
  update, Outcome, ok, err, ok_or, ensure, require, ◌>>=◌, ◌>>◌,
}
use stellar_private_payments.Poseidon.{Host}
use stellar_private_payments.Soroban.{Address}
use stellar_private_payments.AspNonMembership.{
  Error, Nodes, AspNonMembership, hash_leaf, split_bits, node_of, find_key_internal, hash_by_bit,
  key_not_found, not_initialized, leaf_deleted, leaf_node, internal_node, bad_node,
}
use stellar_private_payments.AspNonMembership.Insertion.{Build, make_new}

abbrev pub last : ℕ → List ℕ → ℕ
last x [] = x
last x (y ∷ ys) = last y ys

abbrev pub without_last : List ℕ → List ℕ
without_last [] = []
without_last (x ∷ []) = []
without_last (x ∷ y ∷ ys) = x ∷ without_last (y ∷ ys)

-- The hash that takes the place of the deleted leaf, and the siblings that stay above it.
unfoldable pub promote : Nodes → List ℕ → Outcome Error (ℕ × List ℕ)
promote nodes [] = ok (0, [])
promote nodes (s ∷ siblings) = do
  node_data ← ok_or (nodes (last s siblings)) key_not_found
  elim (node_of node_data) [
    | leaf_node k v ↦ ok (last s siblings, without_last (s ∷ siblings))
    | internal_node l r ↦ ok (0, s ∷ siblings)
    | bad_node ↦ err key_not_found
  ]

-- One level of the rebuilding after a deletion.
unfoldable pub rebuild_round : Host → List Bool → ℕ → ℕ → Build → Outcome Error Build
rebuild_round host key_bits level sibling s = do
  bit ← ok_or (get_elem? key_bits level) key_not_found
  rt_old ← hash_by_bit host bit sibling s.rt_old
  let mixed = s.mixed || not (sibling == 0)
  let t = record s { rt_old = rt_old; mixed = mixed; nodes = update s.nodes rt_old none }
  if mixed then make_new host key_bits level sibling t else ok t

-- From the last level to the first.
unfoldable pub rebuild : Host → List Bool → ℕ → List ℕ → Build → Outcome Error Build
rebuild host key_bits level [] s = ok s
rebuild host key_bits level (sibling ∷ siblings) s = do
  t ← rebuild host key_bits (level + 1) siblings s
  rebuild_round host key_bits level sibling t

unfoldable pub delete_leaf :
    Host → (Address → Bool) → AspNonMembership → ℕ → Outcome Error AspNonMembership
delete_leaf host authorized s key = do
  admin ← ok_or s.admin not_initialized
  require (authorized admin)
  root ← ok_or s.root not_initialized
  find_result ← find_key_internal s.nodes key (split_bits key) root
  ensure find_result.found key_not_found
  rt_old ← hash_leaf host key find_result.found_value
  let nodes = update s.nodes rt_old none
  promoted ← promote nodes find_result.siblings
  b ←
      rebuild host (split_bits key) 0 promoted.1
        (record { rt = promoted.0; rt_old = rt_old; mixed = false; nodes = nodes })
  ok (record s {
    root = some b.rt;
    nodes = b.nodes;
    events = s.events ++ leaf_deleted key b.rt ∷ [];
  })
