-- ===== src/Examples/PoolRuns.antt =====
-- The pool of two levels, a deposit into it, a withdrawal from it, and the theorems there.
use stellar_private_payments.Prelude.{
  Outcome, err, zero, suc, get_elem?, get_or, ◌↔◌, ◌⊎◌, ◌^◌, ℕ, ◌+◌, ◌<◌, ◌≤◌, ◌≡◌, ◌≢◌, refl, Bool,
  true, some, [], ◌∷◌, arith, ok,
}
use stellar_private_payments.Prelude.Int.{negsuc, pos, ◌+ℤ◌}
use stellar_private_payments.Poseidon.{
  bn256_modulus, poseidon2_compress, compression, empty_subtree, get_zeroes,
}
use stellar_private_payments.Soroban
use stellar_private_payments.Soroban.{i256_neg}
use stellar_private_payments.Pool.Tree
use stellar_private_payments.Pool.State.{wrong_ext_amount, Proof, ExtData, Pool, Env, is_empty}
use stellar_private_payments.Pool.Amounts.{
  calculate_public_amount, i256_to_i128_nonneg, max_ext_amount,
}
use stellar_private_payments.Pool.Contract
use stellar_private_payments.Pool.Contract.{transact, no_pool, constructor}
use stellar_private_payments.Pool.Contract.History.{
  call, after, run, updates_admin, no_double_spend,
}
use stellar_private_payments.Pool.Contract.Transact.{Transacted, transact-Transacted}
use stellar_private_payments.Pool.Contract.Checks.{Checked}
use stellar_private_payments.Pool.Contract.Success.{transact-ok}
use stellar_private_payments.Pool.Contract.Refinement.{constructor-Represents, transact-Represents}
use stellar_private_payments.Pool.Contract.Conservation.{balance, balance-transact}
use stellar_private_payments.Pool.Tree.Represents.{Represents, root_of, is_known_root-Represents}
use stellar_private_payments.Pool.Tree.Insert.{insert_two_leaves-Represents, insert_two_leaves_full}
use stellar_private_payments.Pool.Tree.Init.{init-Represents}
use stellar_private_payments.Pool.Contract.Admin.{with_setting, setting-signed}
use stellar_private_payments.Pool.Amounts.PublicAmount.{
  calculate_public_amount_injective, calculate_public_amount_total,
}
use stellar_private_payments.Merkle.Root.{ZeroChain, perfect_root}
use stellar_private_payments.Poseidon.Permutation.{poseidon2, poseidon2-IsCanonical}
use stellar_private_payments.Pool.Tree.Built.{build, get_last_root-perfect_root}
use stellar_private_payments.Merkle.Climb.{climb}
use stellar_private_payments.Examples.Hosts.{chained, chained-IsCanonical, successor_of}

abbrev env : Env
env = record {
  host = chained;
  authorized = λ a. true;
  current_contract_address = 100;
  ext_data_digest = λ d. 77;
  transfer_accepted = λ t. true;
  membership_root = λ a. some 7;
  non_membership_root = λ a. some 8;
  verify = λ a p xs. some true;
}

abbrev fresh_pool : Pool
fresh_pool = after no_pool (constructor no_pool 1 2 3 4 5 1000 2)

abbrev deposit_data : ExtData
deposit_data = record {
  recipient = 9;
  ext_amount = pos 10;
  encrypted_output0 = 1 ∷ [];
  encrypted_output1 = 2 ∷ [];
}

abbrev deposit_proof : Proof
deposit_proof = record {
  proof = record { a = 1 ∷ []; b = 1 ∷ []; c = 1 ∷ [] };
  root = empty_subtree 2;
  input_nullifiers = 11 ∷ 12 ∷ [];
  output_commitment0 = 21;
  output_commitment1 = 22;
  public_amount = 10;
  ext_data_hash = 77;
  asp_membership_root = 7;
  asp_non_membership_root = 8;
}

abbrev pub deposited_pool : Pool
deposited_pool = after no_pool (transact env fresh_pool deposit_proof deposit_data 6)

deposited : transact env fresh_pool deposit_proof deposit_data 6 ≡ ok deposited_pool
unfolding transact constructor Tree.init Tree.set_zeroes Contract.deposit Contract.internal_transact
    Contract.check_transaction Contract.check_unspent Contract.is_spent Contract.hash_ext_data
    Contract.get_asp_membership_root Contract.get_asp_non_membership_root Contract.verify_proof
    Contract.validate_bn256_public_inputs Contract.validate_nullifiers
    Contract.validate_bn256_public_input Contract.mark_all Contract.mark_spent Contract.withdraw
    Contract.insert_commitments Contract.token_transfer Tree.insert_two_leaves Tree.is_known_root
    Tree.search_roots climb poseidon2_compress get_zeroes bn256_modulus successor_of
    calculate_public_amount i256_to_i128_nonneg max_ext_amount is_empty Soroban.i256_neg
deposited = refl

fresh : constructor no_pool 1 2 3 4 5 1000 2 ≡ ok fresh_pool
unfolding constructor Tree.init Tree.set_zeroes get_zeroes
fresh = refl

fresh-Represents : Represents chained fresh_pool.tree 1 [] (root_of chained 2 [] ∷ [])
fresh-Represents =
    let (p, e, r) = constructor-Represents chained 1 2 3 4 5 1000 1 (omega arith) in
    let same : p ≡ fresh_pool = cc (e, fresh) in rw same at r

small : 21 < bn256_modulus
unfolding bn256_modulus
small = omega arith

small' : 22 < bn256_modulus
unfolding bn256_modulus
small' = omega arith

pub chain : ZeroChain (compression chained) empty_subtree 2 0
unfolding compression successor_of get_zeroes bn256_modulus
chain zero from to = refl
chain (suc zero) from to = refl
chain (suc (suc i)) from to = absurd (omega arith)

no_double_spend_example : ¬ (
    transact env (run deposited_pool ((env, updates_admin 4) ∷ [])) deposit_proof deposit_data 6
    ≡ ok deposited_pool)
no_double_spend_example =
    no_double_spend env env fresh_pool deposited_pool deposited_pool deposit_proof deposit_proof
      deposit_data deposit_data 6 6 ((env, updates_admin 4) ∷ []) 12 deposited refl refl

transact-Transacted_example : Transacted env fresh_pool deposit_proof deposit_data 6 deposited_pool
transact-Transacted_example =
    transact-Transacted env fresh_pool deposit_proof deposit_data 6 deposited_pool deposited

transact-Represents_example :
    (0 + 2 ≤ 2 ^ 2)
    × Represents chained deposited_pool.tree 1
        (21 ∷ 22 ∷ [])
        (root_of chained 2 (21 ∷ 22 ∷ []) ∷ root_of chained 2 [] ∷ [])
transact-Represents_example =
    transact-Represents env chained-IsCanonical fresh_pool deposited_pool deposit_proof deposit_data
      6 1 [] (root_of chained 2 [] ∷ []) fresh-Represents deposited

-- The tree after the deposit.
pub deposited-Represents :
    Represents chained deposited_pool.tree 1
      (21 ∷ 22 ∷ [])
      (root_of chained 2 (21 ∷ 22 ∷ []) ∷ root_of chained 2 [] ∷ [])
deposited-Represents =
    let r =
      transact-Represents env chained-IsCanonical fresh_pool deposited_pool deposit_proof
        deposit_data 6 1 [] (root_of chained 2 [] ∷ []) fresh-Represents deposited in
    r.1

balance-transact_example :
    balance 2 100 deposited_pool.transfers ≡ balance 2 100 fresh_pool.transfers +ℤ pos 10
unfolding constructor Tree.init Tree.set_zeroes get_zeroes
balance-transact_example =
    balance-transact env fresh_pool deposited_pool deposit_proof deposit_data 6 2 deposited refl
      (omega arith) (omega arith)

insert_two_leaves-Represents_example :
    (t' : Tree.MerkleTree) × (Tree.insert_two_leaves chained fresh_pool.tree 21 22
      ≡ ok ((0, 0 + 1), t'))
    × Represents chained t' 1
        (21 ∷ 22 ∷ [])
        (root_of chained 2 (21 ∷ 22 ∷ []) ∷ root_of chained 2 [] ∷ [])
insert_two_leaves-Represents_example =
    insert_two_leaves-Represents chained chained-IsCanonical fresh_pool.tree 1 []
      (root_of chained 2 [] ∷ []) fresh-Represents 21 22 small small' (omega arith)

is_known_root-Represents_example :
    (known : Bool) × (Tree.is_known_root fresh_pool.tree 5 ≡ ok known)
    × ((known ≡ true) ↔ (
        (◌≢◌ {A = ℕ} 5 0)
        × ((j : ℕ) × (j < Tree.root_history_size)
            × (get_elem? (root_of chained 2 [] ∷ []) j ≡ some 5))))
is_known_root-Represents_example =
    is_known_root-Represents chained fresh_pool.tree 1 [] (root_of chained 2 [] ∷ [])
      fresh-Represents 5

-- 1 and 2 are field elements.
one_two : (1 < bn256_modulus) × ((2 < bn256_modulus) × Unit {0})
unfolding bn256_modulus
one_two = (omega arith, (omega arith, tt))

get_last_root-perfect_root_example :
    (t : Tree.MerkleTree) × (build poseidon2 2 ((1, 2) ∷ []) ≡ ok t)
    × (Tree.get_last_root t
        ≡ ok
            (perfect_root (compression poseidon2) 2 (λ i. get_or (1 ∷ 2 ∷ []) i (empty_subtree 0))))
get_last_root-perfect_root_example =
    get_last_root-perfect_root poseidon2 poseidon2-IsCanonical (λ left right l r. refl) 1
      ((1, 2) ∷ []) (omega arith) one_two (omega arith)

-- A tree of one level, and the same with its two leaves.
abbrev tree_of : Outcome Tree.MerkleError Tree.MerkleTree → Tree.MerkleTree
tree_of (ok t) = t
tree_of _ = Tree.no_entries

abbrev grown_of : Outcome Tree.MerkleError ((ℕ × ℕ) × Tree.MerkleTree) → Tree.MerkleTree
grown_of (ok r) = r.1
grown_of _ = Tree.no_entries

abbrev one_level : Tree.MerkleTree
one_level = tree_of (Tree.init Tree.no_entries 1)

abbrev full_tree : Tree.MerkleTree
full_tree = grown_of (Tree.insert_two_leaves chained one_level 21 22)

one_level-init : Tree.init Tree.no_entries 1 ≡ ok one_level
unfolding Tree.init Tree.set_zeroes get_zeroes
one_level-init = refl

full_tree-insert : Tree.insert_two_leaves chained one_level 21 22 ≡ ok ((0, 1), full_tree)
unfolding Tree.init Tree.set_zeroes Tree.insert_two_leaves climb poseidon2_compress get_zeroes
    bn256_modulus successor_of
full_tree-insert = refl

full_tree-Represents :
    Represents chained full_tree 0
      (21 ∷ 22 ∷ [])
      (root_of chained 1 (21 ∷ 22 ∷ []) ∷ root_of chained 1 [] ∷ [])
full_tree-Represents =
    let (t0, e0, r0) = init-Represents chained 0 (omega arith) in
    let same0 : t0 ≡ one_level = cc (e0, one_level-init) in
    let (t1, e1, r1) =
      insert_two_leaves-Represents chained chained-IsCanonical one_level 0 []
        (root_of chained 1 [] ∷ []) (rw same0 at r0) 21 22 small small' (omega arith) in
    let same1 : t1 ≡ full_tree = cc (e1, full_tree-insert) in rw same1 at r1

insert_two_leaves_full_example :
    Tree.insert_two_leaves chained full_tree 5 6 ≡ err Tree.merkle_tree_full
insert_two_leaves_full_example =
    insert_two_leaves_full chained chained-IsCanonical full_tree 0 (21 ∷ 22 ∷ [])
      (root_of chained 1 (21 ∷ 22 ∷ []) ∷ root_of chained 1 [] ∷ []) full_tree-Represents 5 6
      (omega arith)

init-Represents_example :
    (t : Tree.MerkleTree) × (Tree.init Tree.no_entries 2 ≡ ok t)
    × Represents chained t 1 [] (root_of chained 2 [] ∷ [])
init-Represents_example = init-Represents chained 1 (omega arith)

calculate_public_amount_injective_example : negsuc 4 ≡ negsuc 4
unfolding calculate_public_amount max_ext_amount i256_neg bn256_modulus
calculate_public_amount_injective_example =
    calculate_public_amount_injective (negsuc 4) (negsuc 4)
      0x30644e72e131a029b85045b68181585d2833e84879b9709143e1f593effffffc refl refl

calculate_public_amount_total_example :
    ((x : ℕ) × (2 ^ 248 < 2 ^ 248)
      × (calculate_public_amount (pos (2 ^ 248)) ≡ ok x)
      × (x < bn256_modulus))
    ⊎ ((2 ^ 248 ≤ 2 ^ 248) × (calculate_public_amount (pos (2 ^ 248)) ≡ err wrong_ext_amount))
calculate_public_amount_total_example = calculate_public_amount_total (pos (2 ^ 248)) (omega arith)

setting-signed_example :
    (call env fresh_pool (updates_admin 4) ≡ ok (with_setting fresh_pool (updates_admin 4))) ↔ (
      (admin : ℕ) × (fresh_pool.admin ≡ some admin)
      × (env.authorized admin ≡ true)
      × (with_setting fresh_pool (updates_admin 4) ≡ with_setting fresh_pool (updates_admin 4)))
setting-signed_example =
    setting-signed env fresh_pool (updates_admin 4) (with_setting fresh_pool (updates_admin 4)) tt

fresh_token : fresh_pool.token ≡ some 2
unfolding constructor Tree.init Tree.set_zeroes get_zeroes
fresh_token = refl

fresh_maximum : fresh_pool.maximum_deposit_amount ≡ some 1000
unfolding constructor Tree.init Tree.set_zeroes get_zeroes
fresh_maximum = refl

deposit-Checked : Checked env fresh_pool deposit_proof deposit_data
deposit-Checked =
    let t =
      transact-Transacted env fresh_pool deposit_proof deposit_data 6 deposited_pool deposited in
    t.checked

transact-ok_example : (q : Pool) × (transact env fresh_pool deposit_proof deposit_data 6 ≡ ok q)
transact-ok_example =
    transact-ok env chained-IsCanonical (λ t. refl) fresh_pool deposit_proof deposit_data 6 2 1000 1
      [] (root_of chained 2 [] ∷ []) refl fresh_token fresh_maximum (omega arith) (omega arith)
      deposit-Checked fresh-Represents (omega arith)
