-- ===== src/Poseidon/Permutation.antt =====
-- The host of contracts/soroban-utils/src/poseidon2.rs: the Poseidon2 permutation over the BN254
-- scalar field that the host documents, with the arguments that the source passes: exponent 5, 8
-- full and 56 partial rounds, the diagonals, and the round constants.
use stellar_private_payments.Prelude.{
  ℕ, zero, suc, ◌+◌, ◌*◌, ◌%◌, ◌<◌, ◌≡◌, refl, List, [], ◌∷◌, arith, Bool, true, false, ◌&&◌, ◌==◌,
  length, get_or, ◌≤◌, ==_iff,
}
use stellar_private_payments.Poseidon.{
  Host, IsCanonical, bn256_modulus, bn256_modulus_pos, compression, empty_subtree, get_zeroes,
  empty_subtree-lt, length-get_zeroes,
}
use stellar_private_payments.Merkle.Root.{ZeroChain}
use stellar_private_payments.Poseidon.Constants2.{get_round_constants_t2}
use stellar_private_payments.Poseidon.Constants3.{get_round_constants_t3}

-- The fifth power.
unfoldable sbox_p : ℕ → ℕ
sbox_p x = (x * x % bn256_modulus) * (x * x % bn256_modulus) % bn256_modulus * x % bn256_modulus

unfoldable sum_of : List ℕ → ℕ
sum_of [] = 0
sum_of (x ∷ xs) = x + sum_of xs

unfoldable add_sum : ℕ → List ℕ → List ℕ
add_sum sum [] = []
add_sum sum (x ∷ xs) = ((x + sum) % bn256_modulus) ∷ add_sum sum xs

-- circ(2, 1) or circ(2, 1, 1)
unfoldable matmul_external : List ℕ → List ℕ
unfolding sum_of add_sum
matmul_external xs = add_sum (sum_of xs) xs

unfoldable scale_and_add : ℕ → List ℕ → List ℕ → List ℕ
scale_and_add sum (d ∷ ds) (x ∷ xs) = ((x * d + sum) % bn256_modulus) ∷ scale_and_add sum ds xs
scale_and_add sum _ _ = []

-- The matrix of ones with the diagonal added.
unfoldable matmul_internal : List ℕ → List ℕ → List ℕ
unfolding sum_of scale_and_add
matmul_internal diag xs = scale_and_add (sum_of xs) diag xs

unfoldable full_sbox : List ℕ → List ℕ → List ℕ
unfolding sbox_p
full_sbox (x ∷ xs) (c ∷ cs) = sbox_p ((x + c) % bn256_modulus) ∷ full_sbox xs cs
full_sbox _ _ = []

unfoldable partial_sbox : List ℕ → List ℕ → List ℕ
unfolding sbox_p
partial_sbox (x ∷ xs) (c ∷ cs) = sbox_p ((x + c) % bn256_modulus) ∷ xs
partial_sbox xs _ = xs

-- Full rounds, partial rounds, and full rounds again, a row of constants for each.
unfoldable rounds : List ℕ → ℕ → ℕ → ℕ → List (List ℕ) → List ℕ → List ℕ
unfolding full_sbox partial_sbox matmul_external matmul_internal
rounds diag (suc f) p g (c ∷ cs) xs = rounds diag f p g cs (matmul_external (full_sbox xs c))
rounds diag zero (suc p) g (c ∷ cs) xs =
    rounds diag zero p g cs (matmul_internal diag (partial_sbox xs c))
rounds diag zero zero (suc g) (c ∷ cs) xs =
    rounds diag zero zero g cs (matmul_external (full_sbox xs c))
rounds diag _ _ _ _ xs = xs

unfoldable permutation : List ℕ → List (List ℕ) → List ℕ → List ℕ
unfolding rounds matmul_external
permutation diag constants xs = rounds diag 4 56 4 constants (matmul_external xs)

unfoldable head_or_zero : List ℕ → ℕ
head_or_zero [] = 0
head_or_zero (x ∷ xs) = x % bn256_modulus

unfoldable pub permutation_t2 : ℕ → ℕ → ℕ
unfolding permutation head_or_zero get_round_constants_t2
permutation_t2 left right =
    head_or_zero (permutation (1 ∷ 2 ∷ []) get_round_constants_t2 (left ∷ right ∷ []))

unfoldable pub permutation_t3 : ℕ → ℕ → ℕ → ℕ
unfolding permutation head_or_zero get_round_constants_t3
permutation_t3 a b sep =
    head_or_zero (permutation (1 ∷ 1 ∷ 2 ∷ []) get_round_constants_t3 (a ∷ b ∷ sep ∷ []))

-- What the host documents of its permutation of two field elements.
abbrev pub IsPoseidon2 : Host → Type 0
IsPoseidon2 host =
    (left right : ℕ)
    → left < bn256_modulus
    → right < bn256_modulus
    → host.permutation_t2 left right ≡ permutation_t2 left right

abbrev pub poseidon2 : Host
poseidon2 = record { permutation_t2 = permutation_t2; permutation_t3 = permutation_t3 }

head_or_zero-lt : (xs : List ℕ) → head_or_zero xs < bn256_modulus
unfolding head_or_zero
head_or_zero-lt [] = bn256_modulus_pos
head_or_zero-lt (x ∷ xs) = omega (arith, bn256_modulus_pos)

pub poseidon2-IsCanonical : IsCanonical poseidon2
unfolding permutation_t2 permutation_t3
poseidon2-IsCanonical = record {
  t2_lt = λ left right.
      head_or_zero-lt (permutation (1 ∷ 2 ∷ []) get_round_constants_t2 (left ∷ right ∷ []));
  t3_lt = λ a b sep.
      head_or_zero-lt (permutation (1 ∷ 1 ∷ 2 ∷ []) get_round_constants_t3 (a ∷ b ∷ sep ∷ []));
}

-- Each entry is what the function makes of the entry before it.
linked : (ℕ → ℕ) → List ℕ → Bool
linked f (x ∷ y ∷ xs) = f x == y && linked f (y ∷ xs)
linked f _ = true

-- The constants were checked by computation.
get_zeroes-linked : linked (λ x. compression poseidon2 x x) get_zeroes ≡ true
unfolding linked get_zeroes compression permutation_t2 permutation rounds full_sbox partial_sbox
    matmul_external matmul_internal sbox_p sum_of add_sum scale_and_add head_or_zero
    get_round_constants_t2 bn256_modulus
get_zeroes-linked = refl

linked-both : (a b : Bool) → (a && b) ≡ true → (a ≡ true) × (b ≡ true)
linked-both true b h = (refl, h)
linked-both false b h = absurd (ground arith)

linked-step :
    (f : ℕ → ℕ) (xs : List ℕ) (i : ℕ)
    → linked f xs ≡ true
    → suc i < length xs
    → f (get_or xs i 0) ≡ get_or xs (suc i) 0
unfolding linked
linked-step f [] i h lt = absurd (omega arith)
linked-step f (x ∷ []) i h lt = absurd (omega arith)
linked-step f (x ∷ y ∷ xs) zero h lt =
    (==_iff (f x) y).0 (linked-both (f x == y) (linked f (y ∷ xs)) h).0
linked-step f (x ∷ y ∷ xs) (suc i) h lt =
    linked-step f (y ∷ xs) i (linked-both (f x == y) (linked f (y ∷ xs)) h).1 (omega arith)

-- Where the host computes Poseidon2, the constants are the hashes of empty subtrees.
pub zeroes-ZeroChain :
    (host : Host)
    → IsPoseidon2 host
    → (k : ℕ) → k ≤ 32
    → ZeroChain (compression host) empty_subtree k 0
unfolding compression
zeroes-ZeroChain host computes k h i from to =
    let lt = empty_subtree-lt i (omega arith) in
    let next : i + 1 ≡ suc i = omega arith in
    rw (computes (empty_subtree i) (empty_subtree i) lt lt, next)
      (linked-step (λ x. compression poseidon2 x x) get_zeroes i get_zeroes-linked
        (omega (arith, length-get_zeroes)))
