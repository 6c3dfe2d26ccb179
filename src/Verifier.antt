-- ===== src/Verifier.antt =====
-- contracts/circom-groth16-verifier/src/lib.rs: the verifier contract. Points are their encodings,
-- and scalars are numbers. The host's curve operations are parameters, which trap (none) on what is
-- no point; the verification key is embedded by the build, a parameter too.
pub mod Combination
pub mod Equation
use stellar_private_payments.Prelude.{
  ℕ, zero, suc, ◌+◌, Bool, true, false, ◌==◌, Option, none, some, List, [], ◌∷◌, length, get_elem?,
  Outcome, ok, err, ok_or, or_panic, ensure, ◌>>=◌, ◌>>◌,
}
use stellar_private_payments.Machine.{checked_add}
use stellar_private_payments.Soroban.{Bytes}
use stellar_private_payments.Pool.State.{Groth16Proof}

pub data Groth16Error : Type 0 where
  invalid_proof malformed_public_inputs malformed_proof : Groth16Error

pub record Curve : Type 0 where
  pub g1_mul : Bytes → ℕ → Option Bytes
  pub g1_add : Bytes → Bytes → Option Bytes
  pub g1_neg : Bytes → Option Bytes
  pub pairing_check : List Bytes → List Bytes → Option Bool

pub record VerificationKey : Type 0 where
  pub alpha : Bytes
  pub beta : Bytes
  pub gamma : Bytes
  pub delta : Bytes
  pub ic : List Bytes

abbrev pub is_some_of : Option ℕ → ℕ → Bool
is_some_of none n = false
is_some_of (some m) n = m == n

-- `for i in i..i + n`: the public inputs weigh the points of the key.
unfoldable pub accumulate : Curve → List Bytes → List ℕ → ℕ → ℕ → Bytes → Outcome Groth16Error Bytes
accumulate curve ic pub_inputs zero i vk_x = ok vk_x
accumulate curve ic pub_inputs (suc n) i vk_x = do
  s ← ok_or (get_elem? pub_inputs i) malformed_public_inputs
  ic_idx ← ok_or (checked_add 32 i 1) malformed_public_inputs
  v ← ok_or (get_elem? ic ic_idx) malformed_public_inputs
  prod ← or_panic (curve.g1_mul v s)
  sum ← or_panic (curve.g1_add vk_x prod)
  accumulate curve ic pub_inputs n (i + 1) sum

abbrev pub true_or_invalid : Bool → Outcome Groth16Error Bool
true_or_invalid true = ok true
true_or_invalid false = err invalid_proof

-- e(-A, B) * e(alpha, beta) * e(vk_x, gamma) * e(C, delta) == 1
unfoldable pub check_pairings :
    Curve → VerificationKey → Groth16Proof → Bytes → Outcome Groth16Error Bool
check_pairings curve vk proof vk_x = do
  neg_a ← or_panic (curve.g1_neg proof.a)
  holds ← or_panic (
      curve.pairing_check (neg_a ∷ vk.alpha ∷ vk_x ∷ proof.c ∷ [])
        (proof.b ∷ vk.beta ∷ vk.gamma ∷ vk.delta ∷ []))
  true_or_invalid holds

unfoldable pub verify_with_vk :
    Curve → VerificationKey → Groth16Proof → List ℕ → Outcome Groth16Error Bool
verify_with_vk curve vk proof pub_inputs = do
  ensure (is_some_of (checked_add 32 (length pub_inputs) 1) (length vk.ic)) malformed_public_inputs
  vk_x ← ok_or (get_elem? vk.ic 0) malformed_public_inputs
  vk_x' ← accumulate curve vk.ic pub_inputs (length pub_inputs) 0 vk_x
  check_pairings curve vk proof vk_x'
