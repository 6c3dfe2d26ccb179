-- ===== src/Examples/VerifierRuns.antt =====
-- Groups of numbers modulo 101, a key of three points, and the verifier's theorem there.
use native.Mathlib.Nat.{mod-mod}
use stellar_private_payments.Prelude.{
  ℕ, ◌+◌, ◌-◌, ◌*◌, ◌%◌, ◌≡◌, ◌≢◌, ◌⊎◌, refl, true, some, List, [], ◌∷◌, ◌==◌, length, ok, err,
  arith, if◌then◌else◌, get_or,
}
use stellar_private_payments.Soroban.{Bytes}
use stellar_private_payments.Pool.State.{Groth16Proof}
use stellar_private_payments.Verifier.{
  Curve, VerificationKey, malformed_public_inputs, invalid_proof, accumulate, check_pairings,
  verify_with_vk,
}
use stellar_private_payments.Verifier.Equation.{
  PairingGroups, OnCurve, pairing_sum, equation, weighted, verify_with_vk-equation,
}

-- A point is one byte, its logarithm.
abbrev log_of : Bytes → ℕ
log_of p = get_or p 0 0

abbrev numbers : Curve
numbers = record {
  g1_mul = λ p s. some ((log_of p * s % 101) ∷ []);
  g1_add = λ p q. some (((log_of p + log_of q) % 101) ∷ []);
  g1_neg = λ p. some ((101 - log_of p % 101) ∷ []);
  pairing_check = λ ps qs. some (pairing_sum log_of log_of ps qs % 101 == 0);
}

abbrev groups : PairingGroups numbers
groups = record {
  order = 101;
  IsG1 = λ p. Unit;
  IsG2 = λ p. Unit;
  log1 = log_of;
  log2 = log_of;
  mul = λ p s g. ((log_of p * s % 101) ∷ [], refl, tt, mod-mod (log_of p * s) 101);
  add =
      λ p q g g'. (((log_of p + log_of q) % 101) ∷ [], refl, tt, mod-mod (log_of p + log_of q) 101);
  neg = λ p g. ((101 - log_of p % 101) ∷ [], refl, tt, omega arith);
  check = λ ps qs g g' e. refl;
}

abbrev key : VerificationKey
key = record {
  alpha = 1 ∷ [];
  beta = 2 ∷ [];
  gamma = 3 ∷ [];
  delta = 4 ∷ [];
  ic = (1 ∷ []) ∷ (2 ∷ []) ∷ (3 ∷ []) ∷ [];
}

-- 9 * 9 = 1 * 2 + (1 + 2 * 5 + 3 * 2) * 3 + 7 * 4
abbrev proof : Groth16Proof
proof = record { a = 9 ∷ []; b = 9 ∷ []; c = 7 ∷ [] }

abbrev inputs : List ℕ
inputs = 5 ∷ 2 ∷ []

abbrev points : List Bytes
points = (2 ∷ []) ∷ (3 ∷ []) ∷ []

verified : verify_with_vk numbers key proof inputs ≡ ok true
unfolding verify_with_vk accumulate check_pairings
verified = refl

refused : verify_with_vk numbers key proof (5 ∷ 3 ∷ []) ≡ err invalid_proof
unfolding verify_with_vk accumulate check_pairings
refused = refl

on_curve : OnCurve numbers groups key proof
on_curve = record {
  alpha = tt;
  ic = (tt, (tt, (tt, tt)));
  beta = tt;
  gamma = tt;
  delta = tt;
  a = tt;
  b = tt;
  c = tt;
}

verify_with_vk-equation_example :
    ((length inputs ≡ length points)
      × (verify_with_vk numbers key proof inputs ≡ (
          if equation numbers groups key proof (weighted log_of 1 points inputs)
          then ok true
          else err invalid_proof)))
    ⊎ ((length inputs ≢ length points)
        × (verify_with_vk numbers key proof inputs ≡ err malformed_public_inputs))
verify_with_vk-equation_example =
    verify_with_vk-equation numbers groups key proof inputs (1 ∷ []) points refl on_curve
      (omega arith)
