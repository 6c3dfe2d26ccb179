-- ===== src/Verifier/Combination.antt =====
-- The point that the public inputs give, without indices.
use stellar_private_payments.Prelude.{
  From, From-next, From-head, ℕ, suc, ◌+◌, ◌^◌, ◌<◌, ◌≡◌, ◌≢◌, ◌⊎◌, inl, inr, refl, ap, ◌==◌, List,
  [], ◌∷◌, length, get_elem?, Outcome, ok, err, or_panic, ◌>>=◌, arith, lt→ltb, ==_iff, Bool-cases,
}
use mathlib.Core.Path.{fun_ext}
use stellar_private_payments.Soroban.{Bytes}
use stellar_private_payments.Pool.State.{Groth16Proof}
use stellar_private_payments.Verifier.{
  Groth16Error, malformed_public_inputs, Curve, VerificationKey, accumulate, check_pairings,
  verify_with_vk,
}

-- The sum of the points, each times its scalar, on top of the first point.
abbrev pub combination : Curve → Bytes → List Bytes → List ℕ → Outcome Groth16Error Bytes
combination curve acc (v ∷ vs) (s ∷ ss) = do
  prod ← or_panic (curve.g1_mul v s)
  sum ← or_panic (curve.g1_add acc prod)
  combination curve sum vs ss
combination curve acc _ _ = ok acc

module _ (curve : Curve) (ic : List Bytes) (pub_inputs : List ℕ) where
  accumulate-combination :
      (ss : List ℕ) (vs : List Bytes) (i : ℕ) (acc : Bytes)
      → length ss ≡ length vs
      → i + length ss < 2 ^ 32
      → From pub_inputs i ss
      → From ic (i + 1) vs
      → accumulate curve ic pub_inputs (length ss) i acc ≡ combination curve acc vs ss
  unfolding accumulate
  accumulate-combination [] [] i acc e h p q = refl
  accumulate-combination [] (v ∷ vs) i acc e h p q = refl
  accumulate-combination (s ∷ ss) [] i acc e h p q = absurd (omega arith)
  accumulate-combination (s ∷ ss) (v ∷ vs) i acc e h p q =
      rw
        (
          From-head pub_inputs i s ss p,
          lt→ltb (i + 1) (2 ^ 32) (omega arith),
          From-head ic (i + 1) v vs q,
        )
        (ap (λ k. or_panic (curve.g1_mul v s) >>= λ prod. or_panic (curve.g1_add acc prod) >>= k)
          (fun_ext λ sum.
            accumulate-combination ss vs (i + 1) sum (omega arith) (omega arith)
              (From-next pub_inputs i s ss p) (From-next ic (i + 1) v vs q)))

From-tail : (first : Bytes) (points : List Bytes) → From (first ∷ points) (0 + 1) points
From-tail first points j = let e : 0 + 1 + j ≡ suc j = omega arith in rw e refl

-- With a key of one point more than there are inputs, fewer than 2^32, the proof is checked against
-- the first point and the sum of the others, each times its input. With any other number of points
-- the inputs are refused as malformed.
pub verify_with_vk-combination :
    (curve : Curve) (vk : VerificationKey) (proof : Groth16Proof) (pub_inputs : List ℕ)
    (first : Bytes) (points : List Bytes)
    → vk.ic ≡ first ∷ points
    → length pub_inputs + 1 < 2 ^ 32
    → ((length pub_inputs ≡ length points)
        × (verify_with_vk curve vk proof pub_inputs
            ≡ (combination curve first points pub_inputs >>= check_pairings curve vk proof)))
      ⊎ ((length pub_inputs ≢ length points)
          × (verify_with_vk curve vk proof pub_inputs ≡ err malformed_public_inputs))
unfolding verify_with_vk
verify_with_vk-combination curve vk proof pub_inputs first points key few =
    let bound = lt→ltb (length pub_inputs + 1) (2 ^ 32) few in
    elim (Bool-cases (length pub_inputs + 1 == suc (length points))) [
      | inl fits ↦
          let same = (==_iff (length pub_inputs + 1) (suc (length points))).0 fits in
          let run =
            accumulate-combination curve (first ∷ points) pub_inputs pub_inputs points 0 first
              (omega arith) (omega arith) (λ j. ap (get_elem? pub_inputs) (omega arith))
              (From-tail first points) in
          inl (omega arith, rw (verify_with_vk, key, bound, fits, run) refl)
      | inr other ↦ inr ((λ e. ground arith), rw (verify_with_vk, key, bound, other) refl)
    ]
