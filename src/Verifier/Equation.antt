-- ===== src/Verifier/Equation.antt =====
-- What the verification decides: the Groth16 equation between the discrete logarithms of the points.
use native.Mathlib.Nat.{
  mod-add-div, add-mul, mul_assoc, add-mul-mod_self_left, add-mod-mod, mod-add-mod,
}
use stellar_private_payments.Prelude.{
  ℕ, ◌+◌, ◌*◌, ◌/◌, ◌%◌, ◌^◌, ◌<◌, ◌≡◌, ◌≢◌, ◌⊎◌, inl, inr, refl, sym, ap, ◌∙◌, ◌==◌, true, false,
  Bool, some, List, [], ◌∷◌, length, All, ok, err, if◌then◌else◌, ◌>>=◌, arith, ==_iff, Bool-cases,
}
use stellar_private_payments.Soroban.{Bytes}
use stellar_private_payments.Pool.State.{Groth16Proof}
use stellar_private_payments.Verifier.{
  malformed_public_inputs, invalid_proof, Curve, VerificationKey, check_pairings, true_or_invalid,
  verify_with_vk,
}
use stellar_private_payments.Verifier.Combination.{combination, verify_with_vk-combination}

-- The sum of the products, pair by pair.
abbrev pub pairing_sum : (Bytes → ℕ) → (Bytes → ℕ) → List Bytes → List Bytes → ℕ
pairing_sum log1 log2 (p ∷ ps) (q ∷ qs) = log1 p * log2 q + pairing_sum log1 log2 ps qs
pairing_sum log1 log2 _ _ = 0

-- What the host documents: the operations are total on points, which form two groups of one order,
-- and the pairing check decides whether the product of the pairings is one. `log1` and `log2` are
-- logarithms to fixed generators.
pub record PairingGroups (curve : Curve) : Type 1 where
  pub order : ℕ
  pub IsG1 : Bytes → Type 0
  pub IsG2 : Bytes → Type 0
  pub log1 : Bytes → ℕ
  pub log2 : Bytes → ℕ
  pub mul :
      (p : Bytes) (s : ℕ)
      → IsG1 p
      → (q : Bytes) × (curve.g1_mul p s ≡ some q) × IsG1 q × (log1 q % order ≡ log1 p * s % order)
  pub add :
      (p p' : Bytes)
      → IsG1 p
      → IsG1 p'
      → (q : Bytes) × (curve.g1_add p p' ≡ some q)
        × IsG1 q
        × (log1 q % order ≡ (log1 p + log1 p') % order)
  pub neg :
      (p : Bytes)
      → IsG1 p
      → (q : Bytes) × (curve.g1_neg p ≡ some q) × IsG1 q × ((log1 p + log1 q) % order ≡ 0 % order)
  pub check :
      (ps qs : List Bytes)
      → All IsG1 ps
      → All IsG2 qs
      → length ps ≡ length qs
      → curve.pairing_check ps qs ≡ some (pairing_sum log1 log2 ps qs % order == 0 % order)

mul-mod : (a c r : ℕ) → a % r * c % r ≡ a * c % r
mul-mod a c r =
    let split : a * c ≡ a % r * c + r * (a / r * c) =
      ap (λ x. x * c) (sym (mod-add-div a r))
      ∙ add-mul (a % r) (r * (a / r)) c
      ∙ ap (λ x. a % r * c + x) (mul_assoc r (a / r) c) in
    sym (ap (λ x. x % r) split ∙ add-mul-mod_self_left (a % r * c) r (a / r * c))

-- Equal remainders stay equal under products and sums.
same-mul : (a b c r : ℕ) → a % r ≡ b % r → a * c % r ≡ b * c % r
same-mul a b c r h = sym (mul-mod a c r) ∙ ap (λ x. x * c % r) h ∙ mul-mod b c r

same-add : (a b c r : ℕ) → a % r ≡ b % r → (a + c) % r ≡ (b + c) % r
same-add a b c r h = sym (mod-add-mod a r c) ∙ ap (λ x. (x + c) % r) h ∙ mod-add-mod b r c

same-add_left : (a b c r : ℕ) → a % r ≡ b % r → (c + a) % r ≡ (c + b) % r
same-add_left a b c r h = sym (add-mod-mod c a r) ∙ ap (λ x. (c + x) % r) h ∙ add-mod-mod c b r

-- Where n is minus p, the one side is zero exactly if the other two are equal.
moved-to : (p n b s r : ℕ) → (p + n) % r ≡ 0 % r → (n * b + s) % r ≡ 0 % r → p * b % r ≡ s % r
moved-to p n b s r opposite h =
    let e1 : p * b + (n * b + s) ≡ (p + n) * b + s = rw (add-mul p n b) (omega arith) in
    let e2 : p * b ≡ p * b + 0 = omega arith in
    ap (λ x. x % r) e2
    ∙ sym (same-add_left (n * b + s) 0 (p * b) r h)
    ∙ ap (λ x. x % r) e1
    ∙ same-add ((p + n) * b) (0 * b) s r (same-mul (p + n) 0 b r opposite)
    ∙ ap (λ x. x % r) (let z : 0 * b + s ≡ s = omega arith in z)

moved-back : (p n b s r : ℕ) → (p + n) % r ≡ 0 % r → p * b % r ≡ s % r → (n * b + s) % r ≡ 0 % r
moved-back p n b s r opposite h =
    let e1 : n * b + p * b ≡ (p + n) * b = rw (add-mul p n b) (omega arith) in
    sym (same-add_left (p * b) s (n * b) r h)
    ∙ ap (λ x. x % r) e1
    ∙ same-mul (p + n) 0 b r opposite
    ∙ ap (λ x. x % r) (let z : 0 * b ≡ 0 = omega arith in z)

-- Two tests of equivalent equations agree.
same_test : (a b c d : ℕ) → (a ≡ b → c ≡ d) → (c ≡ d → a ≡ b) → (a == b) ≡ (c == d)
same_test a b c d to from = elim (Bool-cases (a == b)) [
  | inl e ↦ let f = to ((==_iff a b).0 e) in rw (e, (==_iff c d).1 f) refl
  | inr e ↦ elim (Bool-cases (c == d)) [
    | inl f ↦ let g = (==_iff a b).1 (from ((==_iff c d).0 f)) in absurd (ground arith)
    | inr f ↦ rw (e, f) refl
  ]
]

-- The test of the pairings, for n that is minus p, and x up to multiples of r.
moved_test :
    (p n b m x y g k r : ℕ)
    → (p + n) % r ≡ 0 % r
    → y % r ≡ x % r
    → ((n * b + (m + (y * g + (k + 0)))) % r == 0 % r) ≡ (p * b % r == (m + (x * g + k)) % r)
moved_test p n b m x y g k r opposite h =
    let sums : (m + (y * g + (k + 0))) % r ≡ (m + (x * g + k)) % r =
      let e : y * g + (k + 0) ≡ y * g + k = omega arith in
      rw e (
        same-add_left (y * g + k) (x * g + k) m r
          (same-add (y * g) (x * g) k r (same-mul y x g r h))) in
    same_test ((n * b + (m + (y * g + (k + 0)))) % r) (0 % r) (p * b % r) ((m + (x * g + k)) % r)
      (λ e. moved-to p n b (m + (y * g + (k + 0))) r opposite e ∙ sums)
      (λ e. moved-back p n b (m + (y * g + (k + 0))) r opposite (e ∙ sym sums))

-- The points of the key weighed by the inputs.
abbrev pub weighted : (Bytes → ℕ) → ℕ → List Bytes → List ℕ → ℕ
weighted log acc (v ∷ vs) (s ∷ ss) = weighted log (acc + log v * s) vs ss
weighted log acc _ _ = acc

true_or_invalid-if : (b : Bool) → true_or_invalid b ≡ (if b then ok true else err invalid_proof)
true_or_invalid-if true = refl
true_or_invalid-if false = refl

module _ (curve : Curve) (groups : PairingGroups curve) where
  same-weighted :
      (vs : List Bytes) (ss : List ℕ) (a b : ℕ)
      → a % groups.order ≡ b % groups.order
      → weighted groups.log1 a vs ss % groups.order ≡ weighted groups.log1 b vs ss % groups.order
  same-weighted [] ss a b h = h
  same-weighted (v ∷ vs) [] a b h = h
  same-weighted (v ∷ vs) (s ∷ ss) a b h =
      same-weighted vs ss (a + groups.log1 v * s) (b + groups.log1 v * s)
        (same-add a b (groups.log1 v * s) groups.order h)

  -- On points the combination is a point, of the weighted logarithm.
  combination-weighted :
      (vs : List Bytes) (ss : List ℕ) (acc : Bytes)
      → groups.IsG1 acc
      → All groups.IsG1 vs
      → (q : Bytes) × (combination curve acc vs ss ≡ ok q)
        × groups.IsG1 q
        × (groups.log1 q % groups.order
            ≡ weighted groups.log1 (groups.log1 acc) vs ss % groups.order)
  combination-weighted [] ss acc g gs = (acc, refl, g, refl)
  combination-weighted (v ∷ vs) [] acc g gs = (acc, refl, g, refl)
  combination-weighted (v ∷ vs) (s ∷ ss) acc g gs =
      let (prod, e1, g1, l1) = groups.mul v s gs.0 in
      let (sum, e2, g2, l2) = groups.add acc prod g g1 in
      let (q, e3, g3, l3) = combination-weighted vs ss sum g2 gs.1 in
      (
        q,
        rw (e1, e2) e3,
        g3,
        l3
            ∙ same-weighted vs ss (groups.log1 sum) (groups.log1 acc + groups.log1 v * s) (
                l2
                ∙ same-add_left (groups.log1 prod) (groups.log1 v * s) (groups.log1 acc)
                    groups.order l1),
      )

  -- The points of the key and of the proof are points of their groups.
  pub record OnCurve (vk : VerificationKey) (proof : Groth16Proof) : Type 0 where
    pub alpha : groups.IsG1 vk.alpha
    pub ic : All groups.IsG1 vk.ic
    pub beta : groups.IsG2 vk.beta
    pub gamma : groups.IsG2 vk.gamma
    pub delta : groups.IsG2 vk.delta
    pub a : groups.IsG1 proof.a
    pub b : groups.IsG2 proof.b
    pub c : groups.IsG1 proof.c

  -- A * B = alpha * beta + x * gamma + C * delta, between logarithms, where x are the points of the
  -- key weighed by the inputs.
  abbrev pub equation : VerificationKey → Groth16Proof → ℕ → Bool
  equation vk proof x =
      groups.log1 proof.a * groups.log2 proof.b % groups.order
      == (groups.log1 vk.alpha * groups.log2 vk.beta
          + (x * groups.log2 vk.gamma + groups.log1 proof.c * groups.log2 vk.delta))
        % groups.order

  check_pairings-equation :
      (vk : VerificationKey) (proof : Groth16Proof) (vk_x : Bytes) (x : ℕ)
      → OnCurve vk proof
      → groups.IsG1 vk_x
      → groups.log1 vk_x % groups.order ≡ x % groups.order
      → check_pairings curve vk proof vk_x
        ≡ (if equation vk proof x then ok true else err invalid_proof)
  unfolding check_pairings
  check_pairings-equation vk proof vk_x x on g h =
      let (neg_a, e, ga, opposite) = groups.neg proof.a on.a in
      let checked =
        groups.check (neg_a ∷ vk.alpha ∷ vk_x ∷ proof.c ∷ [])
          (proof.b ∷ vk.beta ∷ vk.gamma ∷ vk.delta ∷ []) (ga, (on.alpha, (g, (on.c, tt))))
          (on.b, (on.beta, (on.gamma, (on.delta, tt)))) refl in
      let test =
        moved_test (groups.log1 proof.a) (groups.log1 neg_a) (groups.log2 proof.b)
          (groups.log1 vk.alpha * groups.log2 vk.beta) x (groups.log1 vk_x) (groups.log2 vk.gamma)
          (groups.log1 proof.c * groups.log2 vk.delta) groups.order opposite h in
      rw (e, checked, test) (true_or_invalid-if (equation vk proof x))

-- For points that form groups with a pairing, and a key of one point more than there are inputs,
-- fewer than 2^32, the verifier answers true where the Groth16 equation holds, and otherwise refuses
-- the proof as invalid. With any other number of points it refuses the inputs as malformed.
pub verify_with_vk-equation :
    (curve : Curve) (groups : PairingGroups curve) (vk : VerificationKey) (proof : Groth16Proof)
    (pub_inputs : List ℕ) (first : Bytes) (points : List Bytes)
    → vk.ic ≡ first ∷ points
    → OnCurve curve groups vk proof
    → length pub_inputs + 1 < 2 ^ 32
    → ((length pub_inputs ≡ length points)
        × (verify_with_vk curve vk proof pub_inputs ≡ (
            if equation curve groups vk proof
              (weighted groups.log1 (groups.log1 first) points pub_inputs)
            then ok true
            else err invalid_proof)))
      ⊎ ((length pub_inputs ≢ length points)
          × (verify_with_vk curve vk proof pub_inputs ≡ err malformed_public_inputs))
verify_with_vk-equation curve groups vk proof pub_inputs first points key on few =
    let on_ic : All groups.IsG1 (first ∷ points) = rw key at on.ic in
    elim (verify_with_vk-combination curve vk proof pub_inputs first points key few) [
      | inl (same, run) ↦
          let (vk_x, e, g, l) =
            combination-weighted curve groups points pub_inputs first on_ic.0 on_ic.1 in
          let x = weighted groups.log1 (groups.log1 first) points pub_inputs in
          let checked : (combination curve first points pub_inputs
                >>= check_pairings curve vk proof)
              ≡ check_pairings curve vk proof vk_x =
            rw e refl in
          inl (same, run ∙ checked ∙ check_pairings-equation curve groups vk proof vk_x x on g l)
      | inr refused ↦ inr refused
    ]
