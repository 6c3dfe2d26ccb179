-- ===== src/AspNonMembership/Verify.antt =====
-- Proofs that a key is not in the tree.
use stellar_private_payments.Prelude.{
  ℕ, ◌+◌, ◌<◌, ◌≡◌, ◌≢◌, ◌⊎◌, inl, inr, refl, sym, ap, ◌∙◌, Bool, true, false, Bool-cases,
  Option-cases, some, List, [], ◌∷◌, ◌==◌, ok, arith, get_elem?, From, From-next, From-head,
  ==_refl, ==_ne, if◌then◌else◌,
}
use stellar_private_payments.Poseidon.{
  Host, IsCanonical, bn256_modulus, compression, poseidon2_compress-eq-ok,
}
use stellar_private_payments.AspNonMembership.{
  AspNonMembership, Nodes, FindResult, empty_branch, at_leaf, with_sibling, find_key, split_bits,
  root_or_zero, hash_by_bit,
}
use stellar_private_payments.AspNonMembership.Proof.{
  path_root, list_eq, proof_end, check_proof, verify_non_membership,
}
use stellar_private_payments.AspNonMembership.Tree.{
  Smt, blank, leaf, fork, digest, leaf_digest, digest-lt, hash_leaf-eq-ok, Stored, In,
}
use stellar_private_payments.AspNonMembership.Find.{find_in}
use stellar_private_payments.AspNonMembership.Represents.{Represents, find_key-find_in, find_key-In}

-- The hash where a search that found nothing ended.
abbrev pub end_digest : Host → FindResult → ℕ
end_digest host r = if r.is_old0 then 0 else leaf_digest host r.not_found_key r.not_found_value

-- How a search ends that does not find the key.
pub data Ends (key : ℕ) (r : FindResult) : Type 0 where
  at_blank : r.is_old0 ≡ true → r.not_found_key ≡ key → Ends key r
  at_other :
      r.is_old0 ≡ false
      → r.not_found_key ≢ key
      → r.not_found_key < bn256_modulus
      → r.not_found_value < bn256_modulus
      → Ends key r

above_Ends :
    {key : ℕ} (sibling : ℕ) (r : FindResult) → Ends key r → Ends key (with_sibling sibling r)
above_Ends sibling r (at_blank o k) = at_blank o k
above_Ends sibling r (at_other o k a b) = at_other o k a b

module _ (host : Host) (canonical : IsCanonical host) where
  pub hash_by_bit-eq-ok :
      (bit : Bool) (sibling h : ℕ)
      → sibling < bn256_modulus
      → h < bn256_modulus
      → hash_by_bit host bit sibling h
        ≡ ok (if bit then compression host sibling h else compression host h sibling)
  unfolding hash_by_bit
  hash_by_bit-eq-ok true sibling h hs hh = poseidon2_compress-eq-ok host canonical sibling h hs hh
  hash_by_bit-eq-ok false sibling h hs hh = poseidon2_compress-eq-ok host canonical h sibling hh hs

  module _ (nodes : Nodes) (key : ℕ) where
    pub find_in-Ends :
        (bits : List Bool) (t : Smt) (r : FindResult)
        → Stored host nodes t
        → find_in host key bits t ≡ some r
        → r.found ≡ false
        → Ends key r
    unfolding find_in
    find_in-Ends bits blank r s e f = at_blank (ground arith) (ground arith)
    find_in-Ends bits (leaf k v) r (hk, hv, pos, at) e f = elim (Bool-cases (k == key)) [
      | inl same ↦ absurd (ground arith)
      | inr other ↦ at_other (ground arith) (ground arith) (ground arith) (ground arith)
    ]
    find_in-Ends [] (fork l r') r s e f = absurd cc
    find_in-Ends (true ∷ bits) (fork l r') r (pos, at, sl, sr) e f =
        elim (Option-cases (find_in host key bits r')) [
          | inl none_found ↦ absurd (ground arith)
          | inr (x, e') ↦
              let same : with_sibling (digest host l) x ≡ r = ground arith in
              rw (← same)
                (above_Ends (digest host l) x (find_in-Ends bits r' x sr e' (ground arith)))
        ]
    find_in-Ends (false ∷ bits) (fork l r') r (pos, at, sl, sr) e f =
        elim (Option-cases (find_in host key bits l)) [
          | inl none_found ↦ absurd (ground arith)
          | inr (x, e') ↦
              let same : with_sibling (digest host r') x ≡ r = ground arith in
              rw (← same)
                (above_Ends (digest host r') x (find_in-Ends bits l x sl e' (ground arith)))
        ]

    -- The siblings of an unsuccessful search lead from its end to the root.
    pub path_root-find_in :
        (key_bits : List Bool) (level : ℕ) (bits : List Bool) (t : Smt) (r : FindResult)
        → From key_bits level bits
        → find_in host key bits t ≡ some r
        → r.found ≡ false
        → path_root host key_bits level r.siblings (end_digest host r) ≡ ok (digest host t)
    unfolding find_in path_root digest
    path_root-find_in key_bits level bits blank r from e f =
        let same : empty_branch key ≡ r = ground arith in rw (← same) refl
    path_root-find_in key_bits level bits (leaf k v) r from e f = elim (Bool-cases (k == key)) [
      | inl same ↦ absurd (ground arith)
      | inr other ↦ let at : at_leaf key k v ≡ r = ground arith in rw (← at, other) refl
    ]
    path_root-find_in key_bits level [] (fork l r') r from e f = absurd cc
    path_root-find_in key_bits level (true ∷ bits) (fork l r') r from e f =
        elim (Option-cases (find_in host key bits r')) [
          | inl none_found ↦ absurd (ground arith)
          | inr (x, e') ↦
              let same : with_sibling (digest host l) x ≡ r = ground arith in
              let rest =
                path_root-find_in key_bits (level + 1) bits r' x
                  (From-next key_bits level true bits from) e' (ground arith) in
              rw (← same, rest, From-head key_bits level true bits from)
                (hash_by_bit-eq-ok true (digest host l) (digest host r')
                  (digest-lt host canonical l) (digest-lt host canonical r'))
        ]
    path_root-find_in key_bits level (false ∷ bits) (fork l r') r from e f =
        elim (Option-cases (find_in host key bits l)) [
          | inl none_found ↦ absurd (ground arith)
          | inr (x, e') ↦
              let same : with_sibling (digest host r') x ≡ r = ground arith in
              let rest =
                path_root-find_in key_bits (level + 1) bits l x
                  (From-next key_bits level false bits from) e' (ground arith) in
              rw (← same, rest, From-head key_bits level false bits from)
                (hash_by_bit-eq-ok false (digest host r') (digest host l)
                  (digest-lt host canonical r') (digest-lt host canonical l))
        ]

list_eq_refl : (xs : List ℕ) → list_eq xs xs ≡ true
list_eq_refl [] = refl
list_eq_refl (x ∷ xs) = rw (==_refl x) (list_eq_refl xs)

check_proof-true :
    (host : Host) (key root : ℕ) (x : FindResult) (siblings : List ℕ) (k v : ℕ) (answer : Bool)
    → check_proof host key root x siblings k v ≡ ok answer
    → answer ≡ true
unfolding check_proof
check_proof-true host key root x siblings k v answer h = ground arith

proof_end-Ends :
    (host : Host) (key : ℕ) (x : FindResult)
    → Ends key x
    → (x.is_old0 ≡ true) ⊎ (x.not_found_value ≢ 0)
    → proof_end host key x.not_found_key x.not_found_value ≡ ok (end_digest host x)
unfolding proof_end
proof_end-Ends host key x (at_blank old0 same) h = rw (old0, same, ==_refl key) refl
proof_end-Ends host key x (at_other old0 other hk hv) (inl e) = absurd (ground arith)
proof_end-Ends host key x (at_other old0 other hk hv) (inr e) =
    rw (old0, ==_ne x.not_found_key key other, ==_ne x.not_found_value 0 e)
      (hash_leaf-eq-ok host x.not_found_key x.not_found_value hk hv)

module _ (host : Host) (canonical : IsCanonical host) (s : AspNonMembership) (t : Smt)
    (r : Represents host s t) (key : ℕ) where
  -- The search for a key that is not in the tree gives a proof that the contract accepts, if the
  -- search ended in an empty branch, or at a leaf whose value is not zero.
  pub verify_non_membership-find_key :
      (x : FindResult)
      → find_key s key ≡ ok x
      → x.found ≡ false
      → (x.is_old0 ≡ true) ⊎ (x.not_found_value ≢ 0)
      → verify_non_membership host s key x.siblings x.not_found_key x.not_found_value ≡ ok true
  unfolding verify_non_membership check_proof
  verify_non_membership-find_key x run absent value =
      let (y, e, run') = find_key-find_in host s t r key in
      let same : y ≡ x = cc in
      let e' : find_in host key (split_bits key) t ≡ some x = e ∙ ap some same in
      let ends = find_in-Ends host canonical s.nodes key (split_bits key) t x r.stored e' absent in
      let path =
        path_root-find_in host canonical s.nodes key (split_bits key) 0 (split_bits key) t x
          (λ j. ap (get_elem? (split_bits key)) (omega arith)) e' absent in
      rw
        (
          run,
          absent,
          list_eq_refl x.siblings,
          ==_refl x.not_found_key,
          ==_refl x.not_found_value,
          proof_end-Ends host key x ends value,
          path,
          r.root_stored,
          ==_refl (digest host t),
        )
        refl

  verify_absent :
      (siblings : List ℕ) (k v : ℕ) (x : FindResult)
      → find_key s key ≡ ok x
      → x.found ≡ false
      → verify_non_membership host s key siblings k v
        ≡ check_proof host key (root_or_zero s.root) x siblings k v
  unfolding verify_non_membership
  verify_absent siblings k v x run absent = simp (run, absent)

  verify_present :
      (siblings : List ℕ) (k v : ℕ) (x : FindResult)
      → find_key s key ≡ ok x
      → x.found ≡ true
      → verify_non_membership host s key siblings k v ≡ ok false
  unfolding verify_non_membership
  verify_present siblings k v x run present = simp (run, present)

  -- Whatever proof is given, the contract answers true only for a key that is not in the tree, and
  -- false only for one that is.
  pub verify_non_membership-In :
      (siblings : List ℕ) (not_found_key not_found_value : ℕ) (answer : Bool)
      → verify_non_membership host s key siblings not_found_key not_found_value ≡ ok answer
      → ((answer ≡ true) × ((v : ℕ) → ¬ In key v t)) ⊎ ((answer ≡ false) × (v : ℕ) × In key v t)
  unfolding verify_non_membership
  verify_non_membership-In siblings not_found_key not_found_value answer h =
      let (x, run, cases) = find_key-In host s t r key in
      elim cases [
        | inl (yes_found, i) ↦
            let e =
              sym (verify_present siblings not_found_key not_found_value x run yes_found) ∙ h in
            inr (ground (arith, e), x.found_value, i)
        | inr (absent, not_in) ↦
            let h' = sym (verify_absent siblings not_found_key not_found_value x run absent) ∙ h in
            inl (
              check_proof-true host key (root_or_zero s.root) x siblings not_found_key
                  not_found_value answer h',
              not_in,
            )
      ]
