-- ===== src/AspNonMembership/Rounds.antt =====
-- One round of the rebuilding in `insert_leaf`.
use stellar_private_payments.Prelude.{
  ℕ, ◌-◌, ◌≡◌, ◌⊎◌, inl, inr, refl, Bool, true, false, not, ◌&&◌, ◌||◌, List, ok, none, some,
  get_elem?, get_or, update, ltb, ◌==◌, if◌then◌else◌,
}
use stellar_private_payments.Poseidon.{Host, IsCanonical, compression}
use stellar_private_payments.AspNonMembership.Insertion.{Build, drop_old, make_new, build_round}
use stellar_private_payments.AspNonMembership.{children}
use stellar_private_payments.AspNonMembership.Tree.{Smt, digest, digest-lt}
use stellar_private_payments.AspNonMembership.Shape.{entry_of}
use stellar_private_payments.AspNonMembership.Verify.{hash_by_bit-eq-ok}
use stellar_private_payments.AspNonMembership.Grow.{fork_by}

and_false : (last : Bool) → (not last && false) ≡ false
and_false true = refl
and_false false = refl

stays_false :
    (m last low z : Bool)
    → m ≡ false
    → (last ≡ true) ⊎ (z ≡ true)
    → (m || (not last && (low && not z))) ≡ false
stays_false true last low z h e = absurd cc
stays_false false last low z h (inl e) = rw e refl
stays_false false last true z h (inr e) = rw e (and_false last)
stays_false false last false z h (inr e) = and_false last

becomes_true :
    (m last low z : Bool)
    → last ≡ false
    → (m ≡ true) ⊎ ((low ≡ true) × (z ≡ false))
    → (m || (not last && (low && not z))) ≡ true
becomes_true m last low z h (inl e) = rw e refl
becomes_true true last low z h (inr e) = refl
becomes_true false last low z h (inr e) = rw (h, e.0, e.1) refl

module _ (host : Host) (canonical : IsCanonical host) (key_bits : List Bool) where
  children-fork_by :
      (bit : Bool) (d c : Smt)
      → children bit (digest host d) (digest host c) ≡ entry_of host (fork_by bit d c)
  children-fork_by true d c = refl
  children-fork_by false d c = refl

  hash_by_bit-fork_by :
      (bit : Bool) (d c : Smt)
      → (if bit
          then compression host (digest host d) (digest host c)
          else compression host (digest host c) (digest host d))
        ≡ digest host (fork_by bit d c)
  unfolding digest
  hash_by_bit-fork_by true d c = refl
  hash_by_bit-fork_by false d c = refl

  -- The node of the tree that the round makes.
  make_new-fork_by :
      (i : ℕ) (bit : Bool) (d c : Smt) (b : Build)
      → get_elem? key_bits i ≡ some bit
      → b.rt ≡ digest host c
      → make_new host key_bits i (digest host d) b
        ≡ ok (record b {
          rt = digest host (fork_by bit d c);
          nodes =
              update b.nodes
                (digest host (fork_by bit d c))
                (some (entry_of host (fork_by bit d c)));
        })
  unfolding make_new
  make_new-fork_by i bit d c b at e =
      rw
        (
          at,
          e,
          hash_by_bit-eq-ok host canonical bit (digest host d) (digest host c)
              (digest-lt host canonical d) (digest-lt host canonical c),
          hash_by_bit-fork_by bit d c,
          children-fork_by bit d c,
        )
        refl

  -- The node of the old tree that the round removes.
  drop_old-fork_by :
      (old_siblings : List ℕ) (i : ℕ) (bit : Bool) (d c : Smt) (b : Build)
      → get_elem? key_bits i ≡ some bit
      → get_or old_siblings i 0 ≡ digest host d
      → b.mixed ≡ true
      → b.rt_old ≡ digest host c
      → drop_old host false old_siblings key_bits i b
        ≡ ok (record b {
          rt_old = digest host (fork_by bit d c);
          nodes = update b.nodes (digest host (fork_by bit d c)) none;
        })
  unfolding drop_old
  drop_old-fork_by old_siblings i bit d c b at sib m e =
      rw
        (
          at,
          m,
          sib,
          e,
          hash_by_bit-eq-ok host canonical bit (digest host d) (digest host c)
              (digest-lt host canonical d) (digest-lt host canonical c),
          hash_by_bit-fork_by bit d c,
        )
        refl

  module _ (old_siblings : List ℕ) (siblings_len : ℕ) (added_one : Bool) where
    -- A round of the levels that a collision adds.
    pub build_round-added :
        (i : ℕ) (bit : Bool) (d c : Smt) (b : Build)
        → get_elem? key_bits i ≡ some bit
        → b.rt ≡ digest host c
        → b.mixed ≡ false
        → ((added_one && i == siblings_len - 1) ≡ true) ⊎ ((digest host d == 0) ≡ true)
        → build_round host key_bits old_siblings siblings_len added_one i (digest host d) b
          ≡ ok (record {
            rt = digest host (fork_by bit d c);
            rt_old = b.rt_old;
            mixed = false;
            nodes =
                update b.nodes
                  (digest host (fork_by bit d c))
                  (some (entry_of host (fork_by bit d c)));
          })
    unfolding build_round drop_old
    build_round-added i bit d c b at e m h =
        let low = ltb i (siblings_len - 1) in
        let stays =
          stays_false b.mixed (added_one && i == siblings_len - 1) low (digest host d == 0) m h in
        rw stays (make_new-fork_by i bit d c (record b { mixed = false }) at e)

    -- A round of the levels that the old tree has.
    pub build_round-old :
        (i : ℕ) (bit : Bool) (d c c' : Smt) (b : Build)
        → get_elem? key_bits i ≡ some bit
        → get_or old_siblings i 0 ≡ digest host d
        → b.rt ≡ digest host c'
        → b.rt_old ≡ digest host c
        → (added_one && i == siblings_len - 1) ≡ false
        → (b.mixed ≡ true) ⊎ ((ltb i (siblings_len - 1) ≡ true) × ((digest host d == 0) ≡ false))
        → build_round host key_bits old_siblings siblings_len added_one i (digest host d) b
          ≡ ok (record {
            rt = digest host (fork_by bit d c');
            rt_old = digest host (fork_by bit d c);
            mixed = true;
            nodes =
                update
                  (update b.nodes (digest host (fork_by bit d c)) none)
                  (digest host (fork_by bit d c'))
                  (some (entry_of host (fork_by bit d c')));
          })
    unfolding build_round
    build_round-old i bit d c c' b at sib e e_old last m =
        let low = ltb i (siblings_len - 1) in
        let all = added_one && i == siblings_len - 1 in
        let mixes = becomes_true b.mixed all low (digest host d == 0) last m in
        rw
          (
            mixes,
            last,
            drop_old-fork_by old_siblings i bit d c (record b { mixed = true }) at sib refl e_old,
          )
          (make_new-fork_by i bit d c' _ at e)
