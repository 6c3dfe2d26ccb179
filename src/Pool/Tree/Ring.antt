-- ===== src/Pool/Tree/Ring.antt =====
-- The ring buffer of roots holds the last `root_history_size` roots, and `is_known_root` finds
-- exactly these.
use stellar_private_payments.Prelude.{
  ℕ, zero, suc, ◌+◌, ◌-◌, ◌%◌, ◌<◌, ◌^◌, lt→ltb, if◌then◌else◌, ◌≡◌, ◌≢◌, ◌↔◌, refl, sym, ◌∙◌, ap,
  Bool, true, false, ◌||◌, Option, none, some, List, ◌∷◌, arith, ◌==◌, get_elem?, update, Outcome,
  ok, Bool-cases, inl, inr, ==_ne, ==_refl, ==_iff,
}
use stellar_private_payments.Merkle.Frontier.{Levels}
use stellar_private_payments.Pool.Tree.{
  MerkleTree, MerkleError, root_history_size, holds, search_roots, is_known_root,
}

-- `roots` are all roots of the tree from the newest to the oldest. The slot `j` places behind
-- `current` holds the root that `j` insertions have followed.
abbrev pub Ring : Levels → ℕ → List ℕ → Type 0
Ring slot current roots =
    (j : ℕ)
    → j < root_history_size
    → slot ((current + root_history_size - j) % root_history_size) ≡ get_elem? roots j

-- Writing the new root in the next slot.
pub Ring-cons :
    (slot : Levels) (current r : ℕ) (roots : List ℕ)
    → current < root_history_size
    → Ring slot current roots
    → let next_slot = (current + 1) % root_history_size in
      Ring (update slot next_slot (some r)) next_slot (r ∷ roots)
Ring-cons slot current r roots h ring zero lt =
    let e : ((current + 1) % 90 + 90 - 0) % 90 ≡ (current + 1) % 90 = omega arith in
    rw (e, ==_refl ((current + 1) % 90)) refl
Ring-cons slot current r roots h ring (suc j) lt =
    let e : ((current + 1) % 90 + 90 - suc j) % 90 ≡ (current + 90 - j) % 90 = omega arith in
    let n : (current + 90 - j) % 90 ≢ (current + 1) % 90 = omega arith in
    rw (e, ==_ne ((current + 90 - j) % 90) ((current + 1) % 90) n) (ring j (omega arith))

module _ (t : MerkleTree) (r current : ℕ) where
  -- One of the `n` slots from the one `d` places after `current` holds the root.
  seen : ℕ → ℕ → Bool
  seen zero d = false
  seen (suc n) d = holds (t.root ((current + d) % root_history_size)) r || seen n (d + 1)

  -- One round, from a slot of the buffer.
  search_roots-suc :
      (fuel i : ℕ)
      → i < root_history_size
      → search_roots (suc fuel) t r current i ≡ (
          if holds (t.root i) r
          then ok true
          else if (i + 1) % root_history_size == current
          then ok false
          else search_roots fuel t r current ((i + 1) % root_history_size))
  unfolding search_roots
  search_roots-suc fuel i h = rw (lt→ltb (i + 1) (2 ^ 32) (omega arith)) refl

  found_or :
      (b : Bool) {rest : Outcome MerkleError Bool} {s : Bool}
      → rest ≡ ok s
      → (if b then ok true else rest) ≡ ok (b || s)
  found_or true e = refl
  found_or false e = e

  search_roots-seen :
      (n d : ℕ)
      → current < root_history_size
      → suc n + d ≡ root_history_size
      → search_roots (suc n) t r current ((current + d) % root_history_size) ≡ ok (seen (suc n) d)
  unfolding seen
  search_roots-seen zero d c e =
      let back : ((current + d) % 90 + 1) % 90 ≡ current = omega arith in
      rw (search_roots-suc zero ((current + d) % 90) (omega arith), back, ==_refl current)
        (found_or _ refl)
  search_roots-seen (suc n) d c e =
      let i : ((current + d) % 90 + 1) % 90 ≡ (current + (d + 1)) % 90 = omega arith in
      let on : (current + (d + 1)) % 90 ≢ current = omega arith in
      rw (search_roots-suc (suc n) ((current + d) % 90) (omega arith), i, ==_ne _ current on)
        (found_or _ (search_roots-seen n (d + 1) c (omega arith)))

  holds-some : (o : Option ℕ) → holds o r ≡ true → o ≡ some r
  holds-some none h = cc
  holds-some (some x) h = ap some ((==_iff x r).0 h)

  seen-slot :
      (n d : ℕ)
      → seen n d ≡ true
      → (i : ℕ) × (i < n) × (t.root ((current + (d + i)) % root_history_size) ≡ some r)
  unfolding seen
  seen-slot zero d h = cc
  seen-slot (suc n) d h = elim (Bool-cases (holds (t.root ((current + d) % 90)) r)) [
    | inl here ↦
        let same : d + 0 ≡ d = omega arith in
        (0, omega arith, rw same (holds-some (t.root ((current + d) % 90)) here))
    | inr there ↦
        let (i, lt, e) = seen-slot n (d + 1) (ground arith) in
        let same : d + (i + 1) ≡ d + 1 + i = omega arith in (i + 1, omega arith, rw same e)
  ]

  slot-seen :
      (n d i : ℕ)
      → i < n
      → t.root ((current + (d + i)) % root_history_size) ≡ some r
      → seen n d ≡ true
  unfolding seen
  slot-seen zero d i h e = absurd (omega arith)
  slot-seen (suc n) d zero h e =
      let same : d + 0 ≡ d = omega arith in rw (rw same at e, ==_refl r) refl
  slot-seen (suc n) d (suc i) h e =
      let same : d + suc i ≡ d + 1 + i = omega arith in
      ground (arith, slot-seen n (d + 1) i (omega arith) (rw same at e))

-- A root is known exactly when it is one of the last `root_history_size` roots, and not zero.
pub is_known_root_iff :
    (t : MerkleTree) (current : ℕ) (roots : List ℕ) (r : ℕ)
    → t.current_root_index ≡ some current
    → current < root_history_size
    → Ring t.root current roots
    → (known : Bool) × (is_known_root t r ≡ ok known)
      × ((known ≡ true)
          ↔ ((r ≢ 0) × ((j : ℕ) × (j < root_history_size) × (get_elem? roots j ≡ some r))))
unfolding is_known_root
is_known_root_iff t current roots zero e h ring = (false, refl, ((λ f. cc), λ p. absurd (p.0 refl)))
is_known_root_iff t current roots (suc r) e h ring =
    let start : (current + 0) % 90 ≡ current = omega arith in
    (
      seen t (suc r) current 90 0,
      simp (==_ne (suc r) 0 (λ z. omega arith), e)
          (rw start at (search_roots-seen t (suc r) current 89 0 h (omega arith))),
      (
        (λ b.
            let (i, lt, s) = seen-slot t (suc r) current 90 0 b in
            let j : ℕ = (90 - i) % 90 in
            let slot : (current + 90 - j) % 90 ≡ (current + (0 + i)) % 90 = omega arith in
            ((λ z. omega arith), (j, omega arith, sym (ring j (omega arith)) ∙ rw slot s))),
        λ (_, (j, lt, s)).
            let i : ℕ = (90 - j) % 90 in
            let slot : (current + (0 + i)) % 90 ≡ (current + 90 - j) % 90 = omega arith in
            slot-seen t (suc r) current 90 0 i (omega arith) (rw slot (ring j lt ∙ s)),
      ),
    )
