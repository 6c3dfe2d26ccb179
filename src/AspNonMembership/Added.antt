-- ===== src/AspNonMembership/Added.antt =====
-- The levels that `insert_leaf` adds where the path of the new key ends at another leaf.
use stellar_private_payments.Prelude.{
  ℕ, ◌+◌, ◌-◌, ◌≡◌, ◌⊎◌, inl, inr, refl, Bool, true, false, ◌&&◌, List, [], ◌∷◌, ◌++◌, length,
  arith, ok, Option, some, get_elem?, update, ◌==◌, ==_iff, From, From-next, From-head,
}
use stellar_private_payments.Poseidon.{Host, IsCanonical}
use stellar_private_payments.AspNonMembership.Insertion.{Build, build, build_round, shared}
use stellar_private_payments.AspNonMembership.Tree.{Smt, blank, leaf, digest, leaf_digest}
use stellar_private_payments.AspNonMembership.Shape.{
  Sub, self, in_left, in_right, Entry, entry_of, NoCollision, Entry-set, Entry-set_self,
}
use stellar_private_payments.AspNonMembership.Grow.{divide, Part, parts, later, fork_by}
use stellar_private_payments.AspNonMembership.Rounds.{build_round-added}

-- What the added levels leave: the new tree's node, and every node that was there.
pub record Added (host : Host) (C : Smt → Type 0) (s b : Build) (t : Smt) : Type 0 where
  pub rt_eq : b.rt ≡ digest host t
  pub old_eq : b.rt_old ≡ s.rt_old
  pub mixed_eq : b.mixed ≡ false
  pub kept : (u : Smt) → C u → Entry host s.nodes u → Entry host b.nodes u
  pub made : (u : Smt) → Sub u t → Entry host b.nodes u

Sub-fork_by :
    {u : Smt} (bit : Bool) (d c : Smt)
    → Sub u (fork_by bit d c)
    → (u ≡ fork_by bit d c) ⊎ (Sub u d ⊎ Sub u c)
Sub-fork_by true d c self = inl refl
Sub-fork_by true d c (in_left s) = inr (inl s)
Sub-fork_by true d c (in_right s) = inr (inr s)
Sub-fork_by false d c self = inl refl
Sub-fork_by false d c (in_left s) = inr (inr s)
Sub-fork_by false d c (in_right s) = inr (inl s)

self_by : (bit : Bool) (d c : Smt) → Sub (fork_by bit d c) (fork_by bit d c)
self_by bit d c = self

-- Storing the node of a fork completes it.
pub Entry-fork_by :
    (host : Host) (C : Smt → Type 0)
    → NoCollision host C
    → (nodes : ℕ → Option (List ℕ)) (bit : Bool) (d c : Smt)
    → ((u : Smt) → Sub u (fork_by bit d c) → C u)
    → ((u : Smt) → Sub u d → Entry host nodes u)
    → ((u : Smt) → Sub u c → Entry host nodes u)
    → (u : Smt) → Sub u (fork_by bit d c)
    → Entry host
        (update nodes (digest host (fork_by bit d c)) (some (entry_of host (fork_by bit d c))))
        u
Entry-fork_by host C n nodes bit d c all ed ec u s = elim (Sub-fork_by bit d c s) [
  | inl same ↦ rw same (Entry-set_self host nodes (fork_by bit d c))
  | inr (inl i) ↦
      Entry-set host C n nodes u (fork_by bit d c) (all u s) (all _ (self_by bit d c)) (ed u i)
  | inr (inr i) ↦
      Entry-set host C n nodes u (fork_by bit d c) (all u s) (all _ (self_by bit d c)) (ec u i)
]

pub only :
    (host : Host) (nodes : ℕ → Option (List ℕ)) (k v : ℕ)
    → Entry host nodes (leaf k v)
    → (u : Smt) → Sub u (leaf k v)
    → Entry host nodes u
only host nodes k v e u self = e

nothing : (host : Host) (nodes : ℕ → Option (List ℕ)) (u : Smt) → Sub u blank → Entry host nodes u
nothing host nodes u self = inl refl

unchanged :
    {host : Host} {C : Smt → Type 0} (s : Build) (t : Smt)
    → s.rt ≡ digest host t
    → s.mixed ≡ false
    → ((u : Smt) → Sub u t → Entry host s.nodes u)
    → Added host C s s t
unchanged s t rt m e = record {
  rt_eq = rt;
  old_eq = refl;
  mixed_eq = m;
  kept = λ u cu h. h;
  made = e;
}

module _ (host : Host) (canonical : IsCanonical host) (C : Smt → Type 0) (n : NoCollision host C)
    (key_bits : List Bool) (old_siblings : List ℕ) (siblings_len : ℕ) where
  -- One more of the added levels.
  extra_round :
      (i : ℕ) (bit : Bool) (d c : Smt) (s b : Build)
      → get_elem? key_bits i ≡ some bit
      → ((true && i == siblings_len - 1) ≡ true) ⊎ ((digest host d == 0) ≡ true)
      → Added host C s b c
      → ((u : Smt) → Sub u (fork_by bit d c) → C u)
      → ((u : Smt) → Sub u d → Entry host b.nodes u)
      → (b' : Build) × (build_round host key_bits old_siblings siblings_len true i (digest host d) b
          ≡ ok b')
        × Added host C s b' (fork_by bit d c)
  extra_round i bit d c s b at h a all ed = (
    _,
    build_round-added host canonical key_bits old_siblings siblings_len true i bit d c b at a.rt_eq
        a.mixed_eq h,
    record {
      rt_eq = refl;
      old_eq = a.old_eq;
      mixed_eq = refl;
      kept = λ u cu e.
          Entry-set host C n b.nodes u (fork_by bit d c) cu (all _ (self_by bit d c))
            (a.kept u cu e);
      made = Entry-fork_by host C n b.nodes bit d c all ed a.made;
    },
  )

  module _ (k v key value : ℕ) where
    -- The added levels divide the new leaf from the old one.
    pub build-divide :
        (i : ℕ) (xs bs : List Bool) (s : Build)
        → Part xs bs
        → From key_bits i bs
        → siblings_len ≡ i + (length (shared xs bs) + 1)
        → s.rt ≡ leaf_digest host key value
        → s.mixed ≡ false
        → ((u : Smt) → Sub u (divide xs bs (leaf k v) (leaf key value)) → C u)
        → Entry host s.nodes (leaf key value)
        → Entry host s.nodes (leaf k v)
        → (b : Build) × (build host key_bits old_siblings siblings_len true i
              (shared xs bs ++ leaf_digest host k v ∷ [])
              s
            ≡ ok b)
          × Added host C s b (divide xs bs (leaf k v) (leaf key value))
    unfolding divide build digest
    build-divide i (false ∷ xs) (true ∷ bs) s p from len rt m all new old =
        extra_round i true (leaf k v) (leaf key value) s s (From-head key_bits i true bs from)
          (inl ((==_iff i (siblings_len - 1)).1 (omega arith)))
          (unchanged s (leaf key value) rt m (only host s.nodes key value new)) all
          (only host s.nodes k v old)
    build-divide i (true ∷ xs) (false ∷ bs) s p from len rt m all new old =
        extra_round i false (leaf k v) (leaf key value) s s (From-head key_bits i false bs from)
          (inl ((==_iff i (siblings_len - 1)).1 (omega arith)))
          (unchanged s (leaf key value) rt m (only host s.nodes key value new)) all
          (only host s.nodes k v old)
    build-divide i (true ∷ xs) (true ∷ bs) s (later p) from len rt m all new old =
        let (b, run, a) =
          build-divide (i + 1) xs bs s p (From-next key_bits i true bs from) (omega arith) rt m
            (λ u j. all u (in_right j)) new old in
        let (b', run', a') =
          extra_round i true blank _ s b (From-head key_bits i true bs from) (inr refl) a all
            (nothing host b.nodes) in
        (b', rw run run', a')
    build-divide i (false ∷ xs) (false ∷ bs) s (later p) from len rt m all new old =
        let (b, run, a) =
          build-divide (i + 1) xs bs s p (From-next key_bits i false bs from) (omega arith) rt m
            (λ u j. all u (in_left j)) new old in
        let (b', run', a') =
          extra_round i false blank _ s b (From-head key_bits i false bs from) (inr refl) a all
            (nothing host b.nodes) in
        (b', rw run run', a')
    build-divide i (true ∷ xs) (true ∷ bs) s (parts ne) from len rt m all new old = absurd (ne refl)
    build-divide i (false ∷ xs) (false ∷ bs) s (parts ne) from len rt m all new old =
        absurd (ne refl)
    build-divide i [] bs s p from len rt m all new old = elim p [ ]
    build-divide i (true ∷ xs) [] s p from len rt m all new old = elim p [ ]
    build-divide i (false ∷ xs) [] s p from len rt m all new old = elim p [ ]
