-- ===== src/Merkle/Root.antt =====
-- The root of a perfect tree, and the root that a prefix of its leaves has when every missing
-- subtree of a level counts as that level's empty hash.
use mathlib.Core.Path.{fun_ext, ◌∙◌}
use native.Mathlib.Nat.{pow-suc}
use stellar_private_payments.Prelude.{
  ℕ, zero, suc, ◌+◌, ◌^◌, ◌≤◌, ◌<◌, ◌≡◌, refl, ap, List, [], ◌∷◌, ◌++◌, arith, length, get_or,
}
use stellar_private_payments.Merkle.Levels.{pairs, next, pending, parent, next-append, length-pairs}

module _ {ℓ} {A : Type ℓ} (hash : A → A → A) where
  -- The root of the perfect binary tree of a depth: each level is hashed pair by pair.
  unfoldable pub perfect_root : ℕ → (ℕ → A) → A
  perfect_root zero leaf = leaf 0
  perfect_root (suc d) leaf = perfect_root d (λ i. hash (leaf (i + i)) (leaf (suc (i + i))))

module _ {ℓ} {A : Type ℓ} (hash : A → A → A) (empty : ℕ → A) where
  -- `k` levels above level `lvl`, whose nodes are `xs` and then empty subtrees.
  unfoldable pub prefix_root : ℕ → ℕ → List A → A
  prefix_root zero lvl xs = get_or xs 0 (empty lvl)
  prefix_root (suc k) lvl xs = prefix_root k (lvl + 1) (next hash (empty lvl) xs)

  -- What reaches the top from the node `h` that follows the complete nodes `xs`.
  unfoldable pub top : ℕ → ℕ → List A → A → A
  top zero lvl xs h = h
  top (suc k) lvl xs h = top k (lvl + 1) (pairs hash xs) (parent hash (empty lvl) (pending xs) h)

  -- The empty subtree of a level is the hash of two empty subtrees of the level below.
  abbrev pub ZeroChain : ℕ → ℕ → Type ℓ
  ZeroChain k lvl = (i : ℕ) → lvl ≤ i → i < lvl + k → hash (empty i) (empty i) ≡ empty (i + 1)

  -- The root of the empty tree is the topmost empty subtree.
  pub prefix_root-nil : (k lvl : ℕ) → prefix_root k lvl [] ≡ empty (lvl + k)
  unfolding prefix_root next
  prefix_root-nil zero lvl = let e : lvl + zero ≡ lvl = omega arith in rw e refl
  prefix_root-nil (suc k) lvl =
      let e : lvl + suc k ≡ lvl + 1 + k = omega arith in rw e (prefix_root-nil k (lvl + 1))

  top-prefix_root_nil :
      (lvl : ℕ) (xs : List A) (h : A) → length xs < 1 → h ≡ prefix_root zero lvl (xs ++ h ∷ [])
  unfolding prefix_root
  top-prefix_root_nil lvl [] h e = refl
  top-prefix_root_nil lvl (x ∷ xs) h e = absurd (omega arith)

  -- The climb from a new last node computes the root of the prefix with that node.
  pub top-prefix_root :
      (k lvl : ℕ) (xs : List A) (h : A)
      → length xs < 2 ^ k
      → top k lvl xs h ≡ prefix_root k lvl (xs ++ h ∷ [])
  unfolding top prefix_root
  top-prefix_root zero lvl xs h e = top-prefix_root_nil lvl xs h e
  top-prefix_root (suc k) lvl xs h e = rw (next-append hash (empty lvl) xs h) (
      top-prefix_root k (lvl + 1) (pairs hash xs) (parent hash (empty lvl) (pending xs) h)
        (omega (arith, length-pairs hash xs, pow-suc 2 k)))

module _ {ℓ} {A : Type ℓ} (hash : A → A → A) where
  pub get_or-next :
      (e : A) (xs : List A) (i : ℕ)
      → get_or (next hash e xs) i (hash e e)
        ≡ hash (get_or xs (i + i) e) (get_or xs (suc (i + i)) e)
  unfolding next
  get_or-next e [] i = refl
  get_or-next e (a ∷ []) zero = refl
  get_or-next e (a ∷ []) (suc i) =
      let two : suc i + suc i ≡ suc (suc (i + i)) = omega arith in rw two refl
  get_or-next e (a ∷ b ∷ r) zero = refl
  get_or-next e (a ∷ b ∷ r) (suc i) =
      let two : suc i + suc i ≡ suc (suc (i + i)) = omega arith in rw two (get_or-next e r i)

  pub pointwise-perfect_root :
      (d : ℕ) (f g : ℕ → A) → ((i : ℕ) → f i ≡ g i) → perfect_root hash d f ≡ perfect_root hash d g
  pointwise-perfect_root d f g h = ap (perfect_root hash d) (fun_ext h)

  -- If each level's empty hash is the hash of two below it, the root of a prefix is the root of the
  -- perfect tree whose missing leaves are empty.
  pub prefix_root-perfect_root :
      (empty : ℕ → A) (k lvl : ℕ) (xs : List A)
      → ZeroChain hash empty k lvl
      → prefix_root hash empty k lvl xs ≡ perfect_root hash k (λ i. get_or xs i (empty lvl))
  unfolding prefix_root perfect_root
  prefix_root-perfect_root empty zero lvl xs chain = refl
  prefix_root-perfect_root empty (suc k) lvl xs chain =
      prefix_root-perfect_root empty k (lvl + 1) (next hash (empty lvl) xs)
        (λ i from to. chain i (omega arith) (omega arith))
      ∙ pointwise-perfect_root k _ _ (λ i.
        let z : hash (empty lvl) (empty lvl) ≡ empty (lvl + 1) =
          chain lvl (omega arith) (omega arith) in
        rw (← z) (get_or-next (empty lvl) xs i))
