-- ===== src/ClientMerkle/Levels.antt =====
-- A level of the prefix tree, as the levels of an append-only tree.
use mathlib.Core.Path.{fun_ext}
use stellar_private_payments.Prelude.{
  ℕ, zero, suc, ◌+◌, ◌*◌, ◌/◌, ◌<◌, ◌≡◌, refl, ap, List, [], ◌∷◌, arith, length, get_or,
}
use stellar_private_payments.Poseidon.{Host, compression}
use stellar_private_payments.Merkle.Levels.{next}
use stellar_private_payments.Merkle.Root.{ZeroChain}
use stellar_private_payments.ClientMerkle.{
  poseidon2_compression, empty_chain, next_nodes, pad, level_above,
}

-- The client's compression is the contracts'.
pub poseidon2_compression-eq : (host : Host) → poseidon2_compression host ≡ compression host
unfolding poseidon2_compression compression
poseidon2_compression-eq host = fun_ext (λ l. fun_ext (λ r. refl))

-- The table of a chain of empty hashes.
abbrev pub entry : List ℕ → ℕ → ℕ
entry empty i = get_or empty i 0

module _ (host : Host) where
  next_nodes-next :
      (e : ℕ) (nodes rest : List ℕ) (i n : ℕ)
      → ((j : ℕ) → get_or nodes (i * 2 + j) e ≡ get_or rest j e)
      → n ≡ (length rest + 1) / 2
      → next_nodes host e nodes i n ≡ next (poseidon2_compression host) e rest
  unfolding next_nodes next
  next_nodes-next e nodes [] i zero h len = refl
  next_nodes-next e nodes [] i (suc n) h len = absurd (omega arith)
  next_nodes-next e nodes (a ∷ rest) i zero h len = absurd (omega arith)
  next_nodes-next e nodes (a ∷ []) i (suc zero) h len =
      let z : i * 2 + 0 ≡ i * 2 = omega arith in let h0 = rw z at (h 0) in rw (h0, h 1) refl
  next_nodes-next e nodes (a ∷ []) i (suc (suc n)) h len = absurd (omega arith)
  next_nodes-next e nodes (a ∷ b ∷ rest) i (suc n) h len =
      let z : i * 2 + 0 ≡ i * 2 = omega arith in
      let h0 = rw z at (h 0) in
      rw (h0, h 1)
        (ap (◌∷◌ (poseidon2_compression host a b)) (
          next_nodes-next e nodes rest (i + 1) n
            (λ j.
              let s : (i + 1) * 2 + j ≡ i * 2 + suc (suc j) = omega arith in rw s (h (suc (suc j))))
            (omega arith)))

  pub level_above-next :
      (e : ℕ) (nodes : List ℕ)
      → level_above host e nodes ≡ next (poseidon2_compression host) e nodes
  unfolding level_above
  level_above-next e nodes =
      next_nodes-next e nodes nodes 0 ((length nodes + 1) / 2)
        (λ j. ap (λ k. get_or nodes k e) (omega arith)) refl

  -- Each entry of the chain is the hash of two of the one before.
  pub empty_chain-step :
      (n e i : ℕ)
      → i < n
      → poseidon2_compression host (entry (empty_chain host n e) i) (entry (empty_chain host n e) i)
        ≡ entry (empty_chain host n e) (i + 1)
  unfolding empty_chain
  empty_chain-step zero e i h = absurd (omega arith)
  empty_chain-step (suc zero) e zero h = refl
  empty_chain-step (suc (suc n)) e zero h = refl
  empty_chain-step (suc n) e (suc i) h =
      let s : suc i + 1 ≡ suc (i + 1) = omega arith in
      rw s (empty_chain-step n (poseidon2_compression host e e) i (omega arith))

  pub empty_chain-ZeroChain :
      (n e : ℕ) → ZeroChain (poseidon2_compression host) (entry (empty_chain host n e)) n 0
  empty_chain-ZeroChain n e i from to = empty_chain-step n e i (omega arith)

  pub empty_chain-head : (n e : ℕ) → entry (empty_chain host n e) 0 ≡ e
  unfolding empty_chain
  empty_chain-head zero e = refl
  empty_chain-head (suc n) e = refl

-- A level without nodes counts as one empty node.
pub get_or-pad : (e : ℕ) (nodes : List ℕ) (i : ℕ) → get_or (pad e nodes) i e ≡ get_or nodes i e
get_or-pad e [] zero = refl
get_or-pad e [] (suc i) = refl
get_or-pad e (x ∷ nodes) i = refl
