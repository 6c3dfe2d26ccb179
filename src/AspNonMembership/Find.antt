-- ===== src/AspNonMembership/Find.antt =====
-- What a search finds.
use stellar_private_payments.Prelude.{
  ℕ, ◌≡◌, refl, ◌∙◌, inl, inr, Bool, true, false, Option, none, some, List, [], ◌∷◌, ◌==◌, arith,
  ok, ok_or, length, ==_iff, ==_ne, ==_refl, Bool-cases, Option-cases, Outcome, ◌>>=◌,
}
use stellar_private_payments.Poseidon.{Host}
use stellar_private_payments.AspNonMembership.{
  Error, key_not_found, Nodes, FindResult, empty_branch, at_leaf, at_node, with_sibling,
  find_key_internal,
}
use stellar_private_payments.AspNonMembership.Tree.{
  Smt, blank, leaf, fork, digest, leaf_digest, Stored, In, here, left, right, Remaining, below,
  Placed, OnePath, OnePath-below, Even, Even-below, In-remains,
}

-- The search in the tree itself; none where the bits run out above an internal node.
abbrev pub add_sibling : ℕ → Option FindResult → Option FindResult
add_sibling sibling none = none
add_sibling sibling (some r) = some (with_sibling sibling r)

unfoldable pub find_in : Host → ℕ → List Bool → Smt → Option FindResult
find_in host key bits blank = some (empty_branch key)
find_in host key bits (leaf k v) = some (at_leaf key k v)
find_in host key [] (fork l r) = none
find_in host key (true ∷ bits) (fork l r) = add_sibling (digest host l) (find_in host key bits r)
find_in host key (false ∷ bits) (fork l r) = add_sibling (digest host r) (find_in host key bits l)

ok_or-add_sibling :
    (sibling : ℕ) (o : Option FindResult)
    → (ok_or o key_not_found >>= λ r. ok (with_sibling sibling r))
      ≡ ok_or (add_sibling sibling o) key_not_found
ok_or-add_sibling sibling none = refl
ok_or-add_sibling sibling (some r) = refl

at_node-blank :
    (nodes : Nodes) (key : ℕ) (descend : ℕ → ℕ → Outcome Error FindResult)
    → at_node nodes key 0 descend ≡ ok (empty_branch key)
unfolding at_node
at_node-blank nodes key descend = refl

at_node-leaf :
    (host : Host) (nodes : Nodes) (key k v : ℕ) (descend : ℕ → ℕ → Outcome Error FindResult)
    → Stored host nodes (leaf k v)
    → at_node nodes key (digest host (leaf k v)) descend ≡ ok (at_leaf key k v)
unfolding at_node digest
at_node-leaf host nodes key k v descend (hk, hv, pos, e) =
    rw (at_node, ==_ne (leaf_digest host k v) 0 pos, e) refl

at_node-fork :
    (host : Host) (nodes : Nodes) (key : ℕ) (l r : Smt) (descend : ℕ → ℕ → Outcome Error FindResult)
    → Stored host nodes (fork l r)
    → at_node nodes key (digest host (fork l r)) descend ≡ descend (digest host l) (digest host r)
unfolding at_node
at_node-fork host nodes key l r descend (pos, e, sl, sr) =
    rw (at_node, ==_ne (digest host (fork l r)) 0 pos, e) refl

-- The search in the store is the search in the tree that it holds.
pub find_key_internal-Stored :
    (host : Host) (nodes : Nodes) (key : ℕ) (bits : List Bool) (t : Smt)
    → Stored host nodes t
    → find_key_internal nodes key bits (digest host t)
      ≡ ok_or (find_in host key bits t) key_not_found
unfolding find_key_internal find_in digest
find_key_internal-Stored host nodes key [] blank s = at_node-blank nodes key _
find_key_internal-Stored host nodes key (b ∷ bits) blank s = at_node-blank nodes key _
find_key_internal-Stored host nodes key [] (leaf k v) s = at_node-leaf host nodes key k v _ s
find_key_internal-Stored host nodes key (b ∷ bits) (leaf k v) s =
    at_node-leaf host nodes key k v _ s
find_key_internal-Stored host nodes key [] (fork l r) s = at_node-fork host nodes key l r _ s
find_key_internal-Stored host nodes key (true ∷ bits) (fork l r) s =
    at_node-fork host nodes key l r _ s
    ∙ rw (find_key_internal-Stored host nodes key bits r s.3)
        (ok_or-add_sibling (digest host l) (find_in host key bits r))
find_key_internal-Stored host nodes key (false ∷ bits) (fork l r) s =
    at_node-fork host nodes key l r _ s
    ∙ rw (find_key_internal-Stored host nodes key bits l s.2)
        (ok_or-add_sibling (digest host r) (find_in host key bits l))

module _ (host : Host) (key : ℕ) where
  -- A search that finds the key finds it with its value.
  pub found-In :
      (bits : List Bool) (t : Smt) (r : FindResult)
      → find_in host key bits t ≡ some r
      → r.found ≡ true
      → In key r.found_value t
  unfolding find_in
  found-In bits blank r e f = absurd (ground arith)
  found-In bits (leaf k v) r e f = elim (Bool-cases (k == key)) [
    | inl same ↦
        let k_same = (==_iff k key).0 same in
        let v_same : v ≡ r.found_value = ground arith in rw (k_same, v_same) here
    | inr other ↦ absurd (ground arith)
  ]
  found-In [] (fork l r') r e f = absurd cc
  found-In (true ∷ bits) (fork l r') r e f = elim (Option-cases (find_in host key bits r')) [
    | inl none_found ↦ absurd (ground arith)
    | inr (x, e') ↦
        let same : with_sibling (digest host l) x ≡ r = ground arith in
        rw (← same) (right (found-In bits r' x e' (ground arith)))
  ]
  found-In (false ∷ bits) (fork l r') r e f = elim (Option-cases (find_in host key bits l)) [
    | inl none_found ↦ absurd (ground arith)
    | inr (x, e') ↦
        let same : with_sibling (digest host r') x ≡ r = ground arith in
        rw (← same) (left (found-In bits l x e' (ground arith)))
  ]

true-false : {bs bs' : List Bool} → ¬ (true ∷ bs ≡ false ∷ bs')
true-false e = absurd cc

-- A search along the key's own bits that does not find it proves that it is not in the tree.
pub not_found-In :
    (host : Host) (key : ℕ) (remains : Remaining)
    → OnePath remains
    → (bits : List Bool) (t : Smt) (r : FindResult) (v : ℕ) → remains key bits
    → Placed remains t
    → find_in host key bits t ≡ some r
    → r.found ≡ false
    → ¬ In key v t
unfolding find_in
not_found-In host key remains one bits blank r w h p e f i = elim i [ ]
not_found-In host key remains one bits (leaf k v) r w h p e f here = ground (arith, ==_refl key)
not_found-In host key remains one [] (fork l r') r w h p e f i = absurd cc
not_found-In host key remains one (true ∷ bits) (fork l r') r w h p e f (left i) =
    let (bs, h') = In-remains (below false remains) p.1 i in
    true-false (one key (true ∷ bits) (false ∷ bs) h h')
not_found-In host key remains one (false ∷ bits) (fork l r') r w h p e f (right i) =
    let (bs, h') = In-remains (below true remains) p.2 i in
    true-false (one key (true ∷ bs) (false ∷ bits) h' h)
not_found-In host key remains one (true ∷ bits) (fork l r') r w h p e f (right i) =
    elim (Option-cases (find_in host key bits r')) [
      | inl none_found ↦ absurd (ground arith)
      | inr (x, e') ↦
          not_found-In host key (below true remains) (OnePath-below true remains one) bits r' x w h
            p.2 e' (ground arith) i
    ]
not_found-In host key remains one (false ∷ bits) (fork l r') r w h p e f (left i) =
    elim (Option-cases (find_in host key bits l)) [
      | inl none_found ↦ absurd (ground arith)
      | inr (x, e') ↦
          not_found-In host key (below false remains) (OnePath-below false remains one) bits l x w h
            p.1 e' (ground arith) i
    ]

fork_remains :
    {k v : ℕ} {l r : Smt} (remains : Remaining)
    → Placed remains (fork l r)
    → In k v (fork l r)
    → (b : Bool) × (bs : List Bool) × remains k (b ∷ bs)
fork_remains remains p (left i) =
    let (bs, h) = In-remains (below false remains) p.1 i in (false, bs, h)
fork_remains remains p (right i) =
    let (bs, h) = In-remains (below true remains) p.2 i in (true, bs, h)

-- The bits of a key never run out.
pub find_in-some :
    (host : Host) (key : ℕ) (remains : Remaining) (bits : List Bool) (t : Smt)
    → Even (length bits) remains
    → Placed remains t
    → (r : FindResult) × (find_in host key bits t ≡ some r)
unfolding find_in
find_in-some host key remains bits blank even p = (empty_branch key, refl)
find_in-some host key remains bits (leaf k v) even p = (at_leaf key k v, refl)
find_in-some host key remains [] (fork l r) even p =
    let ((k, v, i), pl, pr) = p in
    let (b, bs, h) = fork_remains remains p i in absurd (omega (arith, even k (b ∷ bs) h))
find_in-some host key remains (true ∷ bits) (fork l r) even p =
    let (x, e) =
      find_in-some host key (below true remains) bits r (Even-below (length bits) true remains even)
        p.2 in
    (with_sibling (digest host l) x, rw e refl)
find_in-some host key remains (false ∷ bits) (fork l r) even p =
    let (x, e) =
      find_in-some host key (below false remains) bits l
        (Even-below (length bits) false remains even) p.1 in
    (with_sibling (digest host r) x, rw e refl)
