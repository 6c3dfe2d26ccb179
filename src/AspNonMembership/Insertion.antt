-- ===== src/AspNonMembership/Insertion.antt =====
-- contracts/asp-non-membership/src/lib.rs: `insert_leaf`.
use stellar_private_payments.Prelude.{
  ℕ, zero, suc, ◌+◌, ◌-◌, Bool, true, false, ◌&&◌, ◌||◌, not, none, some, List, [], ◌∷◌, ◌++◌, ltb,
  ◌==◌, if◌then◌else◌, length, get_elem?, get_or, update, Outcome, ok, ok_or, ensure, require,
  ◌>>=◌, ◌>>◌,
}
use stellar_private_payments.Poseidon.{Host}
use stellar_private_payments.Soroban.{Address}
use stellar_private_payments.AspNonMembership.{
  Error, Nodes, AspNonMembership, FindResult, hash_leaf, split_bits, find_key_internal,
  root_or_zero, hash_by_bit, children, key_not_found, key_already_exists, not_initialized,
  leaf_inserted,
}

abbrev pub same : Bool → Bool → Bool
same true b = b
same false b = not b

abbrev pub drop {ℓ} : {A : Type ℓ} → ℕ → List A → List A
drop zero xs = xs
drop (suc n) [] = []
drop (suc n) (x ∷ xs) = drop n xs

-- The zeros for the bits that two keys share below a level.
abbrev pub shared : List Bool → List Bool → List ℕ
shared (a ∷ old_key_bits) (b ∷ key_bits) = if same a b then 0 ∷ shared old_key_bits key_bits else []
shared _ _ = []

-- The loop of `insert_leaf` from the last sibling to the first: the new hash so far, the old one,
-- whether old nodes are removed, and the nodes.
pub record Build : Type 0 where
  pub rt : ℕ
  pub rt_old : ℕ
  pub mixed : Bool
  pub nodes : Nodes

-- The part of a round that removes the old node of the level.
unfoldable pub drop_old : Host → Bool → List ℕ → List Bool → ℕ → Build → Outcome Error Build
drop_old host last_added old_siblings key_bits i s =
    if s.mixed && not last_added
    then (do
      bit ← ok_or (get_elem? key_bits i) key_not_found
      rt_old ← hash_by_bit host bit (get_or old_siblings i 0) s.rt_old
      ok (record s { rt_old = rt_old; nodes = update s.nodes rt_old none }))
    else ok s

-- The part of a round that makes the new node of the level.
unfoldable pub make_new : Host → List Bool → ℕ → ℕ → Build → Outcome Error Build
make_new host key_bits i sibling s = do
  bit ← ok_or (get_elem? key_bits i) key_not_found
  rt ← hash_by_bit host bit sibling s.rt
  ok (record s { rt = rt; nodes = update s.nodes rt (some (children bit sibling s.rt)) })

-- What a collision adds to the siblings.
pub record InsertPath : Type 0 where
  pub siblings : List ℕ
  pub rt_old : ℕ
  pub mixed : Bool
  pub added_one : Bool

module _ (host : Host) (key_bits : List Bool) (old_siblings : List ℕ) (siblings_len : ℕ)
    (added_one : Bool) where
  unfoldable pub build_round : ℕ → ℕ → Build → Outcome Error Build
  build_round i sibling s =
      let last_added = added_one && i == siblings_len - 1 in
      let mixed = s.mixed || (not last_added && (ltb i (siblings_len - 1) && not (sibling == 0))) in
      drop_old host last_added old_siblings key_bits i (record s { mixed = mixed })
      >>= make_new host key_bits i sibling

  -- `for (i, sibling) in siblings.iter().enumerate().rev()`
  unfoldable pub build : ℕ → List ℕ → Build → Outcome Error Build
  build i [] s = ok s
  build i (sibling ∷ siblings) s = do t ← build (i + 1) siblings s; build_round i sibling t

unfoldable pub insert_path : Host → List Bool → FindResult → Outcome Error InsertPath
insert_path host key_bits r =
    if r.is_old0
    then ok (record {
      siblings = r.siblings;
      rt_old = 0;
      mixed = not (length r.siblings == 0);
      added_one = false;
    })
    else (do
      let n = length r.siblings
      rt_old ← hash_leaf host r.not_found_key r.not_found_value
      ok (record {
        siblings =
            r.siblings
            ++ (shared (drop n (split_bits r.not_found_key)) (drop n key_bits) ++ rt_old ∷ []);
        rt_old = rt_old;
        mixed = false;
        added_one = true;
      }))

-- The trimming of `siblings` at the end of the source has no effect, and is left out.
unfoldable pub insert_leaf :
    Host → (Address → Bool) → AspNonMembership → ℕ → ℕ → Outcome Error AspNonMembership
insert_leaf host authorized s key value = do
  admin ← ok_or s.admin not_initialized
  require (authorized admin)
  find_result ← find_key_internal s.nodes key (split_bits key) (root_or_zero s.root)
  ensure (not find_result.found) key_already_exists
  path ← insert_path host (split_bits key) find_result
  rt ← hash_leaf host key value
  b ←
      build host (split_bits key) find_result.siblings (length path.siblings) path.added_one 0
        path.siblings
        (record {
          rt = rt;
          rt_old = path.rt_old;
          mixed = path.mixed;
          nodes = update s.nodes rt (some (1 ∷ key ∷ value ∷ []));
        })
  ok (record s {
    root = some b.rt;
    nodes = b.nodes;
    events = s.events ++ leaf_inserted key value b.rt ∷ [];
  })
