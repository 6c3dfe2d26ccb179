-- ===== src/AspMembership.antt =====
-- contracts/asp-membership/src/lib.rs: the contract that keeps the Merkle tree of the approved
-- members. The record holds the persistent entries under `DataKey`, and the events published.
pub mod Init
pub mod Insert
pub mod Settings
use stellar_private_payments.Prelude.{
  ℕ, zero, suc, ◌+◌, Bool, true, ◌||◌, not, Option, none, some, List, [], ◌∷◌, ◌++◌, ltb, leb, ◌==◌,
  if◌then◌else◌, get_elem?, update, Outcome, ok, ok_or, ensure, require, ◌>>=◌, ◌>>◌,
}
use stellar_private_payments.Poseidon.{Host, get_zeroes}
use stellar_private_payments.Soroban.{Address}
use stellar_private_payments.Soroban
use stellar_private_payments.Merkle.Frontier.{Levels}
use stellar_private_payments.Merkle.Climb.{climb}
use stellar_private_payments.Machine.{checked_add, checked_shl, is_none}

pub data Error : Type 0 where
  not_authorized merkle_tree_full wrong_levels not_initialized overflow : Error

-- `LeafAddedEvent`: the leaf, its index and the new root.
pub data Event : Type 0 where
  leaf_added : ℕ → ℕ → ℕ → Event

pub record AspMembership : Type 0 where
  pub admin : Option Address
  pub filled_subtrees : Levels
  pub zeroes : Levels
  pub levels : Option ℕ
  pub next_index : Option ℕ
  pub root : Option ℕ
  pub admin_insert_only : Option Bool
  pub events : List Event

-- A contract before its constructor.
abbrev pub no_members : AspMembership
no_members = record {
  admin = none;
  filled_subtrees = λ i. none;
  zeroes = λ i. none;
  levels = none;
  next_index = none;
  root = none;
  admin_insert_only = none;
  events = [];
}

-- `for lvl in i..i + n` of the constructor.
unfoldable pub set_zeroes : ℕ → ℕ → AspMembership → Outcome Error AspMembership
set_zeroes zero i s = ok s
set_zeroes (suc n) i s = do
  zero_val ← ok_or (get_elem? get_zeroes i) not_initialized
  set_zeroes n (i + 1) (record s {
    filled_subtrees = update s.filled_subtrees i (some zero_val);
    zeroes = update s.zeroes i (some zero_val);
  })

unfoldable pub constructor : AspMembership → Address → ℕ → Outcome Error AspMembership
constructor s admin levels = do
  ensure (not (levels == 0 || ltb 32 levels)) wrong_levels
  s' ← set_zeroes (levels + 1) 0 (record s {
    admin = some admin;
    levels = some levels;
    next_index = some 0;
    admin_insert_only = some true;
  })
  root_val ← ok_or (get_elem? get_zeroes levels) not_initialized
  ok (record s' { root = some root_val })

unfoldable pub update_admin :
    (Address → Bool) → AspMembership → Address → Outcome Error AspMembership
update_admin authorized s new_admin = do
  ensure (not (is_none s.admin)) not_initialized
  admin ← Soroban.update_admin authorized s.admin new_admin
  ok (record s { admin = some admin })

unfoldable pub set_admin_insert_only :
    (Address → Bool) → AspMembership → Bool → Outcome Error AspMembership
set_admin_insert_only authorized s admin_only = do
  admin ← ok_or s.admin not_initialized
  require (authorized admin)
  ok (record s { admin_insert_only = some admin_only })

unfoldable pub get_root : AspMembership → Outcome Error ℕ
get_root s = ok_or s.root not_initialized

-- `unwrap_or(true)`
abbrev pub admin_only_of : Option Bool → Bool
admin_only_of none = true
admin_only_of (some b) = b

-- Who may insert.
unfoldable pub authorise_insert : (Address → Bool) → AspMembership → Outcome Error (Unit {0})
authorise_insert authorized s =
    if admin_only_of s.admin_insert_only
    then (do admin ← ok_or s.admin not_initialized; require (authorized admin))
    else ok tt

unfoldable pub insert_leaf :
    Host → (Address → Bool) → AspMembership → ℕ → Outcome Error AspMembership
insert_leaf host authorized s leaf = do
  authorise_insert authorized s
  levels ← ok_or s.levels not_initialized
  actual_index ← ok_or s.next_index not_initialized
  capacity ← ok_or (checked_shl levels) merkle_tree_full
  ensure (not (leb capacity actual_index)) merkle_tree_full
  r ← climb host not_initialized s.zeroes levels 0 actual_index leaf s.filled_subtrees
  next_index ← ok_or (checked_add 64 actual_index 1) overflow
  ok (record s {
    filled_subtrees = r.1;
    root = some r.0;
    events = s.events ++ leaf_added leaf actual_index r.0 ∷ [];
    next_index = some next_index;
  })
