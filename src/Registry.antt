-- ===== src/Registry.antt =====
-- contracts/public-key-registry/src/lib.rs: the keys that users publish. The persistent entries are
-- a function from addresses, and the events published are a list, the oldest first.
pub mod Replay
use stellar_private_payments.Prelude.{
  Bool, true, false, ◌&&◌, ◌==◌, Option, none, some, List, [], ◌∷◌, ◌++◌, length, update,
  if◌then◌else◌, Outcome, ok, require, ◌>>◌,
}
use stellar_private_payments.Soroban.{Address, Bytes}

pub record Account : Type 0 where
  pub owner : Address
  pub encryption_key : Bytes
  pub note_key : Bytes

pub record Registration : Type 0 where
  pub encryption_key : Bytes
  pub note_key : Bytes

pub record PublicKeyEvent : Type 0 where
  pub owner : Address
  pub encryption_key : Bytes
  pub note_key : Bytes

pub record Registry : Type 0 where
  pub registrations : Address → Option Registration
  pub events : List PublicKeyEvent

abbrev pub bytes_eq : Bytes → Bytes → Bool
bytes_eq [] [] = true
bytes_eq (x ∷ xs) (y ∷ ys) = x == y && bytes_eq xs ys
bytes_eq _ _ = false

-- The stored registration is the next one already.
abbrev pub is_current : Option Registration → Account → Bool
is_current none account = false
is_current (some r) account =
    bytes_eq r.encryption_key account.encryption_key && bytes_eq r.note_key account.note_key

abbrev pub registration_of : Account → Registration
registration_of account = record {
  encryption_key = account.encryption_key;
  note_key = account.note_key;
}

abbrev pub event_of : Account → PublicKeyEvent
event_of account = record {
  owner = account.owner;
  encryption_key = account.encryption_key;
  note_key = account.note_key;
}

-- The registration is stored and published, unless it is there already.
unfoldable pub store_registration : Registry → Account → Registry
store_registration s account =
    if is_current (s.registrations account.owner) account then s else record s {
      registrations = update s.registrations account.owner (some (registration_of account));
      events = s.events ++ event_of account ∷ [];
    }

unfoldable pub register : (Address → Bool) → Registry → Account → Outcome ⊥ Registry
register authorized s account = do
  require (authorized account.owner)
  require (length account.encryption_key == 32)
  require (length account.note_key == 32)
  ok (store_registration s account)
