-- ===== src/Registry/Replay.antt =====
-- Whoever reads the events knows the registrations.
use stellar_private_payments.Prelude.{
  Outcome, ok, err, panic, sym, ap, ◌∙◌, ==_iff, ◌≡◌, refl, inl, inr, Bool, true, ◌==◌, Option,
  none, some, List, [], ◌∷◌, ◌++◌, length, if◌then◌else◌, Bool-cases, arith,
}
use stellar_private_payments.Soroban.{Address, Bytes}
use stellar_private_payments.Registry.{
  store_registration, register, Account, Registration, PublicKeyEvent, Registry, bytes_eq,
  is_current, registration_of, event_of,
}

-- The last keys that the events tell of an address.
abbrev pub replay : List PublicKeyEvent → Address → Option Registration
replay [] a = none
replay (e ∷ es) a = elim (replay es a) [
  | some r ↦ some r
  | none ↦
      if a == e.owner
      then some (record { encryption_key = e.encryption_key; note_key = e.note_key })
      else none
]

abbrev pub Published : Registry → Type 0
Published s = (a : Address) → s.registrations a ≡ replay s.events a

replay-snoc :
    (es : List PublicKeyEvent) (account : Account) (a : Address)
    → replay (es ++ event_of account ∷ []) a
      ≡ (if a == account.owner then some (registration_of account) else replay es a)
replay-snoc [] account a = refl
replay-snoc (e ∷ es) account a = elim (Bool-cases (a == account.owner)) [
  | inl same ↦ rw (replay-snoc es account a, same) refl
  | inr other ↦ rw (replay-snoc es account a, other) refl
]

bytes_eq-eq : (xs ys : Bytes) → bytes_eq xs ys ≡ true → xs ≡ ys
bytes_eq-eq [] [] h = refl
bytes_eq-eq [] (y ∷ ys) h = absurd cc
bytes_eq-eq (x ∷ xs) [] h = absurd cc
bytes_eq-eq (x ∷ xs) (y ∷ ys) h = ground (arith, bytes_eq-eq xs ys)

current_registration :
    (o : Option Registration) (account : Account)
    → is_current o account ≡ true
    → o ≡ some (registration_of account)
current_registration none account h = absurd cc
current_registration (some r) account h = ground (
  arith,
  bytes_eq-eq r.encryption_key account.encryption_key,
  bytes_eq-eq r.note_key account.note_key,
)

abbrev pub no_registrations : Registry
no_registrations = record { registrations = λ a. none; events = [] }

-- A call that fails leaves the registry as it was.
abbrev pub after : Registry → Outcome ⊥ Registry → Registry
after s (ok t) = t
after s _ = s

abbrev pub run : Registry → List ((Address → Bool) × Account) → Registry
run s [] = s
run s (c ∷ cs) = run (after s (register c.0 s c.1)) cs

stored : Registry → Account → Address → Option Registration
stored s account a =
    if a == account.owner then some (registration_of account) else s.registrations a

store_registration-Published :
    (s : Registry) (account : Account) (a : Address)
    → Published s
    → ((store_registration s account).registrations a ≡ stored s account a)
      × (stored s account a ≡ replay (store_registration s account).events a)
unfolding store_registration stored
store_registration-Published s account a h =
    elim (Bool-cases (is_current (s.registrations account.owner) account)) [
      | inl current ↦
          let e = current_registration (s.registrations account.owner) account current in
          rw (store_registration, current)
            (elim (Bool-cases (a == account.owner)) [
              | inl same ↦
                  let same' = (==_iff a account.owner).0 same in
                  let here = ap s.registrations same' ∙ e in rw same (here, sym here ∙ h a)
              | inr other ↦ rw other (refl, h a)
            ])
      | inr new ↦ rw (store_registration, new) (refl, rw (replay-snoc s.events account a, h a) refl)
    ]

-- A registration that succeeds is signed by its owner and has keys of 32 bytes. The owner's entry
-- then has these keys and every other entry is as it was; and if the entries were those that the
-- events tell, they still are.
pub register-Published :
    (authorized : Address → Bool) (s t : Registry) (account : Account) (a : Address)
    → register authorized s account ≡ ok t
    → Published s
    → (authorized account.owner ≡ true)
      × (length account.encryption_key ≡ 32)
      × (length account.note_key ≡ 32)
      × (t.registrations a
          ≡ (if a == account.owner then some (registration_of account) else s.registrations a))
      × (t.registrations a ≡ replay t.events a)
unfolding register stored
register-Published authorized s t account a e h =
    let (entry, replayed) = store_registration-Published s account a h in
    let same : t ≡ store_registration s account = ground arith in
    (ground arith, ground arith, ground arith, rw same entry, rw same (entry ∙ replayed))

after-Published :
    (authorized : Address → Bool) (s : Registry) (account : Account)
    → Published s
    → (m : Outcome ⊥ Registry) → register authorized s account ≡ m
    → Published (after s m)
after-Published authorized s account h (ok t) e a =
    (register-Published authorized s t account a e h).4
after-Published authorized s account h (err x) e a = h a
after-Published authorized s account h panic e a = h a

kept :
    (s : Registry) (calls : List ((Address → Bool) × Account))
    → Published s
    → Published (run s calls)
kept s [] h = h
kept s (c ∷ cs) h =
    kept (after s (register c.0 s c.1)) cs (after-Published c.0 s c.1 h (register c.0 s c.1) refl)

-- Whatever registrations are made from an empty registry, in whatever order and with whatever
-- signatures, the entries are what the events tell.
pub run-Published :
    (calls : List ((Address → Bool) × Account)) → Published (run no_registrations calls)
run-Published calls = kept no_registrations calls (λ a. refl)
