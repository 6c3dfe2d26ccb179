-- ===== src/Examples/RegistryRuns.antt =====
-- Registrations of one user, and the theorems there.
use stellar_private_payments.Prelude.{
  ℕ, ◌≡◌, refl, Bool, true, [], ◌∷◌, ok, some, length, replicate, ◌==◌, if◌then◌else◌,
}
use stellar_private_payments.Registry.{
  Account, Registry, store_registration, register, registration_of,
}
use stellar_private_payments.Registry.Replay.{
  Published, no_registrations, after, run, replay, register-Published, run-Published,
}

abbrev anyone : ℕ → Bool
anyone a = true

abbrev alice : Account
alice = record { owner = 5; encryption_key = replicate 32 1; note_key = replicate 32 2 }

abbrev changed : Account
changed = record { owner = 5; encryption_key = replicate 32 3; note_key = replicate 32 2 }

abbrev registered : Registry
registered = after no_registrations (register anyone no_registrations alice)

registration_runs : register anyone no_registrations alice ≡ ok registered
unfolding register store_registration
registration_runs = refl

-- The same keys again publish nothing.
once : length (run registered ((anyone, alice) ∷ (anyone, changed) ∷ [])).events ≡ 2
unfolding register store_registration
once = refl

register-Published_example :
    (anyone 5 ≡ true)
    × (length alice.encryption_key ≡ 32)
    × (length alice.note_key ≡ 32)
    × (registered.registrations 5
        ≡ (if 5 == 5 then some (registration_of alice) else no_registrations.registrations 5))
    × (registered.registrations 5 ≡ replay registered.events 5)
register-Published_example =
    register-Published anyone no_registrations registered alice 5 registration_runs (λ a. refl)

run-Published_example : Published (run no_registrations ((anyone, alice) ∷ (anyone, changed) ∷ []))
run-Published_example = run-Published ((anyone, alice) ∷ (anyone, changed) ∷ [])
