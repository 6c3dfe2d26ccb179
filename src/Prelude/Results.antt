-- ===== src/Prelude/Results.antt =====
-- What a contract call gives: a value, an error of the contract's own, or a trap (`panic!`,
-- `expect`, a failed `require_auth`, an overflowing host operation). The host rolls back the
-- storage, the events and the calls of an invocation that does not end in a value, so an `err` and
-- a `panic` carry no state.
use mathlib.Core.Path.{◌≡◌, refl}
use mathlib.Core.Bool.{Bool, true, false}
use mathlib.Core.Option.{Option, none, some}

pub data Outcome {ℓ κ} (E : Type ℓ) (A : Type κ) : Type (ℓ ⊔ κ) where
  ok : A → Outcome E A
  err : E → Outcome E A
  panic : Outcome E A

infixl 5 ◌>>=◌ ◌>>◌
abbrev pub ◌>>=◌ {ℓ κ μ} :
    {E : Type ℓ} {A : Type κ} {B : Type μ} → Outcome E A → (A → Outcome E B) → Outcome E B
ok a >>= f = f a
err e >>= f = err e
panic >>= f = panic

abbrev pub ◌>>◌ {ℓ κ} : {E : Type ℓ} {B : Type κ} → Outcome E (Unit {0}) → Outcome E B → Outcome E B
m >> k = m >>= λ _. k

module _ {ℓ} {E : Type ℓ} where
  -- An early `return Err(e)` where the test fails.
  abbrev pub ensure : Bool → E → Outcome E (Unit {0})
  ensure true e = ok tt
  ensure false e = err e

  -- `require_auth`, `assert!`: a trap where the test fails.
  abbrev pub require : Bool → Outcome E (Unit {0})
  require true = ok tt
  require false = panic

module _ {ℓ κ} {E : Type ℓ} {A : Type κ} where
  abbrev pub ok_or : Option A → E → Outcome E A
  ok_or none e = err e
  ok_or (some a) e = ok a

  -- `expect`, and a client call that traps when the other contract fails.
  abbrev pub or_panic : Option A → Outcome E A
  or_panic none = panic
  or_panic (some a) = ok a

  pub >>=-eq-ok {μ} :
      {C : Type μ} (first : Outcome E A) (rest : A → Outcome E C) {c : C}
      → (first >>= rest) ≡ ok c
      → (v : A) × (first ≡ ok v) × (rest v ≡ ok c)
  >>=-eq-ok panic rest run = cc
  >>=-eq-ok (err e) rest run = cc
  >>=-eq-ok (ok v) rest run = (v, refl, run)

  pub ok_or-eq-ok : (o : Option A) (e : E) {a : A} → ok_or o e ≡ ok a → o ≡ some a
  ok_or-eq-ok none e h = cc
  ok_or-eq-ok (some a) e h = cc

  pub or_panic-eq-ok : (o : Option A) {a : A} → or_panic o ≡ ok a → o ≡ some a
  or_panic-eq-ok none h = cc
  or_panic-eq-ok (some a) h = cc

module _ {ℓ} {E : Type ℓ} where
  pub ensure-eq-ok : (b : Bool) (e : E) {u : Unit {0}} → ensure b e ≡ ok u → b ≡ true
  ensure-eq-ok true e h = refl
  ensure-eq-ok false e h = cc

  pub require-eq-ok : (b : Bool) {u : Unit {0}} → require {E = E} b ≡ ok u → b ≡ true
  require-eq-ok true h = refl
  require-eq-ok false h = cc

-- An error of one component as the error of another (`From`, `map_err`).
abbrev pub map_err {ℓ κ μ} :
    {E : Type ℓ} {F : Type κ} {A : Type μ} → (E → F) → Outcome E A → Outcome F A
map_err g (ok a) = ok a
map_err g (err e) = err (g e)
map_err g panic = panic

pub map_err-eq-ok {ℓ κ μ} :
    {E : Type ℓ} {F : Type κ} {A : Type μ} (g : E → F) (m : Outcome E A) {a : A}
    → map_err g m ≡ ok a
    → m ≡ ok a
map_err-eq-ok g (ok a) h = cc
map_err-eq-ok g (err e) h = cc
map_err-eq-ok g panic h = cc
