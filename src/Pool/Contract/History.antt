-- ===== src/Pool/Contract/History.antt =====
-- Histories of the pool: invocations by anyone, of which those that fail change nothing.
use stellar_private_payments.Prelude.{
  Bool-cases, ℕ, ◌≡◌, refl, sym, ap, ◌∙◌, inl, inr, Bool, true, false, List, [], ◌∷◌, arith, All,
  Outcome, ok, err, panic, ==_iff, ◌==◌,
}
use stellar_private_payments.Soroban.{Address}
use mathlib.Core.Path.{subst}
use stellar_private_payments.Pool.State.{Error, Proof, ExtData, Pool, Env}
use stellar_private_payments.Pool.Contract.{
  transact, update_admin, update_asp_membership, update_asp_non_membership, is_spent,
}
use stellar_private_payments.Pool.Contract.Effects.{contains, spent_in, or_spent, spent_in-marked}
use stellar_private_payments.Pool.Contract.Transact.{transact-Transacted}

pub data Call : Type 0 where
  transacts : Proof → ExtData → Address → Call
  updates_admin updates_asp_membership updates_asp_non_membership : Address → Call

unfoldable pub call : Env → Pool → Call → Outcome Error Pool
call env p (transacts proof ext_data sender) = transact env p proof ext_data sender
call env p (updates_admin a) = update_admin env p a
call env p (updates_asp_membership a) = update_asp_membership env p a
call env p (updates_asp_non_membership a) = update_asp_non_membership env p a

abbrev pub after : Pool → Outcome Error Pool → Pool
after p (ok q) = q
after p (err e) = p
after p panic = p

unfoldable pub run : Pool → List (Env × Call) → Pool
run p [] = p
run p ((env, c) ∷ cs) = run (after p (call env p c)) cs

after-keeps {ℓ} :
    (P : Pool → Type ℓ) (p : Pool) (r : Outcome Error Pool)
    → P p
    → ((q : Pool) → r ≡ ok q → P q)
    → P (after p r)
after-keeps P p (ok q) h k = k q refl
after-keeps P p (err e) h k = h
after-keeps P p panic h k = h

is_spent-eq : (p : Pool) (n : ℕ) → is_spent p n ≡ spent_in p.nullifiers n
unfolding is_spent
is_spent-eq p n = ground arith

-- What a successful transaction does to the set of spent nullifiers.
pub is_spent-transact :
    (env : Env) (p q : Pool) (proof : Proof) (ext_data : ExtData) (sender : Address) (n : ℕ)
    → transact env p proof ext_data sender ≡ ok q
    → is_spent q n ≡ or_spent (contains n proof.input_nullifiers) (is_spent p n)
is_spent-transact env p q proof ext_data sender n h =
    let t = transact-Transacted env p proof ext_data sender q h in
    is_spent-eq q n
    ∙ ap (λ (x : Pool). spent_in x.nullifiers n) t.result
    ∙ spent_in-marked p.nullifiers proof.input_nullifiers n
    ∙ ap (or_spent (contains n proof.input_nullifiers)) (sym (is_spent-eq p n))

or_spent-true : (b : Bool) → or_spent b (ok true) ≡ ok true
or_spent-true true = refl
or_spent-true false = refl

call-keeps_spent :
    (n : ℕ) (env : Env) (p : Pool) (c : Call) (q : Pool)
    → is_spent p n ≡ ok true
    → call env p c ≡ ok q
    → is_spent q n ≡ ok true
unfolding call update_admin update_asp_membership update_asp_non_membership is_spent
call-keeps_spent n env p (transacts proof ext_data sender) q s h =
    is_spent-transact env p q proof ext_data sender n h
    ∙ ap (or_spent (contains n proof.input_nullifiers)) s
    ∙ or_spent-true (contains n proof.input_nullifiers)
call-keeps_spent n env p (updates_admin a) q s h = ground arith
call-keeps_spent n env p (updates_asp_membership a) q s h = ground arith
call-keeps_spent n env p (updates_asp_non_membership a) q s h = ground arith

-- A spent nullifier stays spent, whatever is called.
run-keeps_spent :
    (n : ℕ) (p : Pool) (cs : List (Env × Call))
    → is_spent p n ≡ ok true
    → is_spent (run p cs) n ≡ ok true
unfolding run
run-keeps_spent n p [] s = s
run-keeps_spent n p ((env, c) ∷ cs) s = run-keeps_spent n (after p (call env p c)) cs (
    after-keeps (λ x. is_spent x n ≡ ok true) p (call env p c) s
      (λ q. call-keeps_spent n env p c q s))

contains-All : (P : ℕ → Type 0) (n : ℕ) (ns : List ℕ) → contains n ns ≡ true → All P ns → P n
contains-All P n [] c a = cc
contains-All P n (m ∷ ms) c a = elim (Bool-cases (n == m)) [
  | inl same ↦ subst P (sym ((==_iff n m).0 same)) a.0
  | inr other ↦ contains-All P n ms (ground arith) a.1
]

-- The nullifiers of a transaction that succeeds were unspent, and are spent after it.
pub transact-spends :
    (env : Env) (p q : Pool) (proof : Proof) (ext_data : ExtData) (sender : Address) (n : ℕ)
    → transact env p proof ext_data sender ≡ ok q
    → contains n proof.input_nullifiers ≡ true
    → (is_spent p n ≡ ok false) × (is_spent q n ≡ ok true)
transact-spends env p q proof ext_data sender n h c =
    let t = transact-Transacted env p proof ext_data sender q h in
    let fresh =
      contains-All (λ m. is_spent p m ≡ ok false) n proof.input_nullifiers c t.checked.unspent in
    (fresh, is_spent-transact env p q proof ext_data sender n h ∙ rw (c, fresh) refl)

-- Once a transaction has spent a nullifier, then after any further calls, in any environments, no
-- transaction that names the nullifier succeeds.
pub no_double_spend :
    (env env' : Env) (p q r : Pool) (proof proof' : Proof) (ext_data ext_data' : ExtData)
    (sender sender' : Address) (calls : List (Env × Call)) (n : ℕ)
    → transact env p proof ext_data sender ≡ ok q
    → contains n proof.input_nullifiers ≡ true
    → contains n proof'.input_nullifiers ≡ true
    → ¬ (transact env' (run q calls) proof' ext_data' sender' ≡ ok r)
no_double_spend env env' p q r proof proof' ext_data ext_data' sender sender' calls n h c c' again =
    let spent = run-keeps_spent n q calls (transact-spends env p q proof ext_data sender n h c).1 in
    let unspent = (transact-spends env' (run q calls) r proof' ext_data' sender' n again c').0 in
    absurd (ground arith)
