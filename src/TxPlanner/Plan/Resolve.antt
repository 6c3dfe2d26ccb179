-- ===== src/TxPlanner/Plan/Resolve.antt =====
-- Which notes of the wallet a step's inputs stand for.
use stellar_private_payments.Prelude.{
  >>=-eq-ok, ap, ◌∙◌, ℕ, ◌≡◌, ◌≢◌, refl, sym, inl, inr, ◌⊎◌, false, not, ◌&&◌, ◌==◌, Option, none,
  some, List, [], ◌∷◌, ok, Bool-cases, Option-cases, arith, ==_iff, All,
}
use stellar_private_payments.TxPlanner.Plan.{
  SpendableNote, StepNote, StepAction, find_commitment, excludes, matches, only_match,
  commitment_of, resolve_input_note, resolve,
}

-- The note stands in the wallet.
pub data In (n : SpendableNote) : List SpendableNote → Type 0 where
  here : {ns : List SpendableNote} → In n (n ∷ ns)
  there : {m : SpendableNote} {ns : List SpendableNote} → In n ns → In n (m ∷ ns)

find_commitment-In :
    (c : ℕ) (ns : List SpendableNote) (n : SpendableNote)
    → find_commitment c ns ≡ some n
    → In n ns × (n.commitment ≡ c)
find_commitment-In c [] n h = absurd cc
find_commitment-In c (m ∷ ns) n h = elim (Bool-cases (m.commitment == c)) [
  | inl same ↦ let e : m ≡ n = ground arith in rw (sym e) (here, (==_iff m.commitment c).0 same)
  | inr other ↦ let (i, e) = find_commitment-In c ns n (ground arith) in (there i, e)
]

abbrev Matching : ℕ → Option ℕ → List SpendableNote → SpendableNote → Type 0
Matching amount excluded ns n = In n ns × (n.amount ≡ amount) × (excludes excluded n ≡ false)

longer_wallet :
    (amount : ℕ) (excluded : Option ℕ) (m : SpendableNote) (ns xs : List SpendableNote)
    → All (Matching amount excluded ns) xs
    → All (Matching amount excluded (m ∷ ns)) xs
longer_wallet amount excluded m ns [] a = tt
longer_wallet amount excluded m ns (x ∷ xs) ((i, e, f), a) =
    ((there i, e, f), longer_wallet amount excluded m ns xs a)

matches-Matching :
    (amount : ℕ) (excluded : Option ℕ) (ns : List SpendableNote)
    → All (Matching amount excluded ns) (matches amount excluded ns)
matches-Matching amount excluded [] = tt
matches-Matching amount excluded (m ∷ ns) =
    let rest =
      longer_wallet amount excluded m ns (matches amount excluded ns)
        (matches-Matching amount excluded ns) in
    elim (Bool-cases (m.amount == amount && not (excludes excluded m))) [
      | inl yes_match ↦ rw yes_match ((here, ground arith, ground arith), rest)
      | inr no_match ↦ rw no_match rest
    ]

only_match-All :
    (P : SpendableNote → Type 0) (amount : ℕ) (xs : List SpendableNote) (n : SpendableNote)
    → All P xs
    → only_match amount xs ≡ ok n
    → P n
only_match-All P amount [] n a h = absurd cc
only_match-All P amount (x ∷ []) n a h = let e : x ≡ n = ground arith in rw (sym e) a.0
only_match-All P amount (x ∷ y ∷ xs) n a h = absurd cc

-- The note that an input stands for: by its commitment, or else by its amount and apart from the
-- sibling.
pub record Named (ns : List SpendableNote) (input : StepNote) (sibling : Option ℕ)
    (n : SpendableNote) : Type 0 where
  pub in_wallet : In n ns
  pub same_amount : n.amount ≡ input.amount
  pub named :
      (input.commitment ≡ some n.commitment)
      ⊎ ((input.commitment ≡ none) × (excludes sibling n ≡ false))

pub resolve_input_note-Named :
    (input : StepNote) (ns : List SpendableNote) (sibling : Option StepNote) (n : SpendableNote)
    → resolve_input_note input ns sibling ≡ ok n
    → Named ns input (commitment_of sibling) n
unfolding resolve_input_note
resolve_input_note-Named input ns sibling n h = elim (Option-cases input.commitment) [
  | inl e ↦
      let h' : only_match input.amount (matches input.amount (commitment_of sibling) ns) ≡ ok n =
        rw (resolve_input_note, e) at h in
      let (i, a, x) =
        only_match-All (Matching input.amount (commitment_of sibling) ns) input.amount
          (matches input.amount (commitment_of sibling) ns) n
          (matches-Matching input.amount (commitment_of sibling) ns) h' in
      record { in_wallet = i; same_amount = a; named = inr (e, x) }
  | inr (c, e) ↦
      let (found, amount_ok) : (find_commitment c ns ≡ some n) × (n.amount ≡ input.amount) =
        ground arith in
      let (i, same) = find_commitment-In c ns n found in
      record { in_wallet = i; same_amount = amount_ok; named = inl (rw same e) }
]

taken :
    (c : ℕ) (n : SpendableNote) (excluded : Option ℕ)
    → excluded ≡ some c
    → n.commitment ≡ c
    → ¬ (excludes excluded n ≡ false)
taken c n none e same f = absurd cc
taken c n (some d) e same f = ground arith

different :
    (ns : List SpendableNote) (x y : StepNote) (a b : SpendableNote)
    → x.commitment ≢ y.commitment
    → Named ns x y.commitment a
    → Named ns y x.commitment b
    → a.commitment ≢ b.commitment
different ns x y a b apart p q same = elim p.named [
  | inl ea ↦ elim q.named [
    | inl eb ↦ absurd (apart (ea ∙ ap some same ∙ sym eb))
    | inr (eb, f) ↦ absurd (taken (b.commitment) b x.commitment (ea ∙ ap some same) refl f)
  ]
  | inr (ea, f) ↦ elim q.named [
    | inl eb ↦ absurd (taken (b.commitment) a y.commitment eb same f)
    | inr (eb, g) ↦ absurd (apart (ea ∙ sym eb))
  ]
]

-- When both inputs of a step are resolved, and they do not have one commitment (nor both none), the
-- two notes stand in the wallet, have the amounts of the inputs, and are different.
pub resolve-two_notes :
    (x y : StepNote) (action : StepAction) (ns out : List SpendableNote)
    → x.commitment ≢ y.commitment
    → resolve (record { inputs = (x, some y); action = action }) ns ≡ ok out
    → (a : SpendableNote) × (b : SpendableNote) × (out ≡ a ∷ b ∷ [])
      × In a ns
      × In b ns
      × (a.amount ≡ x.amount)
      × (b.amount ≡ y.amount)
      × (a.commitment ≢ b.commitment)
unfolding resolve
resolve-two_notes x y action ns out apart h =
    let (a, ea, h1) = >>=-eq-ok (resolve_input_note x ns (some y)) _ h in
    let (b, eb, h2) = >>=-eq-ok (resolve_input_note y ns (some x)) _ h1 in
    let p = resolve_input_note-Named x ns (some y) a ea in
    let q = resolve_input_note-Named y ns (some x) b eb in
    (
      a,
      b,
      ground arith,
      p.in_wallet,
      q.in_wallet,
      p.same_amount,
      q.same_amount,
      different ns x y a b apart p q,
    )
