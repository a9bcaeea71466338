-- ===== src/Queue/Lemmas.antt =====
-- Facts about the table operations of the queue, one for each SQL form.
use native.Mathlib.Nat.{le_trans}
use smart_pdf_extractor.Prelude.{
  ℕ, suc, ◌≤◌, ◌≡◌, Bool, true, false, ◌&&◌, none, some, List, [], ◌∷◌, inl, inr, arith, leb, All,
  get_elem?, Bool-cases, Option-cases,
}
use smart_pdf_extractor.Queue.{Job, update_where, pick}

module _ {P Q : Job → Type 0} where
  -- A predicate on rows after an update, from what it says of the rows before.
  pub All-update_where :
      (p : Job → Bool) (f : Job → Job)
      → ((j : Job) → P j → p j ≡ true → Q (f j))
      → ((j : Job) → P j → p j ≡ false → Q j)
      → (js : List Job) → All P js
      → All Q (update_where p f js)
  All-update_where p f hit miss [] h = tt
  All-update_where p f hit miss (j ∷ js) h = elim (Bool-cases (p j)) [
    | inl e ↦ (rw e (hit j h.0 e), All-update_where p f hit miss js h.1)
    | inr e ↦ (rw e (miss j h.0 e), All-update_where p f hit miss js h.1)
  ]

module _ (p : Job → Bool) where
  -- What the subquery picks passes its test.
  pub pick_holds : (js : List Job) (j : Job) → pick p js ≡ some j → p j ≡ true
  unfolding pick
  pick_holds [] j h = cc
  pick_holds (x ∷ js) j h = elim (Option-cases (pick p js)) [
    | inl e ↦ ground arith
    | inr (k, e) ↦ ground (arith, pick_holds js k e)
  ]

  -- It is a row of the table.
  pub pick-get_elem? :
      (js : List Job) (j : Job) → pick p js ≡ some j → (i : ℕ) × (get_elem? js i ≡ some j)
  unfolding pick
  pick-get_elem? [] j h = cc
  pick-get_elem? (x ∷ js) j h = elim (Option-cases (pick p js)) [
    | inl e ↦ (0, ground arith)
    | inr (k, e) ↦
        let (i, at) = pick-get_elem? js k e in
        elim (Bool-cases (p x && leb x.available_at k.available_at)) [
          | inl first ↦ (0, ground arith)
          | inr later ↦ (suc i, ground arith)
        ]
  ]

  weaken :
      (a b : ℕ) (js : List Job)
      → a ≤ b
      → All (λ k. p k ≡ true → b ≤ k.available_at) js
      → All (λ k. p k ≡ true → a ≤ k.available_at) js
  weaken a b [] le h = tt
  weaken a b (k ∷ js) le h = (λ e. le_trans le (h.0 e), weaken a b js le h.1)

  -- Where nothing is picked no row passes the test.
  pub pick-eq-none : (js : List Job) → pick p js ≡ none → All (λ k. p k ≡ false) js
  unfolding pick
  pick-eq-none [] h = tt
  pick-eq-none (x ∷ js) h = elim (Option-cases (pick p js)) [
    | inl e ↦ (ground arith, pick-eq-none js e)
    | inr (k, e) ↦ absurd (ground arith)
  ]

  vacuous :
      (a : ℕ) (js : List Job)
      → All (λ k. p k ≡ false) js
      → All (λ k. p k ≡ true → a ≤ k.available_at) js
  vacuous a [] h = tt
  vacuous a (k ∷ js) h = (λ e. ground (arith, h.0), vacuous a js h.1)

  -- No row that passes the test is available earlier.
  pub pick_earliest :
      (js : List Job) (j : Job)
      → pick p js ≡ some j
      → All (λ k. p k ≡ true → j.available_at ≤ k.available_at) js
  unfolding pick
  pick_earliest [] j h = tt
  pick_earliest (x ∷ js) j h = elim (Option-cases (pick p js)) [
    | inl e ↦ (λ t. ground arith, vacuous j.available_at js (pick-eq-none js e))
    | inr (k, e) ↦ (
      λ t. ground arith,
      weaken j.available_at k.available_at js (ground arith) (pick_earliest js k e),
    )
  ]
