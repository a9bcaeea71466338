-- ===== src/Validator/Chains.antt =====
-- What the checks of balances find and what they bound (pdf_ingestion/pipeline/validator.py).
use smart_pdf_extractor.Prelude.{
  ℕ, suc, ◌+◌, ◌*◌, ◌<◌, ◌≡◌, refl, ap, sym, ◌∙◌, ℤ, pos, ◌+ℤ◌, ◌-ℤ◌, nat_abs, nat_abs-IsWithin,
  IsWithin, int_laws, of_parts, Bool, true, false, String, Option, none, some, List, [], ◌∷◌, ◌++◌,
  Text, length, arith, pos_part, neg_part, Bool-cases, inl, inr,
}
use smart_pdf_extractor.Validator.Amounts.{
  Transaction, Account, AccountId, FieldName, acct_id, ValidationFailure, to_float, amount, account,
}
use smart_pdf_extractor.Validator.Balances.{
  differs, flag, next_row, check_rows, total_debits, total_credits, reconcile_with, reconcile,
}

append-empty : {A : Type 0} (xs ys : List A) → xs ++ ys ≡ [] → (xs ≡ []) × (ys ≡ [])
append-empty [] ys h = (refl, h)
append-empty (x ∷ xs) ys h = cc

module _ (float : Text → Option ℤ) (cent : ℕ) where
  differs-false : (x y : ℤ) → differs float cent x y ≡ false → IsWithin (2 * cent) x y
  unfolding differs
  differs-false x y h = (nat_abs-IsWithin x y (2 * cent)).0 (ground (arith, h))

  differs-IsWithin : (x y : ℤ) → IsWithin (2 * cent) x y → differs float cent x y ≡ false
  unfolding differs
  differs-IsWithin x y h = ground (arith, (nat_abs-IsWithin x y (2 * cent)).1 h)

  flag-none :
      (bad : Bool) (name : String) (f : FieldName) (code : String)
      → flag float cent bad name f code ≡ []
      → bad ≡ false
  flag-none true name f code h = cc
  flag-none false name f code h = refl

  -- What a transaction adds to its account.
  abbrev pub net : Transaction → ℤ
  net t = amount float t.credit -ℤ amount float t.debit

  -- The balances that the transactions state, each with what its transaction adds.
  abbrev pub balance_of : Option ℤ → Transaction → List (ℤ × ℤ) → List (ℤ × ℤ)
  balance_of none t later = later
  balance_of (some balance) t later = (balance, net t) ∷ later

  abbrev pub balances : List (Option Transaction) → List (ℤ × ℤ)
  balances [] = []
  balances (none ∷ rows) = balances rows
  balances (some t ∷ rows) = balance_of (to_float float t.balance) t (balances rows)

  abbrev pub last_balance : ℤ → List (ℤ × ℤ) → ℤ
  last_balance b [] = b
  last_balance b ((c, n) ∷ later) = last_balance c later

  abbrev pub net_sum : List (ℤ × ℤ) → ℤ
  net_sum [] = pos 0
  net_sum ((c, n) ∷ later) = n +ℤ net_sum later

  -- One more link: the tolerance of a link is added.
  link :
      (tol n : ℕ) (prev balance credit debit sum end : ℤ)
      → IsWithin tol balance (prev +ℤ credit -ℤ debit)
      → IsWithin (tol * n) end (balance +ℤ sum)
      → IsWithin (tol * suc n) end (prev +ℤ ((credit -ℤ debit) +ℤ sum))
  link tol n prev balance credit debit sum end h k = omega int_laws

  next_row-chain :
      (acct : AccountId) (i : ℕ) (prev : ℤ) (found : Option ℤ) (t : Transaction)
      (later : Option ℤ → List ValidationFailure) (behind : List (ℤ × ℤ))
      → ((b : ℤ)
          → later (some b) ≡ []
          → IsWithin (2 * cent * length behind) (last_balance b behind) (b +ℤ net_sum behind))
      → next_row float cent acct i (some prev) found t later ≡ []
      → IsWithin
          (2 * cent * length (balance_of found t behind))
          (last_balance prev (balance_of found t behind))
          (prev +ℤ net_sum (balance_of found t behind))
  next_row-chain acct i prev none t later behind ih h = ih prev h
  next_row-chain acct i prev (some b) t later behind ih h =
      let (e, h') = append-empty _ _ h in
      let close =
        differs-false b (prev +ℤ amount float t.credit -ℤ amount float t.debit)
          (flag-none _ _ _ _ e) in
      link (2 * cent) (length behind) prev b (amount float t.credit) (amount float t.debit)
        (net_sum behind) (last_balance b behind) close (ih b h')

  check_rows-chain :
      (acct : AccountId) (i : ℕ) (prev : ℤ) (rows : List (Option Transaction))
      → check_rows float cent acct i (some prev) rows ≡ []
      → IsWithin
          (2 * cent * length (balances rows))
          (last_balance prev (balances rows))
          (prev +ℤ net_sum (balances rows))
  unfolding check_rows
  check_rows-chain acct i prev [] h = omega int_laws
  check_rows-chain acct i prev (none ∷ rows) h = check_rows-chain acct (i + 1) prev rows h
  check_rows-chain acct i prev (some t ∷ rows) h =
      next_row-chain acct i prev (to_float float t.balance) t
        (λ p. check_rows float cent acct (i + 1) p rows) (balances rows)
        (λ b. check_rows-chain acct (i + 1) b rows) h

  first_row :
      (acct : AccountId) (i : ℕ) (found : Option ℤ) (t : Transaction)
      (rows : List (Option Transaction)) (first added : ℤ) (later : List (ℤ × ℤ))
      → (check_rows float cent acct (i + 1) none rows ≡ []
          → balances rows ≡ (first, added) ∷ later
          → IsWithin (2 * cent * length later) (last_balance first later) (first +ℤ net_sum later))
      → next_row float cent acct i none found t (λ p. check_rows float cent acct (i + 1) p rows)
        ≡ []
      → balance_of found t (balances rows) ≡ (first, added) ∷ later
      → IsWithin (2 * cent * length later) (last_balance first later) (first +ℤ net_sum later)
  first_row acct i none t rows first added later ih h e = ih h e
  first_row acct i (some b) t rows first added later ih h e =
      let firsts : b ≡ first = cc e in
      let laters : balances rows ≡ later = cc e in
      rw (← firsts, ← laters) (check_rows-chain acct (i + 1) b rows h)

  -- Where the running balances of an account raise no failure, the last balance that its
  -- transactions state is the first one and what the later transactions with a balance add, up to
  -- two cents for each of them.
  pub running_balance_telescopes :
      (acct : AccountId) (i : ℕ) (rows : List (Option Transaction)) (first added : ℤ)
      (later : List (ℤ × ℤ))
      → check_rows float cent acct i none rows ≡ []
      → balances rows ≡ (first, added) ∷ later
      → IsWithin (2 * cent * length later) (last_balance first later) (first +ℤ net_sum later)
  unfolding check_rows
  running_balance_telescopes acct i [] first added later h e = cc
  running_balance_telescopes acct i (none ∷ rows) first added later h e =
      running_balance_telescopes acct (i + 1) rows first added later h e
  running_balance_telescopes acct i (some t ∷ rows) first added later h e =
      first_row acct i (to_float float t.balance) t rows first added later
        (running_balance_telescopes acct (i + 1) rows first added later) h e

  total_debits-lost :
      (before : List (Option Transaction)) (t : Transaction) (behind : List (Option Transaction))
      → total_debits float cent (before ++ some t ∷ behind)
        ≡ amount float t.debit +ℤ total_debits float cent (before ++ behind)
  unfolding total_debits
  total_debits-lost [] t behind = refl
  total_debits-lost (none ∷ before) t behind = total_debits-lost before t behind
  total_debits-lost (some u ∷ before) t behind = of_parts _ _ (
      omega (
        int_laws,
        ap pos_part (total_debits-lost before t behind),
        ap neg_part (total_debits-lost before t behind),
      ))

  total_credits-lost :
      (before : List (Option Transaction)) (t : Transaction) (behind : List (Option Transaction))
      → total_credits float cent (before ++ some t ∷ behind)
        ≡ amount float t.credit +ℤ total_credits float cent (before ++ behind)
  unfolding total_credits
  total_credits-lost [] t behind = refl
  total_credits-lost (none ∷ before) t behind = total_credits-lost before t behind
  total_credits-lost (some u ∷ before) t behind = of_parts _ _ (
      omega (
        int_laws,
        ap pos_part (total_credits-lost before t behind),
        ap neg_part (total_credits-lost before t behind),
      ))

  reconcile_with-some :
      (acct : AccountId) (opening closing : ℤ) (rows : List (Option Transaction))
      → 0 < length rows
      → reconcile_with float cent acct (some opening) (some closing) rows
        ≡ flag float cent
            (differs float cent closing
              (opening +ℤ total_credits float cent rows -ℤ total_debits float cent rows))
            "validate_account_balance_reconciliation"
            (account acct)
            "ERR_VAL_BALANCE_RECON"
  reconcile_with-some acct opening closing [] h = absurd (omega (arith, h))
  reconcile_with-some acct opening closing (row ∷ rows) h = refl

  -- What is close to the one sum is far from the other.
  far_apart :
      (tol : ℕ) (closing opening credit debit credits debits : ℤ)
      → IsWithin tol closing (opening +ℤ (credit +ℤ credits) -ℤ (debit +ℤ debits))
      → IsWithin tol closing (opening +ℤ credits -ℤ debits)
      → IsWithin (2 * tol) credit debit
  far_apart tol closing opening credit debit credits debits h k = omega (int_laws, h, k)

  length-middle : {A : Type 0} (xs : List A) (y : A) (ys : List A) → 0 < length (xs ++ y ∷ ys)
  length-middle [] y ys = omega arith
  length-middle (x ∷ xs) y ys = omega arith

  -- Where an account with an opening and a closing balance is reconciled, and one of its
  -- transactions adds or takes more than four cents, the account without that transaction is
  -- reported, provided that another entry is left.
  pub lost_transaction_found :
      (i : ℕ) (a : Account) (before : List (Option Transaction)) (t : Transaction)
      (behind : List (Option Transaction)) (opening closing : ℤ)
      → to_float float a.opening_balance ≡ some opening
      → to_float float a.closing_balance ≡ some closing
      → 0 < length (before ++ behind)
      → 4 * cent < nat_abs (net t)
      → reconcile float cent i (record a { transactions = before ++ some t ∷ behind }) ≡ []
      → reconcile float cent i (record a { transactions = before ++ behind })
        ≡ record {
          validator_name = "validate_account_balance_reconciliation";
          field_name = account (acct_id i a);
          error_code = "ERR_VAL_BALANCE_RECON";
        }
          ∷ []
  unfolding reconcile acct_id
  lost_transaction_found i a before t behind opening closing o c some_left big h =
      let acct = acct_id i a in
      let rows = before ++ behind in
      let expected = opening +ℤ total_credits float cent rows -ℤ total_debits float cent rows in
      let whole = before ++ some t ∷ behind in
      let near : IsWithin (2 * cent) closing
          (opening +ℤ total_credits float cent whole -ℤ total_debits float cent whole) =
        differs-false closing _ (
          flag-none _ _ _ _ (
            sym (
              reconcile_with-some acct opening closing whole (length-middle before (some t) behind))
            ∙ rw (o, c) at h)) in
      elim (Bool-cases (differs float cent closing expected)) [
        | inl bad ↦
            rw (o, c) (reconcile_with-some acct opening closing rows some_left ∙ rw bad refl)
        | inr good ↦
            let small =
              far_apart (2 * cent) closing opening (amount float t.credit) (amount float t.debit)
                (total_credits float cent rows) (total_debits float cent rows)
                (rw (total_credits-lost before t behind, total_debits-lost before t behind) at near)
                (differs-false closing expected good) in
            absurd (
              omega (
                arith,
                big,
                (nat_abs-IsWithin (amount float t.credit) (amount float t.debit) (2 * (2 * cent))).1
                    small,
              ))
      ]
