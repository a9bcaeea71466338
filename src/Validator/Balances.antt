-- ===== src/Validator/Balances.antt =====
-- The checks of balances and totals (validate_running_balance,
-- validate_account_balance_reconciliation, validate_transaction_completeness and
-- validate_totals_crosscheck of pdf_ingestion/pipeline/validator.py).
use smart_pdf_extractor.Prelude.{
  ℕ, ◌+◌, ◌*◌, ℤ, pos, ◌+ℤ◌, ◌-ℤ◌, nat_abs, String, Bool, Option, none, some, List, [], ◌∷◌, ◌++◌,
  Text, ltb, if◌then◌else◌,
}
use smart_pdf_extractor.Validator.Amounts.{
  Transaction, Account, AccountId, acct_id, FieldName, ValidationFailure, to_float, amount, account,
  account_part, transaction,
}

-- `cent` is the number of parts in a cent: the tolerance is two cents.
module _ (float : Text → Option ℤ) (cent : ℕ) where
  -- `abs(found - expected) > 0.02`
  unfoldable pub differs : ℤ → ℤ → Bool
  differs found expected = ltb (2 * cent) (nat_abs (found -ℤ expected))

  abbrev pub flag : Bool → String → FieldName → String → List ValidationFailure
  flag bad name f code =
      if bad then record { validator_name = name; field_name = f; error_code = code } ∷ [] else []

  abbrev pub check_row : AccountId → ℕ → Option ℤ → ℤ → Transaction → List ValidationFailure
  check_row acct i none balance t = []
  check_row acct i (some prev) balance t =
      flag (differs balance (prev +ℤ amount float t.credit -ℤ amount float t.debit))
        "validate_running_balance" (transaction acct i) "ERR_VAL_RUNNING_BALANCE"

  -- A row without a balance is passed over.
  abbrev pub next_row :
      AccountId
      → ℕ
      → Option ℤ
      → Option ℤ
      → Transaction
      → (Option ℤ → List ValidationFailure)
      → List ValidationFailure
  next_row acct i prev none t later = later prev
  next_row acct i prev (some balance) t later =
      check_row acct i prev balance t ++ later (some balance)

  -- The loop over the transactions, with `prev_balance`.
  unfoldable pub check_rows :
      AccountId → ℕ → Option ℤ → List (Option Transaction) → List ValidationFailure
  check_rows acct i prev [] = []
  check_rows acct i prev (none ∷ rows) = check_rows acct (i + 1) prev rows
  check_rows acct i prev (some t ∷ rows) =
      next_row acct i prev (to_float float t.balance) t (λ p. check_rows acct (i + 1) p rows)

  -- The loop over the accounts: `none` among them is an entry that is no dict.
  abbrev pub each_account :
      (ℕ → Account → List ValidationFailure) → ℕ → List (Option Account) → List ValidationFailure
  each_account check i [] = []
  each_account check i (none ∷ accounts) = each_account check (i + 1) accounts
  each_account check i (some a ∷ accounts) = check i a ++ each_account check (i + 1) accounts

  unfoldable pub validate_running_balance : List (Option Account) → List ValidationFailure
  validate_running_balance = each_account (λ i a. check_rows (acct_id i a) 0 none a.transactions) 0

  -- The sums of the debits and of the credits.
  unfoldable pub total_debits : List (Option Transaction) → ℤ
  total_debits [] = pos 0
  total_debits (none ∷ rows) = total_debits rows
  total_debits (some t ∷ rows) = amount float t.debit +ℤ total_debits rows

  unfoldable pub total_credits : List (Option Transaction) → ℤ
  total_credits [] = pos 0
  total_credits (none ∷ rows) = total_credits rows
  total_credits (some t ∷ rows) = amount float t.credit +ℤ total_credits rows

  abbrev pub reconcile_with :
      AccountId → Option ℤ → Option ℤ → List (Option Transaction) → List ValidationFailure
  reconcile_with acct none closing rows = []
  reconcile_with acct (some opening) none rows = []
  reconcile_with acct (some opening) (some closing) [] = []
  reconcile_with acct (some opening) (some closing) (row ∷ rows) =
      flag (differs closing (opening +ℤ total_credits (row ∷ rows) -ℤ total_debits (row ∷ rows)))
        "validate_account_balance_reconciliation" (account acct) "ERR_VAL_BALANCE_RECON"

  unfoldable pub reconcile : ℕ → Account → List ValidationFailure
  reconcile i a =
      reconcile_with (acct_id i a) (to_float float a.opening_balance)
        (to_float float a.closing_balance) a.transactions

  unfoldable pub validate_account_balance_reconciliation :
      List (Option Account) → List ValidationFailure
  validate_account_balance_reconciliation = each_account reconcile 0

  abbrev pub missing_rows : AccountId → List (Option Transaction) → List ValidationFailure
  missing_rows acct [] =
      record {
        validator_name = "validate_transaction_completeness";
        field_name = account acct;
        error_code = "ERR_VAL_NO_TRANSACTIONS";
      }
      ∷ []
  missing_rows acct (row ∷ rows) = []

  unfoldable pub validate_transaction_completeness : List (Option Account) → List ValidationFailure
  validate_transaction_completeness =
      each_account (λ i a. missing_rows (acct_id i a) a.transactions) 0

  abbrev pub crosscheck_with : Option ℤ → ℤ → AccountId → String → List ValidationFailure
  crosscheck_with none computed acct part = []
  crosscheck_with (some stated) computed acct part =
      flag (differs stated computed) "validate_totals_crosscheck" (account_part acct part)
        "ERR_VAL_TOTALS_MISMATCH"

  unfoldable pub crosscheck : ℕ → Account → List ValidationFailure
  crosscheck i a =
      crosscheck_with (to_float float a.total_debits) (total_debits a.transactions) (acct_id i a)
        "total_debits"
      ++ crosscheck_with (to_float float a.total_credits) (total_credits a.transactions)
          (acct_id i a) "total_credits"

  unfoldable pub validate_totals_crosscheck : List (Option Account) → List ValidationFailure
  validate_totals_crosscheck = each_account crosscheck 0
