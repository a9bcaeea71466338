-- ===== src/Tests/ValidatorRuns.antt =====
-- An account with two transactions, in cents.
use smart_pdf_extractor.Prelude.{
  ℤ, pos, ◌+ℤ◌, ◌-ℤ◌, nat_abs, IsWithin, ◌*◌, ◌<◌, ◌≡◌, refl, Option, none, some, [], ◌∷◌, Text,
  arith,
}
use smart_pdf_extractor.Validator.Amounts.{
  absent, number, Transaction, Account, unnamed, acct_id, to_float, amount, account,
}
use smart_pdf_extractor.Validator.Balances.{
  differs, check_rows, total_debits, total_credits, reconcile,
}
use smart_pdf_extractor.Validator.Chains.{
  balances, net, net_sum, running_balance_telescopes, lost_transaction_found,
}

-- No text reads as a number here.
abbrev float : Text → Option ℤ
float t = none

abbrev rent : Transaction
rent = record {
  date = none;
  description = none;
  debit = number (pos 2000);
  credit = absent;
  balance = number (pos 13001);
}

abbrev paid : Transaction
paid = record {
  date = none;
  description = none;
  debit = absent;
  credit = number (pos 5000);
  balance = number (pos 15000);
}

-- The second balance is a cent off.
rows_clean : check_rows float 1 (unnamed 0) 0 none (some paid ∷ some rent ∷ []) ≡ []
unfolding check_rows to_float amount differs nat_abs ◌+ℤ◌ ◌-ℤ◌
rows_clean = refl

rows_read :
    balances float 1 (some paid ∷ some rent ∷ [])
    ≡ (pos 15000, net float 1 paid) ∷ (pos 13001, net float 1 rent) ∷ []
unfolding to_float
rows_read = refl

running_balance_telescopes_example :
    IsWithin
      (2 * 1 * 1)
      (pos 13001)
      (pos 15000 +ℤ net_sum float 1 ((pos 13001, net float 1 rent) ∷ []))
running_balance_telescopes_example =
    running_balance_telescopes float 1 (unnamed 0) 0 (some paid ∷ some rent ∷ []) (pos 15000)
      (net float 1 paid) ((pos 13001, net float 1 rent) ∷ []) rows_clean rows_read

abbrev acct : Account
acct = record {
  account_number = none;
  iban = none;
  opening_balance = number (pos 10000);
  closing_balance = number (pos 13000);
  total_debits = absent;
  total_credits = absent;
  transactions = some paid ∷ some rent ∷ [];
}

acct_reconciled : reconcile float 1 0 acct ≡ []
unfolding reconcile to_float amount total_debits total_credits differs nat_abs ◌+ℤ◌ ◌-ℤ◌
acct_reconciled = refl

opening_read : to_float float acct.opening_balance ≡ some (pos 10000)
unfolding to_float
opening_read = refl

closing_read : to_float float acct.closing_balance ≡ some (pos 13000)
unfolding to_float
closing_read = refl

rent_big : 4 * 1 < nat_abs (net float 1 rent)
unfolding to_float amount nat_abs ◌-ℤ◌
rent_big = omega arith

lost_transaction_found_run :
    reconcile float 1 0 (record acct { transactions = some paid ∷ [] })
    ≡ record {
      validator_name = "validate_account_balance_reconciliation";
      field_name = account (acct_id 0 acct);
      error_code = "ERR_VAL_BALANCE_RECON";
    }
      ∷ []
lost_transaction_found_run =
    lost_transaction_found float 1 0 acct (some paid ∷ []) rent [] (pos 10000) (pos 13000)
      opening_read closing_read (omega arith) rent_big acct_reconciled
