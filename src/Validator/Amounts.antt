-- ===== src/Validator/Amounts.antt =====
-- The accounts that the validator reads, and its numbers (_to_float of
-- pdf_ingestion/pipeline/validator.py). An amount is a whole number of parts of a currency unit.
use smart_pdf_extractor.Prelude.{
  ℕ, ℤ, pos, String, Bool, ◌||◌, not, Option, none, some, List, [], ◌∷◌, Text, is_space, nat_beq,
  select,
}

-- A value of a dict, as far as `_to_float` tells them apart. A value of another type reads as text.
pub data Value : Type 0 where
  absent : Value
  number : ℤ → Value
  text : Text → Value

pub record Transaction : Type 0 where
  pub date : Option Text
  pub description : Option Text
  pub debit : Value
  pub credit : Value
  pub balance : Value

-- `none` among the transactions is an entry that is no dict.
pub record Account : Type 0 where
  pub account_number : Option Text
  pub iban : Option Text
  pub opening_balance : Value
  pub closing_balance : Value
  pub total_debits : Value
  pub total_credits : Value
  pub transactions : List (Option Transaction)

-- `account.get("account_number") or account.get("iban") or f"account_{acct_idx}"`
pub data AccountId : Type 0 where
  named : Text → AccountId
  unnamed : ℕ → AccountId

abbrev pub first_name : ℕ → Option Text → Option Text → AccountId
first_name i (some (c ∷ acct)) iban = named (c ∷ acct)
first_name i acct (some (c ∷ iban)) = named (c ∷ iban)
first_name i acct iban = unnamed i

unfoldable pub acct_id : ℕ → Account → AccountId
acct_id i a = first_name i a.account_number a.iban

pub data FieldName : Type 0 where
  field : String → FieldName
  account : AccountId → FieldName
  account_part : AccountId → String → FieldName
  transaction : AccountId → ℕ → FieldName

-- The detail of a failure is left out.
pub record ValidationFailure : Type 0 where
  pub validator_name : String
  pub field_name : FieldName
  pub error_code : String

-- [€$£¥₹\s,]
abbrev pub is_dropped : ℕ → Bool
is_dropped c =
    nat_beq c 8364
    || nat_beq c 36
    || nat_beq c 163
    || nat_beq c 165
    || nat_beq c 8377
    || is_space c
    || nat_beq c 44

-- `float` reads a text or raises ValueError.
module _ (float : Text → Option ℤ) where
  abbrev pub read_cleaned : Text → Option ℤ
  read_cleaned [] = none
  read_cleaned (c ∷ cleaned) = float (c ∷ cleaned)

  unfoldable pub to_float : Value → Option ℤ
  to_float absent = none
  to_float (number n) = some n
  to_float (text t) = read_cleaned (select (λ c. not (is_dropped c)) t)

  -- `_to_float(value) or 0.0`
  abbrev pub or_zero : Option ℤ → ℤ
  or_zero none = pos 0
  or_zero (some n) = n

  unfoldable pub amount : Value → ℤ
  unfolding to_float
  amount v = or_zero (to_float v)
