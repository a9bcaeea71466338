-- ===== src/Chunked/Merge.antt =====
-- merge_window_results of pdf_ingestion/pipeline/vlm/chunked_extractor.py. The JSON values of the
-- answers, and the floats that amounts are read as, are parameters.
use smart_pdf_extractor.Prelude.{
  String, Bool, not, ◌&&◌, Option, none, some, List, [], ◌∷◌, ◌++◌, any, ◌==◌, string_eq,
  if◌then◌else◌, SameTest, pair_eq,
}
use smart_pdf_extractor.Dict
use smart_pdf_extractor.Dict.{Dict}

-- A transaction: null and missing amounts are one and the same to the code. A missing date or
-- description is read as the empty text.
pub record Transaction (V : Type 0) : Type 0 where
  pub date : V
  pub description : V
  pub debit : Option V
  pub credit : Option V

-- A window's answer: its header fields, where it has them, its transactions, and all other
-- entries. None stands for null.
pub record WindowResult (V : Type 0) : Type 0 where
  pub header_fields : Dict String (Option V)
  pub transactions : List (Transaction V)
  pub others : Dict String (Option V)

abbrev pub nullable {ℓ} : {A : Type ℓ} → Option (Option A) → Option A
nullable none = none
nullable (some v) = v

-- `d.get(k)`
abbrev pub get : {V : Type 0} → String → Dict String (Option V) → Option V
get k d = nullable (Dict.lookup k d)

module _ {V : Type 0} where
  abbrev pub all_transactions : List (WindowResult V) → List (Transaction V)
  all_transactions [] = []
  all_transactions (r ∷ results) = r.transactions ++ all_transactions results

  abbrev pub first_headers : WindowResult V → Dict String (Option V)
  first_headers r = elim r.header_fields [ [] ↦ r.others | (x ∷ d) ↦ x ∷ d ]

  abbrev pub last_result : WindowResult V → List (WindowResult V) → WindowResult V
  last_result r [] = r
  last_result r (s ∷ results) = last_result s results

  abbrev pub set_closing : Option V → Option V → Dict String (Option V) → Dict String (Option V)
  set_closing (some v) top headers = Dict.put "closing_balance" (some v) headers
  set_closing none (some v) headers = Dict.put "closing_balance" (some v) headers
  set_closing none none headers = headers

pub record TransactionKey (V F : Type 0) : Type 0 where
  pub date : V
  pub description : V
  pub amount : F

-- `abs(float(x))`, where the value can be read, and 0.0
module _ {V F : Type 0} ⦃value : SameTest V⦄ ⦃float : SameTest F⦄ (abs_float : V → Option F)
    (zero_amount : F) where
  abbrev pub amount_of : Option F → F
  amount_of none = zero_amount
  amount_of (some x) = x

  abbrev pub first_amount : Option V → Option V → F
  first_amount (some debit) credit = amount_of (abs_float debit)
  first_amount none (some credit) = amount_of (abs_float credit)
  first_amount none none = zero_amount

  unfoldable pub make_transaction_key : Transaction V → TransactionKey V F
  make_transaction_key txn = record {
    date = txn.date;
    description = txn.description;
    amount = first_amount txn.debit txn.credit;
  }

  -- `TransactionKey.__eq__`
  unfoldable pub same_key : TransactionKey V F → TransactionKey V F → Bool
  same_key a b = a.date == b.date && a.description == b.description && a.amount == b.amount

  abbrev pub seen : TransactionKey V F → List (TransactionKey V F) → Bool
  seen k keys = any (same_key k) keys

  -- The two nested loops: the keys seen so far are carried on.
  unfoldable pub merge_transactions :
      List (TransactionKey V F) → List (Transaction V) → List (Transaction V)
  merge_transactions keys [] = []
  merge_transactions keys (txn ∷ txns) =
      let key = make_transaction_key txn in
      let kept = merge_transactions keys txns in
      let kept_new = merge_transactions (key ∷ keys) txns in
      if key.amount == zero_amount
      then txn ∷ kept
      else if not (seen key keys)
      then txn ∷ kept_new
      else kept

  unfoldable pub merge_window_results : List (WindowResult V) → WindowResult V
  merge_window_results [] = record { header_fields = []; transactions = []; others = [] }
  merge_window_results (r ∷ []) = r
  merge_window_results (r ∷ s ∷ results) =
      let last = last_result s results in
      record {
        header_fields =
            set_closing (get "closing_balance" last.header_fields)
              (get "closing_balance" last.others) (first_headers r);
        transactions = merge_transactions [] (all_transactions (r ∷ s ∷ results));
        others = [];
      }
