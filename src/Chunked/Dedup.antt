-- ===== src/Chunked/Dedup.antt =====
-- What the merge of the windows' answers (merge_window_results of
-- pdf_ingestion/pipeline/vlm/chunked_extractor.py) keeps.
use smart_pdf_extractor.Prelude.{
  or_else, ℕ, String, ◌≡◌, refl, ap, true, false, Option, none, some, List, [], ◌∷◌, ◌==◌, ==_iff,
  string_eq, if◌then◌else◌, SameTest, count_if, min, arith, Bool-cases, inl, inr,
}
use smart_pdf_extractor.Dict.{Dict, lookup-put}
use smart_pdf_extractor.Chunked.Merge.{
  Transaction, TransactionKey, WindowResult, make_transaction_key, same_key, seen,
  merge_transactions, all_transactions, merge_window_results, first_headers, last_result, get,
  set_closing,
}

get-set_closing :
    {V : Type 0} (a b : Option V) (d : Dict String (Option V)) (name : String)
    → get name (set_closing a b d)
      ≡ (if name == "closing_balance" then or_else a (or_else b (get name d)) else get name d)
get-set_closing none none d name = ground arith
get-set_closing (some v) b d name = ground (
  arith,
  lookup-put "closing_balance" name (some v) d,
  ==_iff name "closing_balance",
  ==_iff "closing_balance" name,
)
get-set_closing none (some v) d name = ground (
  arith,
  lookup-put "closing_balance" name (some v) d,
  ==_iff name "closing_balance",
  ==_iff "closing_balance" name,
)

module _ {V F : Type 0} ⦃value : SameTest V⦄ ⦃float : SameTest F⦄ (abs_float : V → Option F)
    (zero_amount : F) where
  -- How many transactions have this key.
  abbrev pub count_key : TransactionKey V F → List (Transaction V) → ℕ
  count_key k txns =
      count_if
        (λ txn. same_key abs_float zero_amount k (make_transaction_key abs_float zero_amount txn))
        txns

  same_key-equal : (a b : TransactionKey V F) → same_key abs_float zero_amount a b ≡ true → a ≡ b
  unfolding same_key
  same_key-equal a b h = ground (
    arith,
    value.same_iff a.date b.date,
    value.same_iff a.description b.description,
    float.same_iff a.amount b.amount,
  )

  same-seen :
      (a b : TransactionKey V F) (keys : List (TransactionKey V F))
      → same_key abs_float zero_amount a b ≡ true
      → seen abs_float zero_amount a keys ≡ seen abs_float zero_amount b keys
  same-seen a b keys h = ap (λ k. seen abs_float zero_amount k keys) (same_key-equal a b h)

  same_amount :
      (a b : TransactionKey V F)
      → same_key abs_float zero_amount a b ≡ true
      → (a.amount == zero_amount) ≡ (b.amount == zero_amount)
  same_amount a b h =
      ap (λ (k : TransactionKey V F). k.amount == zero_amount) (same_key-equal a b h)

  merge_transactions_nonzero :
      (k : TransactionKey V F) (keys : List (TransactionKey V F)) (txns : List (Transaction V))
      → (k.amount == zero_amount) ≡ false
      → count_key k (merge_transactions abs_float zero_amount keys txns)
        ≡ (if seen abs_float zero_amount k keys then 0 else min 1 (count_key k txns))
  unfolding merge_transactions
  merge_transactions_nonzero k keys [] h = ground arith
  merge_transactions_nonzero k keys (txn ∷ txns) h =
      let key = make_transaction_key abs_float zero_amount txn in
      ground (
        arith,
        merge_transactions_nonzero k keys txns h,
        merge_transactions_nonzero k (key ∷ keys) txns h,
        same-seen k key keys,
        same_amount k key,
      )

  merge_transactions_zero :
      (k : TransactionKey V F) (keys : List (TransactionKey V F)) (txns : List (Transaction V))
      → (k.amount == zero_amount) ≡ true
      → count_key k (merge_transactions abs_float zero_amount keys txns) ≡ count_key k txns
  unfolding merge_transactions
  merge_transactions_zero k keys [] h = refl
  merge_transactions_zero k keys (txn ∷ txns) h =
      let key = make_transaction_key abs_float zero_amount txn in
      ground (
        arith,
        merge_transactions_zero k keys txns h,
        merge_transactions_zero k (key ∷ keys) txns h,
        same_amount k key,
      )

  -- The answers of two or more windows are merged without a double: of each key with an amount one
  -- transaction is left if there was any, and those without an amount are all kept.
  pub merge_window_results_counts :
      (r s : WindowResult V) (results : List (WindowResult V)) (k : TransactionKey V F)
      → let all = r ∷ s ∷ results in
        let merged = merge_window_results abs_float zero_amount all in
        count_key k merged.transactions ≡ (
          if k.amount == zero_amount
          then count_key k (all_transactions all)
          else min 1 (count_key k (all_transactions all)))
  unfolding merge_window_results
  merge_window_results_counts r s results k =
      let txns = all_transactions (r ∷ s ∷ results) in
      elim (Bool-cases (k.amount == zero_amount)) [
        | inl e ↦ simp e (merge_transactions_zero k [] txns e)
        | inr e ↦ simp e (merge_transactions_nonzero k [] txns e)
      ]

  -- The value under a header of the merge is that of the first window; only the closing balance
  -- is the last window's, if that has one among its header fields or else among its other entries.
  pub merge_window_results_headers :
      (r s : WindowResult V) (results : List (WindowResult V)) (name : String)
      → let merged = merge_window_results abs_float zero_amount (r ∷ s ∷ results) in
        let last = last_result s results in
        let first = get name (first_headers r) in
        get name merged.header_fields ≡ (
          if name == "closing_balance"
          then or_else
              (get "closing_balance" last.header_fields)
              (or_else (get "closing_balance" last.others) first)
          else first)
  unfolding merge_window_results
  merge_window_results_headers r s results name =
      let last = last_result s results in
      get-set_closing (get "closing_balance" last.header_fields) (get "closing_balance" last.others)
        (first_headers r) name
