-- ===== src/Runner/OneAccount.antt =====
-- The accounts of one number are merged without loss (process_document of
-- pdf_ingestion/pipeline/runner.py).
use smart_pdf_extractor.Prelude.{
  ℕ, ◌+◌, ◌≡◌, refl, Bool, true, false, Option, none, some, List, [], ◌∷◌, ◌++◌, ltb, ◌==◌,
  string_eq, length, count_if, count_if-append, arith, Bool-cases, inl, inr,
}
use smart_pdf_extractor.Dict
use smart_pdf_extractor.Dict.{Dict, lookup-put, lookup-put_same}
use smart_pdf_extractor.Runner.Merging.{Transaction, Account}
use smart_pdf_extractor.Runner.Accounts.{
  AccountKey, key_eq, key_of, filed_under, is_empty, merge_or_add, file_account, merge_accounts,
  is_useful, useful_accounts, deduplicate,
}

-- The transactions of a list of accounts, in order.
abbrev pub all_transactions : List (Option Account) → List Transaction
all_transactions [] = []
all_transactions (none ∷ accts) = all_transactions accts
all_transactions (some a ∷ accts) = a.transactions ++ all_transactions accts

abbrev filed_transactions : Dict AccountKey Account → List Transaction
filed_transactions [] = []
filed_transactions ((k, a) ∷ merged) = a.transactions ++ filed_transactions merged

abbrev held : Option Account → List Transaction
held none = []
held (some a) = a.transactions

module _ (p : Transaction → Bool) where
  filed-put :
      (k : AccountKey) (a : Account) (merged : Dict AccountKey Account)
      → count_if p (filed_transactions (Dict.put k a merged))
          + count_if p (held (Dict.lookup k merged))
        ≡ count_if p (filed_transactions merged) + count_if p a.transactions
  unfolding Dict.put Dict.lookup
  filed-put k a [] = omega (arith, count_if-append p a.transactions [])
  filed-put k a ((l, b) ∷ merged) = elim (Bool-cases (l == k)) [
    | inl e ↦ rw e (
        omega (
          arith,
          count_if-append p a.transactions (filed_transactions merged),
          count_if-append p b.transactions (filed_transactions merged),
        ))
    | inr e ↦ rw e (
        omega (
          arith,
          filed-put k a merged,
          count_if-append p b.transactions (filed_transactions (Dict.put k a merged)),
          count_if-append p b.transactions (filed_transactions merged),
        ))
  ]

  count_merge_or_add :
      (o : Option Account) (a : Account)
      → count_if p (merge_or_add o a).transactions ≡ count_if p (held o) + count_if p a.transactions
  count_merge_or_add none a = omega arith
  count_merge_or_add (some b) a = count_if-append p b.transactions a.transactions

  count_file :
      (o : Option AccountKey) (a : Account) (merged : Dict AccountKey Account)
      → (o ≡ none → count_if p a.transactions ≡ 0)
      → count_if p (filed_transactions (file_account o a merged))
        ≡ count_if p (filed_transactions merged) + count_if p a.transactions
  count_file none a merged h = omega (arith, h refl)
  count_file (some k) a merged h = omega (
    arith,
    filed-put k (merge_or_add (Dict.lookup k merged) a) merged,
    count_merge_or_add (Dict.lookup k merged) a,
  )

  none_of_empty : (ts : List Transaction) → is_empty ts ≡ true → count_if p ts ≡ 0
  none_of_empty [] h = refl
  none_of_empty (t ∷ ts) h = cc

  skipped_empty :
      (o : Option AccountKey) (a : Account) (n : ℕ)
      → filed_under o a n ≡ none
      → count_if p a.transactions ≡ 0
  skipped_empty (some k) a n h = cc
  skipped_empty none a n h = none_of_empty a.transactions (ground (arith, h))

  count_merge :
      (raw : List (Option Account)) (merged : Dict AccountKey Account)
      → count_if p (filed_transactions (merge_accounts raw merged))
        ≡ count_if p (filed_transactions merged) + count_if p (all_transactions raw)
  unfolding merge_accounts
  count_merge [] merged = omega arith
  count_merge (none ∷ raw) merged = count_merge raw merged
  count_merge (some a ∷ raw) merged =
      let o = filed_under (key_of a) a (length merged) in
      omega (
        arith,
        count_merge raw (file_account o a merged),
        count_file o a merged (skipped_empty (key_of a) a (length merged)),
        count_if-append p a.transactions (all_transactions raw),
      )

  useless_empty : (a : Account) → is_useful a ≡ false → count_if p a.transactions ≡ 0
  useless_empty a h = none_of_empty a.transactions (ground (arith, h))

  count_useful :
      (merged : Dict AccountKey Account)
      → count_if p (all_transactions (useful_accounts merged))
        ≡ count_if p (filed_transactions merged)
  count_useful [] = refl
  count_useful ((k, a) ∷ merged) = elim (Bool-cases (is_useful a)) [
    | inl e ↦ rw e (
        omega (
          arith,
          count_useful merged,
          count_if-append p a.transactions (all_transactions (useful_accounts merged)),
          count_if-append p a.transactions (filed_transactions merged),
        ))
    | inr e ↦ rw e (
        omega (
          arith,
          count_useful merged,
          useless_empty a e,
          count_if-append p a.transactions (filed_transactions merged),
        ))
  ]

  pub count_deduplicate :
      (raw : List (Option Account))
      → count_if p (all_transactions (deduplicate raw)) ≡ count_if p (all_transactions raw)
  unfolding deduplicate
  count_deduplicate raw = elim (Bool-cases (ltb 1 (length raw))) [
    | inl e ↦ rw e (omega (arith, count_useful (merge_accounts raw []), count_merge raw []))
    | inr e ↦ rw e refl
  ]
