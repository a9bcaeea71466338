-- ===== src/Tests/ChunkedRuns.antt =====
-- A document in windows, a budget that two windows share, and the theorems at them.
use smart_pdf_extractor.Prelude.{
  or_else, ℕ, ◌+◌, ◌*◌, ◌≤◌, String, ◌≡◌, refl, Option, none, some, List, [], ◌∷◌, min, arith, ◌==◌,
  ==_iff, string_eq, nat_eq, if◌then◌else◌, length, Some, All,
}
use smart_pdf_extractor.Chunked.Budget.{
  TokenBudget, total_consumed, record_usage, can_proceed, is_exceeded,
}
use smart_pdf_extractor.Chunked.Concurrent.{Run, stop, moved, begin, finish, overdraft_bounded}
use smart_pdf_extractor.Chunked.Windows.{WindowConfig, create_sliding_windows, sliding}
use smart_pdf_extractor.Chunked.Coverage.{
  HoldsPage, IsWindowOf, IsFew, sliding_fuel, create_sliding_windows-HoldsPage,
  create_sliding_windows-IsWindowOf, create_sliding_windows-IsFew,
}
use smart_pdf_extractor.Chunked.Targets.{select_target_pages}
use smart_pdf_extractor.Chunked.Asked.{times, asked, select_target_pages_once}
use smart_pdf_extractor.Chunked.Merge.{
  Transaction, TransactionKey, WindowResult, merge_window_results, all_transactions, get,
}
use smart_pdf_extractor.Chunked.Dedup.{
  count_key, merge_window_results_counts, merge_window_results_headers,
}

abbrev pages : List String
pages = "p1" ∷ "p2" ∷ "p3" ∷ "p4" ∷ "p5" ∷ []

abbrev config : WindowConfig
config = record { window_size = 3; overlap = 1; max_concurrent = 2 }

create_sliding_windows-HoldsPage_example :
    Some (HoldsPage pages 3) (create_sliding_windows pages config)
create_sliding_windows-HoldsPage_example =
    create_sliding_windows-HoldsPage pages config 3 (omega arith) (omega arith)

windows_in_bounds : All (IsWindowOf pages config) (create_sliding_windows pages config)
windows_in_bounds = create_sliding_windows-IsWindowOf pages config

create_sliding_windows-IsFew_run : IsFew 5 2 1 0 (length (create_sliding_windows pages config))
create_sliding_windows-IsFew_run = create_sliding_windows-IsFew pages config (omega arith)

fuel_5_or_9 : sliding 5 config pages 0 ≡ sliding 9 config pages 0
fuel_5_or_9 = sliding_fuel 5 9 config pages 0 (omega arith) (omega arith)

abbrev budget : TokenBudget
budget = record {
  max_tokens = 10;
  budget_exceeded_action = "skip";
  consumed_input_tokens = 0;
  consumed_output_tokens = 0;
  windows_processed = 0;
}

abbrev spent : TokenBudget
spent = record budget {
  consumed_input_tokens = 10;
  consumed_output_tokens = 6;
  windows_processed = 2;
}

-- Two windows begin before either has recorded its tokens.
both_finish :
    Run 2 8 (record { budget = budget; in_flight = [] }) (record { budget = spent; in_flight = [] })
unfolding can_proceed is_exceeded record_usage
both_finish = moved _ _ _ (begin budget [] 5 3 (omega arith) refl (omega arith)) (
    moved _ _ _ (begin budget ((5, 3) ∷ []) 5 3 (omega arith) refl (omega arith)) (
      moved _ _ _ (finish budget [] ((5, 3) ∷ []) 5 3)
        (moved _ _ _ (finish (record_usage 5 3 budget) [] [] 5 3) (stop _))))

overdraft_bounded_example : total_consumed spent ≤ 10 + 8 * 2
overdraft_bounded_example =
    overdraft_bounded 2 8 budget (record { budget = spent; in_flight = [] })
      (
        ground (arith, ==_iff {K = String} "skip" "proceed"),
        ground (arith, ==_iff {K = String} "skip" "flag"),
      )
      (omega arith) both_finish

-- Amounts in cents.
abbrev cents : String → Option ℕ
cents v = if v == "5.00" then some 500 else if v == "0.00" then some 0 else none

abbrev fee : Transaction String
fee = record { date = "2024-01-02"; description = "fee"; debit = some "5.00"; credit = none }

abbrev note : Transaction String
note = record { date = "2024-01-02"; description = "note"; debit = none; credit = none }

abbrev first_window : WindowResult String
first_window = record {
  header_fields = ("currency", some "SGD") ∷ ("closing_balance", none) ∷ [];
  transactions = fee ∷ note ∷ fee ∷ [];
  others = [];
}

abbrev second_window : WindowResult String
second_window = record {
  header_fields = ("currency", some "USD") ∷ ("closing_balance", some "9.00") ∷ [];
  transactions = fee ∷ note ∷ [];
  others = [];
}

abbrev fee_key : TransactionKey String ℕ
fee_key = record { date = "2024-01-02"; description = "fee"; amount = 500 }

merge_window_results_counts_example :
    let all = first_window ∷ second_window ∷ [] in
    count_key cents 0 fee_key (merge_window_results cents 0 all).transactions ≡ (
      if fee_key.amount == 0
      then count_key cents 0 fee_key (all_transactions all)
      else min 1 (count_key cents 0 fee_key (all_transactions all)))
merge_window_results_counts_example =
    merge_window_results_counts cents 0 first_window second_window [] fee_key

merge_window_results_headers_run :
    get "closing_balance"
      (merge_window_results cents 0 (first_window ∷ second_window ∷ [])).header_fields
    ≡ or_else (get "closing_balance" second_window.header_fields) (
        or_else
          (get "closing_balance" second_window.others)
          (get "closing_balance" first_window.header_fields))
merge_window_results_headers_run =
    merge_window_results_headers cents 0 first_window second_window [] "closing_balance"

select_target_pages_once_run :
    times "iban" (asked (select_target_pages ("iban" ∷ "closing_balance" ∷ "iban" ∷ []) 9)) ≡ 1
select_target_pages_once_run =
    select_target_pages_once "iban" ("iban" ∷ "closing_balance" ∷ "iban" ∷ []) 9 (omega arith)
