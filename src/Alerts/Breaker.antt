-- ===== src/Alerts/Breaker.antt =====
-- Circuit breaker events of pdf_ingestion/pipeline/alerts/engine.py, against the promise that a
-- firing rule is not notified again.
use smart_pdf_extractor.Prelude.{
  [], string_eq, ◌∷◌, ℕ, ◌+◌, ◌≡◌, refl, String, List, Option, some, map, arith, ◌==◌, ◌&&◌, ==_iff,
  count_if, count_if-append, if◌then◌else◌,
}
use smart_pdf_extractor.Alerts.History.{
  Entry, Notifier, emit_notification, open_count, is_open, fired, dispatch,
}
use smart_pdf_extractor.Alerts.Engine.{
  Rule, firing, BreakerEvent, closed, open_, matches, handle_breaker_rule, no_context,
  handle_circuit_breaker_event,
}
use smart_pdf_extractor.Alerts.OneOpen.{opened}

-- The rules of this id that the event concerns.
abbrev pub concerned : BreakerEvent → String → List Rule → ℕ
concerned e rid rs = count_if (λ r. matches e r && r.id == rid) rs

-- A rule after the event: firing if the event concerns it, and else as it was.
abbrev pub fired_by : BreakerEvent → ℕ → Rule → Rule
fired_by e now r =
    if matches e r then record r { state = firing; last_evaluated_at = some now } else r

one_rule :
    (notifier : Option Notifier) (e : BreakerEvent) (now : ℕ) (rid : String) (r : Rule)
    (h : List Entry)
    → e.previous_state ≡ closed
    → e.new_state ≡ open_
    → ((handle_breaker_rule notifier e now r h).0 ≡ fired_by e now r)
      × (open_count rid (handle_breaker_rule notifier e now r h).1
          ≡ open_count rid h + concerned e rid (r ∷ []))
unfolding handle_breaker_rule emit_notification
one_rule notifier e now rid r h p q = ground (
  arith,
  p,
  q,
  ==_iff r.id rid,
  ==_iff rid r.id,
  count_if-append (is_open rid) h
      (opened r now (dispatch notifier r.channel fired) no_context ∷ []),
)

-- An event that reports an opened breaker leaves each rule that it concerns firing, and the others
-- as they are. For each id it adds as many open entries to the history as there are rules of that
-- id that it concerns, also where these are firing with an open entry already.
pub reopened :
    (notifier : Option Notifier) (e : BreakerEvent) (now : ℕ) (rules : List Rule)
    (history : List Entry)
    → e.previous_state ≡ closed
    → e.new_state ≡ open_
    → let (rules', history') = handle_circuit_breaker_event notifier e now rules history in
      (rules' ≡ map (fired_by e now) rules)
      × ((rid : String) → open_count rid history' ≡ open_count rid history + concerned e rid rules)
unfolding handle_circuit_breaker_event
reopened notifier e now [] h p q = (refl, λ rid. omega arith)
reopened notifier e now (r ∷ rs) h p q =
    let h' = (handle_breaker_rule notifier e now r h).1 in
    let (same, counts) = reopened notifier e now rs h' p q in
    (
      λ i. (one_rule notifier e now "" r h p q).0 i ∷ same i,
      λ rid. ground (arith, counts rid, (one_rule notifier e now rid r h p q).1),
    )
