-- ===== src/Alerts/History.antt =====
-- Notifications and the alert history: _emit_notification of
-- pdf_ingestion/pipeline/alerts/engine.py and the dispatcher of alerts/notifier.py. The random id
-- of a history entry and the payload's text are left out.
use smart_pdf_extractor.Prelude.{
  ℕ, ◌+◌, ◌-◌, String, ◌≡◌, refl, Bool, true, false, ◌&&◌, not, Option, none, some, List, [], ◌∷◌,
  ◌++◌, arith, ◌==◌, string_eq, ==_iff, if◌then◌else◌, count_if, Bool-cases, inl, inr,
}

pub data EventType : Type 0 where
  fired recovered : EventType

pub data Channel : Type 0 where
  webhook email other : Channel

-- What is told about the condition: the threshold and the measure as numerator and denominator.
pub record Context : Type 0 where
  pub threshold : ℕ × ℕ
  pub actual : ℕ × ℕ

pub record Entry : Type 0 where
  pub rule_id : String
  pub tenant_id : Option String
  pub fired_at : ℕ
  pub resolved_at : Option ℕ
  pub notification_sent : Bool
  pub acknowledged_by : Option String
  pub context : Context

-- An object with `send_webhook` and `send_email`; the result says whether the call raises.
pub record Notifier : Type 0 where
  pub webhook_raises : EventType → Bool
  pub email_raises : EventType → Bool

abbrev pub sends : Notifier → Channel → EventType → Bool
sends n webhook event = not (n.webhook_raises event)
sends n email event = not (n.email_raises event)
sends n other event = true

-- `notification_sent`: false with no notifier and where the dispatch raises.
unfoldable pub dispatch : Option Notifier → Channel → EventType → Bool
dispatch none channel event = false
dispatch (some n) channel event = sends n channel event

-- NotificationDispatcher: both methods catch every exception and return.
abbrev pub notification_dispatcher : Notifier
notification_dispatcher = record { webhook_raises = λ _. false; email_raises = λ _. false }

abbrev pub is_none {ℓ} : {A : Type ℓ} → Option A → Bool
is_none none = true
is_none (some a) = false

-- An open entry of a rule.
abbrev pub is_open : String → Entry → Bool
is_open rid e = e.rule_id == rid && is_none e.resolved_at

abbrev pub open_count : String → List Entry → ℕ
open_count rid h = count_if (is_open rid) h

abbrev pub mark : Bool → String → ℕ → Entry → List Entry → Bool × List Entry
mark done rid now e h =
    if done
    then (true, e ∷ h)
    else if is_open rid e
    then (true, record e { resolved_at = some now } ∷ h)
    else (false, e ∷ h)

-- `for entry in reversed(_ALERT_HISTORY)`: the most recent open entry of the rule is resolved.
unfoldable pub resolve_last : String → ℕ → List Entry → Bool × List Entry
resolve_last rid now [] = (false, [])
resolve_last rid now (e ∷ h) = let (done, h') = resolve_last rid now h in mark done rid now e h'

-- What a firing rule adds, and what a recovered one closes.
unfoldable pub emit_notification :
    Option Notifier
    → Channel
    → String
    → Option String
    → EventType
    → Context
    → ℕ
    → List Entry
    → List Entry
unfolding dispatch
emit_notification notifier channel rid tid fired context now h =
    h
    ++ record {
      rule_id = rid;
      tenant_id = tid;
      fired_at = now;
      resolved_at = none;
      notification_sent = dispatch notifier channel fired;
      acknowledged_by = none;
      context = context;
    }
      ∷ []
emit_notification notifier channel rid tid recovered context now h = (resolve_last rid now h).1

module _ (rid : String) (now : ℕ) where
  -- Whether an entry was closed, and the open entries of this rule that are left.
  resolve_last_self :
      (h : List Entry)
      → ((resolve_last rid now h).0 ≡ true
          → open_count rid (resolve_last rid now h).1 + 1 ≡ open_count rid h)
        × ((resolve_last rid now h).0 ≡ false
            → (open_count rid (resolve_last rid now h).1 ≡ open_count rid h)
              × (open_count rid h ≡ 0))
  unfolding resolve_last
  resolve_last_self [] = (λ e. cc, λ e. (refl, refl))
  resolve_last_self (e ∷ h) =
      let (hit, miss) = resolve_last_self h in
      elim (Bool-cases (resolve_last rid now h).0) [
        | inl d ↦ (λ _. ground (arith, hit d), λ x. absurd (ground (arith, d)))
        | inr d ↦ (λ x. ground (arith, miss d), λ x. ground (arith, miss d))
      ]

  pub open_count-resolve_self :
      (h : List Entry) → open_count rid (resolve_last rid now h).1 ≡ open_count rid h - 1
  open_count-resolve_self h =
      let (hit, miss) = resolve_last_self h in
      elim (Bool-cases (resolve_last rid now h).0) [
        | inl d ↦ omega (arith, hit d)
        | inr d ↦ omega (arith, (miss d).0, (miss d).1)
      ]

  pub open_count-resolve_ne :
      (rid' : String) (h : List Entry)
      → (rid == rid') ≡ false
      → open_count rid' (resolve_last rid now h).1 ≡ open_count rid' h
  unfolding resolve_last
  open_count-resolve_ne rid' [] ne = refl
  open_count-resolve_ne rid' (e ∷ h) ne = ground (
    arith,
    open_count-resolve_ne rid' h ne,
    ==_iff e.rule_id rid,
    ==_iff e.rule_id rid',
    ==_iff rid rid',
  )
