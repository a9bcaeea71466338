-- ===== src/Alerts/OneOpen.antt =====
-- One evaluation cycle of pdf_ingestion/pipeline/alerts/engine.py against its state machine, and the
-- invariant that ties rule states to the alert history.
use smart_pdf_extractor.Prelude.{
  ◌∙◌, All, Option-cases, ℕ, ◌≤◌, String, ◌≡◌, ◌≢◌, ◌↔◌, refl, Bool, true, false, Option, none,
  List, [], ◌∷◌, ◌++◌, arith, ◌==◌, string_eq, ==_iff, if◌then◌else◌, count_if-append, Bool-cases,
  inl, inr,
}
use smart_pdf_extractor.Alerts.Periods.{period_start}
use smart_pdf_extractor.Alerts.History.{
  Entry, Context, Notifier, fired, dispatch, open_count, is_open, resolve_last, emit_notification,
  open_count-resolve_self, open_count-resolve_ne,
}
use smart_pdf_extractor.Alerts.Engine.{
  evaluate_all_rules, is_resolved, stamp, Rule, idle, firing, resolved, RuleType, budget,
  error_rate, abstention_rate, circuit_breaker, Sources, is_firing, transition, total_tokens,
  evaluate_abstention_rate_rule, evaluate_by_type, evaluate_rule,
}

-- The entry that a firing rule adds.
abbrev pub opened : Rule → ℕ → Bool → Context → Entry
opened r now sent context = record {
  rule_id = r.id;
  tenant_id = r.tenant_id;
  fired_at = now;
  resolved_at = none;
  notification_sent = sent;
  acknowledged_by = none;
  context = context;
}

-- The state machine of the module's documentation: what may happen to a rule and to the history.
pub data Effect (now : ℕ) (r : Rule) (h : List Entry) (r' : Rule) (h' : List Entry) : Type 0 where
  quiet : r'.state ≡ r.state → h' ≡ h → Effect now r h r' h'
  fires :
      (sent : Bool) (context : Context)
      → r.state ≡ idle
      → r'.state ≡ firing
      → h' ≡ h ++ opened r now sent context ∷ []
      → Effect now r h r' h'
  recovers :
      r.state ≡ firing
      → r'.state ≡ resolved
      → h' ≡ (resolve_last r.id now h).1
      → Effect now r h r' h'
  rests : r.state ≡ resolved → r'.state ≡ idle → h' ≡ h → Effect now r h r' h'

module _ (notifier : Option Notifier) (now : ℕ) where
  transition-Effect :
      (crossed : Bool) (c : Context) (r : Rule) (h : List Entry)
      → r.state ≢ resolved
      → Effect now r h
          (transition notifier now crossed c r h).0
          (transition notifier now crossed c r h).1
  unfolding transition emit_notification
  transition-Effect true c r h live = elim (Bool-cases (is_firing r.state)) [
    | inl f ↦ rw f (quiet refl refl)
    | inr f ↦ rw f (fires (dispatch notifier r.channel fired) c (ground arith) refl refl)
  ]
  transition-Effect false c r h live = elim (Bool-cases (is_firing r.state)) [
    | inl f ↦ rw f (recovers (ground arith) refl refl)
    | inr f ↦ rw f (quiet refl refl)
  ]

  module _ (src : Sources) where
    by_type-Effect :
        (t : RuleType) (r : Rule) (h : List Entry)
        → r.state ≢ resolved
        → Effect now r h
            (evaluate_by_type t notifier src now r h).0
            (evaluate_by_type t notifier src now r h).1
    unfolding evaluate_by_type
    by_type-Effect budget r h live = transition-Effect _ _ r h live
    by_type-Effect error_rate r h live = transition-Effect _ _ r h live
    by_type-Effect abstention_rate r h live =
        elim (Option-cases (src.abstention_stats r.config.window_minutes r.tenant_id)) [
          | inl e ↦ rw (e, evaluate_abstention_rate_rule) (quiet refl refl)
          | inr ((total, flagged), e) ↦
              rw (e, evaluate_abstention_rate_rule) (transition-Effect _ _ r h live)
        ]
    by_type-Effect circuit_breaker r h live = quiet refl refl

    Effect-stamp :
        (r : Rule) (h : List Entry) (p : Rule × List Entry)
        → Effect now r h p.0 p.1
        → Effect now r h (stamp now p).0 (stamp now p).1
    Effect-stamp r h (r', h') (quiet a b) = quiet a b
    Effect-stamp r h (r', h') (fires sent c a b d) = fires sent c a b d
    Effect-stamp r h (r', h') (recovers a b c) = recovers a b c
    Effect-stamp r h (r', h') (rests a b c) = rests a b c

    -- One evaluation of a rule takes one step of the state machine: nothing happens, an idle rule
    -- fires with one new entry, a firing rule recovers and its last open entry is resolved, or a
    -- resolved rule becomes idle.
    pub evaluate_rule-Effect :
        (r : Rule) (h : List Entry)
        → Effect now r h
            (evaluate_rule notifier src now r h).0
            (evaluate_rule notifier src now r h).1
    unfolding evaluate_rule
    evaluate_rule-Effect r h = elim (Bool-cases r.enabled) [
      | inl e ↦ elim (Bool-cases (is_resolved r.state)) [
        | inl d ↦ simp (e, d) (rests (ground arith) refl refl)
        | inr d ↦
            simp (e, d)
              (Effect-stamp r h (evaluate_by_type r.rule_type notifier src now r h)
                (by_type-Effect r.rule_type r h (ground arith)))
      ]
      | inr e ↦ simp e (quiet refl refl)
    ]

    -- An enabled budget rule that is not resting fires in a cycle exactly if the tokens of its
    -- tenant since the start of the period reach the threshold.
    pub budget_exact :
        (r : Rule) (h : List Entry)
        → r.enabled ≡ true
        → r.rule_type ≡ budget
        → r.state ≢ resolved
        → ((evaluate_rule notifier src now r h).0.state ≡ firing) ↔ (
            r.config.threshold_tokens
            ≤ total_tokens r.tenant_id (period_start r.config.billing_period now) src.usage)
    unfolding evaluate_rule evaluate_by_type transition
    budget_exact r h on t live = ground arith

-- What an effect does to the open entries of the rule, and of another rule.
abbrev pub Tallied : Rule → List Entry → Type 0
Tallied r h = open_count r.id h ≡ (if is_firing r.state then 1 else 0)

Effect-Tallied :
    {now : ℕ} {r r' : Rule} {h h' : List Entry}
    → Effect now r h r' h'
    → r'.id ≡ r.id
    → Tallied r h
    → Tallied r' h'
Effect-Tallied {now} {r} {r'} {h} {h'} (quiet a b) id t = ground arith
Effect-Tallied {now} {r} {r'} {h} {h'} (fires sent c a b d) id t =
    ground (arith, count_if-append (is_open r.id) h (opened r now sent c ∷ []), ==_iff r.id r.id)
Effect-Tallied {now} {r} {r'} {h} {h'} (recovers a b c) id t =
    ground (arith, open_count-resolve_self r.id now h)
Effect-Tallied {now} {r} {r'} {h} {h'} (rests a b c) id t = ground arith

Effect-open_count_ne :
    {now : ℕ} {r r' : Rule} {h h' : List Entry} (rid : String)
    → Effect now r h r' h'
    → (r.id == rid) ≡ false
    → open_count rid h' ≡ open_count rid h
Effect-open_count_ne rid (quiet a b) ne = rw b
Effect-open_count_ne {now} {r} {r'} {h} {h'} rid (fires sent c a b d) ne =
    ground (arith, count_if-append (is_open rid) h (opened r now sent c ∷ []))
Effect-open_count_ne {now} {r} {r'} {h} {h'} rid (recovers a b c) ne =
    ground (arith, open_count-resolve_ne r.id now rid h)
Effect-open_count_ne rid (rests a b c) ne = rw c

-- Rules with different ids.
abbrev pub DistinctIds : List Rule → Type 0
DistinctIds [] = Unit
DistinctIds (r ∷ rs) = All (λ q. (q.id == r.id) ≡ false) rs × DistinctIds rs

-- A firing rule has exactly one open entry in the history, and any other rule has none.
abbrev pub AllTallied : List Rule → List Entry → Type 0
AllTallied rs h = All (λ r. Tallied r h) rs

AllTallied-of_ne :
    (r : Rule) (h h' : List Entry) (rs : List Rule)
    → ((rid : String) → (r.id == rid) ≡ false → open_count rid h' ≡ open_count rid h)
    → All (λ q. (q.id == r.id) ≡ false) rs
    → AllTallied rs h
    → AllTallied rs h'
AllTallied-of_ne r h h' [] same ne t = tt
AllTallied-of_ne r h h' (q ∷ rs) same ne t = (
  same q.id (ground (arith, ne.0, ==_iff r.id q.id, ==_iff q.id r.id)) ∙ t.0,
  AllTallied-of_ne r h h' rs same ne.1 t.1,
)

module _ (notifier : Option Notifier) (src : Sources) (now : ℕ) where
  id-evaluate_rule : (r : Rule) (h : List Entry) → (evaluate_rule notifier src now r h).0.id ≡ r.id
  unfolding evaluate_rule evaluate_by_type transition
  id-evaluate_rule r h = ground arith

  open_count-evaluate_ne :
      (rid : String) (rs : List Rule) (h : List Entry)
      → All (λ q. (q.id == rid) ≡ false) rs
      → open_count rid (evaluate_all_rules notifier src now rs h).1 ≡ open_count rid h
  unfolding evaluate_all_rules
  open_count-evaluate_ne rid [] h ne = refl
  open_count-evaluate_ne rid (r ∷ rs) h ne =
      open_count-evaluate_ne rid rs (evaluate_rule notifier src now r h).1 ne.1
      ∙ Effect-open_count_ne rid (evaluate_rule-Effect notifier now src r h) ne.0

  -- A cycle over rules with different ids keeps the tally: if every firing rule had one open entry
  -- in the history and every other rule none, then so it is after the cycle.
  pub evaluate_all-AllTallied :
      (rs : List Rule) (h : List Entry)
      → DistinctIds rs
      → AllTallied rs h
      → AllTallied
          (evaluate_all_rules notifier src now rs h).0
          (evaluate_all_rules notifier src now rs h).1
  unfolding evaluate_all_rules
  evaluate_all-AllTallied [] h d t = tt
  evaluate_all-AllTallied (r ∷ rs) h d t =
      let effect = evaluate_rule-Effect notifier now src r h in
      let r' = (evaluate_rule notifier src now r h).0 in
      let h' = (evaluate_rule notifier src now r h).1 in
      let same : r'.id ≡ r.id = id-evaluate_rule r h in
      (
        open_count-evaluate_ne r'.id rs h' (rw same d.0) ∙ Effect-Tallied effect same t.0,
        evaluate_all-AllTallied rs h' d.1
            (AllTallied-of_ne r h h' rs (λ rid ne. Effect-open_count_ne rid effect ne) d.0 t.1),
      )
