-- ===== src/Chunked/Concurrent.antt =====
-- The windows that run at once (`_process_window` and `_extract_tier2` of
-- pdf_ingestion/pipeline/vlm/chunked_extractor.py), and how far they overdraw the budget of tokens.
use smart_pdf_extractor.Prelude.{
  ℕ, ◌+◌, ◌-◌, ◌*◌, ◌≤◌, ◌<◌, ◌≡◌, refl, string_eq, true, false, List, [], ◌∷◌, ◌++◌, arith, All,
  length, length-append, ==_iff, ◌≢◌, subst,
}
use smart_pdf_extractor.Chunked.Budget.{
  TokenBudget, total_consumed, can_proceed, record_usage, is_exceeded,
}

-- What a call of the model costs: its input and its output tokens.
abbrev pub Cost : Type 0
Cost = ℕ × ℕ

-- The budget, and the calls that hold the semaphore and wait for their answers.
pub record TierState : Type 0 where
  pub budget : TokenBudget
  pub in_flight : List Cost

-- One move of a window between two awaits, with at most `max_concurrent` windows inside the
-- semaphore and no call that costs more than `m` tokens.
pub data Moves (max_concurrent m : ℕ) : TierState → TierState → Type 0 where
  -- The window enters, has leave to proceed and sends its prompt.
  begin :
      (b : TokenBudget) (calls : List Cost) (input output : ℕ)
      → length calls < max_concurrent
      → can_proceed b ≡ true
      → input + output ≤ m
      → Moves max_concurrent m
          (record { budget = b; in_flight = calls })
          (record { budget = b; in_flight = (input, output) ∷ calls })
  -- The window enters, has no leave and returns None.
  refuse :
      (b : TokenBudget) (calls : List Cost)
      → length calls < max_concurrent
      → can_proceed b ≡ false
      → Moves max_concurrent m
          (record { budget = b; in_flight = calls })
          (record { budget = b; in_flight = calls })
  -- The call raised: nothing is recorded.
  raise :
      (b : TokenBudget) (before behind : List Cost) (input output : ℕ)
      → Moves max_concurrent m
          (record { budget = b; in_flight = before ++ (input, output) ∷ behind })
          (record { budget = b; in_flight = before ++ behind })
  -- The call returned: its tokens are recorded.
  finish :
      (b : TokenBudget) (before behind : List Cost) (input output : ℕ)
      → Moves max_concurrent m
          (record { budget = b; in_flight = before ++ (input, output) ∷ behind })
          (record { budget = record_usage input output b; in_flight = before ++ behind })

-- Any number of moves, in any order.
pub data Run (max_concurrent m : ℕ) : TierState → TierState → Type 0 where
  stop : (s : TierState) → Run max_concurrent m s s
  moved :
      (s t u : TierState)
      → Moves max_concurrent m s t
      → Run max_concurrent m t u
      → Run max_concurrent m s u

-- A budget that is enforced.
abbrev pub IsEnforced : TokenBudget → Type 0
IsEnforced b = (b.budget_exceeded_action ≢ "proceed") × (b.budget_exceeded_action ≢ "flag")

-- What is left of the overdraft is shared by the windows in flight.
pub record Covered (max_concurrent m limit : ℕ) (s : TierState) : Type 0 where
  pub enforced : IsEnforced s.budget
  pub limited : s.budget.max_tokens ≡ limit
  pub cheap : All (λ c. c.0 + c.1 ≤ m) s.in_flight
  pub few : length s.in_flight ≤ max_concurrent
  pub drawn : total_consumed s.budget + m * length s.in_flight ≤ limit + m * max_concurrent

All-out :
    (P : Cost → Type 0) (before : List Cost) (c : Cost) (behind : List Cost)
    → All P (before ++ c ∷ behind)
    → P c × All P (before ++ behind)
All-out P [] c behind h = h
All-out P (b ∷ before) c behind h = let r = All-out P before c behind h.1 in (r.0, (h.0, r.1))

proceed-within :
    (b : TokenBudget) → IsEnforced b → can_proceed b ≡ true → total_consumed b ≤ b.max_tokens
unfolding can_proceed is_exceeded
proceed-within b e h = ground (
  arith,
  e.0,
  e.1,
  ==_iff b.budget_exceeded_action "proceed",
  ==_iff b.budget_exceeded_action "flag",
)

slack : (m n d : ℕ) → m * n + m ≤ m * (n + 1 + d)
slack m n d = omega arith

mul_room : (m n k : ℕ) → n < k → m * n + m ≤ m * k
mul_room m n k h = subst (λ j. m * n + m ≤ m * j) (omega (arith, h)) (slack m n (k - (n + 1)))

length-out :
    (before behind : List Cost) (c : Cost)
    → length (before ++ c ∷ behind) ≡ length (before ++ behind) + 1
length-out before behind c =
    omega (arith, length-append before (c ∷ behind), length-append before behind)

module _ (k m limit : ℕ) where
  -- A call that leaves the semaphore frees its share.
  freed :
      (b : TokenBudget) (before behind : List Cost) (c : Cost)
      → Covered k m limit (record { budget = b; in_flight = before ++ c ∷ behind })
      → Covered k m limit (record { budget = b; in_flight = before ++ behind })
        × (total_consumed b + m * length (before ++ behind) + m ≤ limit + m * k)
        × (c.0 + c.1 ≤ m)
  freed b before behind c h =
      let out = All-out _ before c behind h.cheap in
      let shorter = length-out before behind c in
      let drawn : total_consumed b + m * (length (before ++ behind) + 1) ≤ limit + m * k =
        subst (λ n. total_consumed b + m * n ≤ limit + m * k) shorter h.drawn in
      (
        record {
          enforced = h.enforced;
          limited = h.limited;
          cheap = out.1;
          few = omega (arith, h.few, shorter);
          drawn = omega (arith, drawn);
        },
        omega (arith, drawn),
        out.0,
      )

  Moves-Covered : (s t : TierState) → Moves k m s t → Covered k m limit s → Covered k m limit t
  unfolding record_usage
  Moves-Covered _ _ (begin b calls input output f p c) h = record {
    enforced = h.enforced;
    limited = h.limited;
    cheap = (c, h.cheap);
    few = omega (arith, f);
    drawn = omega (arith, proceed-within b h.enforced p, h.limited, mul_room m (length calls) k f);
  }
  Moves-Covered _ _ (refuse b calls f p) h = h
  Moves-Covered _ _ (raise b before behind input output) h =
      (freed b before behind (input, output) h).0
  Moves-Covered _ _ (finish b before behind input output) h =
      let (left, drawn, cheap) = freed b before behind (input, output) h in
      record {
        enforced = left.enforced;
        limited = left.limited;
        cheap = left.cheap;
        few = left.few;
        drawn = omega (arith, drawn, cheap);
      }

  Run-Covered : (s t : TierState) → Run k m s t → Covered k m limit s → Covered k m limit t
  Run-Covered _ _ (stop s) h = h
  Run-Covered _ _ (moved s t u move run) h = Run-Covered t u run (Moves-Covered s t move h)

-- An enforced budget that is not yet exceeded is overdrawn by at most one call for each window that
-- may run at once: whatever the windows do, and in whatever order, the tokens recorded pass the
-- maximum by no more than `max_concurrent` times the cost of the dearest call.
pub overdraft_bounded :
    (k m : ℕ) (b : TokenBudget) (s : TierState)
    → IsEnforced b
    → total_consumed b ≤ b.max_tokens
    → Run k m (record { budget = b; in_flight = [] }) s
    → total_consumed s.budget ≤ b.max_tokens + m * k
overdraft_bounded k m b s e w run =
    let start : Covered k m b.max_tokens (record { budget = b; in_flight = [] }) = record {
      enforced = e;
      limited = refl;
      cheap = tt;
      few = omega arith;
      drawn = omega (arith, w);
    } in
    let h = Run-Covered k m b.max_tokens _ s run start in omega (arith, h.drawn)
