-- ===== src/Alerts/Periods.antt =====
-- The billing periods of evaluate_budget_rule in pdf_ingestion/pipeline/alerts/engine.py. A time is
-- a number of seconds since 1970-01-01 in UTC.
use smart_pdf_extractor.Prelude.{ℕ, ◌+◌, ◌-◌, ◌*◌, ◌/◌, ◌%◌, ◌≤◌, ◌≡◌, refl, arith}

pub data BillingPeriod : Type 0 where
  monthly weekly unknown : BillingPeriod

abbrev day_seconds : ℕ
day_seconds = 86400

-- The day of the month, counted from 0, in the proleptic Gregorian calendar (`now.day - 1`).
unfoldable pub month_day : ℕ → ℕ
month_day days =
    let z = days + 719468 in
    let doe = z % 146097 in
    let yoe = (doe - doe / 1460 + doe / 36524 - doe / 146096) / 365 in
    let doy = doe - (365 * yoe + yoe / 4 - yoe / 100) in
    let mp = (5 * doy + 2) / 153 in doy - (153 * mp + 2) / 5

-- `now.weekday()`: 1970-01-01 was a Thursday.
unfoldable pub weekday : ℕ → ℕ
weekday days = (days + 3) % 7

-- Midnight of the first day of the month, or of the Monday of the week; an unknown period is a
-- month.
unfoldable pub period_start : BillingPeriod → ℕ → ℕ
unfolding month_day weekday
period_start weekly now = (now / day_seconds - weekday (now / day_seconds)) * day_seconds
period_start monthly now = (now / day_seconds - month_day (now / day_seconds)) * day_seconds
period_start unknown now = (now / day_seconds - month_day (now / day_seconds)) * day_seconds

-- 2025-01-15 12:00 is a Wednesday.
abbrev mid_january : ℕ
mid_january = 1736942400

january_starts : period_start monthly mid_january ≡ 1735689600
unfolding period_start
january_starts = refl

week_starts : period_start weekly mid_january ≡ 1736726400
unfolding period_start
week_starts = refl

-- 2024-02-29 is the 29th day of its month.
leap_day : month_day 19782 ≡ 28
unfolding month_day
leap_day = refl

month_begun : (n d : ℕ) → (n / day_seconds - d) * day_seconds ≤ n
month_begun n d = omega arith

-- A period has begun by now.
pub period_start-le : (p : BillingPeriod) (now : ℕ) → period_start p now ≤ now
unfolding period_start
period_start-le weekly now = month_begun now (weekday (now / day_seconds))
period_start-le _ now = month_begun now (month_day (now / day_seconds))
