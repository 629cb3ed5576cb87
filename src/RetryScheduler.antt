-- ===== src/RetryScheduler.antt =====
-- src/watcher/retry_scheduler.py: when an attempt is made again. Python's float arithmetic (the product
-- and its rounding) is a parameter.
mod Schedule
mod Tests
use orchestrator_state_machi.Prelude.{
  ℕ, zero, suc, ◌+◌, ◌-◌, ◌*◌, ◌^◌, Option, none, some, String, Bool, true, false, ◌||◌, List, [],
  ◌∷◌, if◌then◌else◌, length, Result, ok, raise, raise_if, rethrow, ◌>>=◌, ◌>>◌, ltb,
}
use orchestrator_state_machi.Prelude.Int.{ℤ, pos, negsuc, ltb_ℤ, pos_part, neg_part}
use orchestrator_state_machi.Prelude.Json.{Float, nan, finite}
use orchestrator_state_machi.Time.{Calendar, DateTime, validate_aware_utc}

pub record RetryScheduleResult : Type 0 where
  pub attempt : ℤ
  pub base_delay_seconds : ℤ
  pub jitter_factor : Float
  pub delay_seconds : ℤ
  pub next_retry_at : ℕ

-- RetryScheduleError, by the test that fails.
pub data ScheduleError : Type 0 where
  now_not_aware attempt_below_one no_backoff backoff_not_positive jitter_pct_range jitter_unit_range
        no_rounding :
      ScheduleError

-- What the code uses of float arithmetic: `1 + unit * (pct / 100.0)` and `round(base * factor)`,
-- which is `none` where it raises ValueError (of a NaN).
pub record FloatArithmetic : Type 0 where
  pub jitter : Float → ℤ → Float
  pub round_product : ℤ → Float → Option ℤ

-- `_validate_attempt`, on an integer.
unfoldable pub validate_attempt : ℤ → Result ScheduleError ℤ
validate_attempt attempt = if ltb_ℤ attempt (pos 1) then raise attempt_below_one else ok attempt

abbrev pub has_non_positive : List ℤ → Bool
has_non_positive [] = false
has_non_positive (value ∷ values) = ltb_ℤ value (pos 1) || has_non_positive values

-- `_validate_backoff`, on a list of integers.
unfoldable pub validate_backoff : List ℤ → Result ScheduleError (List ℤ)
validate_backoff [] = raise no_backoff
validate_backoff (value ∷ values) =
    if has_non_positive (value ∷ values) then raise backoff_not_positive else ok (value ∷ values)

-- `_validate_jitter_pct`, on an integer.
unfoldable pub validate_jitter_pct : ℤ → Result ScheduleError ℤ
validate_jitter_pct pct =
    if ltb_ℤ pct (pos 0) || ltb_ℤ (pos 100) pct then raise jitter_pct_range else ok pct

-- `values[min(i, len(values) - 1)]`, of a list that is not empty.
unfoldable pub clamped : ℤ → List ℤ → ℕ → ℤ
clamped first [] i = first
clamped first (value ∷ values) zero = first
clamped first (value ∷ values) (suc i) = clamped value values i

abbrev pub backoff_at : List ℤ → ℕ → ℤ
backoff_at [] i = pos 0
backoff_at (value ∷ values) i = clamped value values i

-- `jitter_unit < -1.0 or jitter_unit > 1.0`
abbrev pub unit_out_of_range : Float → Bool
unit_out_of_range nan = false
unit_out_of_range (finite num exp) = ltb (2 ^ exp) (neg_part num) || ltb (2 ^ exp) (pos_part num)
unit_out_of_range _ = true

-- `max(1, n)`
abbrev pub at_least_one : ℤ → ℤ
at_least_one n = if ltb_ℤ (pos 1) n then n else pos 1

-- The result, with `next_retry_at = validated_now + timedelta(seconds=delay_seconds)`.
abbrev pub result_of : ℕ → ℤ → ℤ → Float → ℤ → RetryScheduleResult
result_of now attempt base_delay factor delay = record {
  attempt = attempt;
  base_delay_seconds = base_delay;
  jitter_factor = factor;
  delay_seconds = delay;
  next_retry_at = now + pos_part delay * 1000000;
}

-- `compute_retry_schedule`, after the tests of its arguments.
unfoldable pub scheduled :
    FloatArithmetic → ℕ → ℤ → List ℤ → ℤ → Float → Result ScheduleError RetryScheduleResult
scheduled arithmetic now attempt backoff pct unit =
    let base_delay = backoff_at backoff (pos_part attempt - 1) in
    let factor = arithmetic.jitter unit pct in
    raise_if (unit_out_of_range unit) jitter_unit_range
    >> (elim (arithmetic.round_product base_delay factor) [
      | none ↦ raise no_rounding
      | some rounded ↦ ok (result_of now attempt base_delay factor (at_least_one rounded))
    ])

abbrev pub unit_of : Float → Option Float → Float
unit_of drawn none = drawn
unit_of drawn (some unit) = unit

-- `compute_retry_schedule`; `drawn` is what random.uniform returns for a `jitter_unit` of None.
unfoldable pub compute_retry_schedule :
    Calendar
    → FloatArithmetic
    → Float
    → DateTime
    → ℤ
    → List ℤ
    → ℤ
    → Option Float
    → Result ScheduleError RetryScheduleResult
compute_retry_schedule cal arithmetic drawn now_utc attempt backoff_seconds jitter_pct jitter_unit =
    rethrow (λ e. now_not_aware) (validate_aware_utc cal now_utc) >>= λ now.
    validate_attempt attempt >>= λ valid_attempt. validate_backoff backoff_seconds >>= λ backoff.
    validate_jitter_pct jitter_pct >>= λ pct.
    scheduled arithmetic now valid_attempt backoff pct (unit_of drawn jitter_unit)
