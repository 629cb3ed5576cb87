-- ===== src/RetryScheduler/Schedule.antt =====
-- src/watcher/retry_scheduler.py: what a schedule is.
use orchestrator_state_machi.Prelude.{
  ℕ, zero, suc, ◌+◌, ◌-◌, ◌*◌, ◌≤◌, Option, some, false, List, [], ◌∷◌, length, get_elem?, ok, ◌≡◌,
  refl, ◌⊎◌, inl, inr, arith,
}
use orchestrator_state_machi.Prelude.Int.{ℤ, pos, negsuc, ◌≤ℤ◌, ◌<ℤ◌, pos_part}
use orchestrator_state_machi.Prelude.Json.{Float}
use orchestrator_state_machi.Time.{Calendar, aware, validate_aware_utc}
use orchestrator_state_machi.RetryScheduler.{
  RetryScheduleResult, FloatArithmetic, validate_attempt, validate_backoff, validate_jitter_pct,
  has_non_positive, clamped, backoff_at, unit_out_of_range, at_least_one, unit_of, result_of,
  scheduled, compute_retry_schedule,
}

-- The value at an index, or the last one of a list that is not so long.
clamped_at :
    (first : ℤ) (values : List ℤ) (i : ℕ)
    → (get_elem? (first ∷ values) i ≡ some (clamped first values i))
      ⊎ ((length values ≤ i)
          × (get_elem? (first ∷ values) (length values) ≡ some (clamped first values i)))
unfolding clamped
clamped_at first [] i = inr (omega arith, refl)
clamped_at first (value ∷ values) zero = inl refl
clamped_at first (value ∷ values) (suc i) = elim (clamped_at value values i) [
  | inl there ↦ inl there
  | inr beyond ↦ inr (omega (arith, beyond.0), beyond.1)
]

scheduled-ok :
    (arithmetic : FloatArithmetic) (now : ℕ) (attempt : ℤ) (backoff : List ℤ) (pct : ℤ)
    (unit : Float) {rounded : ℤ}
    → unit_out_of_range unit ≡ false
    → arithmetic.round_product
        (backoff_at backoff (pos_part attempt - 1))
        (arithmetic.jitter unit pct)
      ≡ some rounded
    → scheduled arithmetic now attempt backoff pct unit
      ≡ ok (
          result_of now attempt
            (backoff_at backoff (pos_part attempt - 1))
            (arithmetic.jitter unit pct)
            (at_least_one rounded))
unfolding scheduled
scheduled-ok arithmetic now attempt backoff pct unit in_range rounds = rw (in_range, rounds) refl

-- The schedule of an attempt: the delay of its place in the list, or the last one behind the list's
-- end; the factor of the jitter; their product, rounded, and a second instead if that is less; and
-- the instant so many seconds later.
pub record IsSchedule (arithmetic : FloatArithmetic) (unit : Float) (pct : ℤ) (now : ℕ)
    (attempt : ℤ) (first : ℤ) (values : List ℤ) (r : RetryScheduleResult) : Type 0 where
  pub same_attempt : r.attempt ≡ attempt
  pub base :
      (get_elem? (first ∷ values) (pos_part attempt - 1) ≡ some r.base_delay_seconds)
      ⊎ ((length values ≤ pos_part attempt - 1)
          × (get_elem? (first ∷ values) (length values) ≡ some r.base_delay_seconds))
  pub factor : r.jitter_factor ≡ arithmetic.jitter unit pct
  pub rounded : ℤ
  pub product : arithmetic.round_product r.base_delay_seconds r.jitter_factor ≡ some rounded
  pub delay :
      ((pos 1 ≤ℤ rounded) × (r.delay_seconds ≡ rounded))
      ⊎ ((rounded <ℤ pos 1) × (r.delay_seconds ≡ pos 1))
  pub next : r.next_retry_at ≡ now + pos_part r.delay_seconds * 1000000

validate_attempt-ok : (attempt : ℤ) → pos 1 ≤ℤ attempt → validate_attempt attempt ≡ ok attempt
unfolding validate_attempt
validate_attempt-ok attempt h = ground arith

validate_jitter_pct-ok :
    (pct : ℤ) → pos 0 ≤ℤ pct → pct ≤ℤ pos 100 → validate_jitter_pct pct ≡ ok pct
unfolding validate_jitter_pct
validate_jitter_pct-ok pct lo hi = ground arith

validate_backoff-ok :
    (first : ℤ) (values : List ℤ)
    → has_non_positive (first ∷ values) ≡ false
    → validate_backoff (first ∷ values) ≡ ok (first ∷ values)
unfolding validate_backoff
validate_backoff-ok first values h = rw h refl

at_least_one-cases :
    (n : ℤ) → ((pos 1 ≤ℤ n) × (at_least_one n ≡ n)) ⊎ ((n <ℤ pos 1) × (at_least_one n ≡ pos 1))
at_least_one-cases (pos n) = ground arith
at_least_one-cases (negsuc n) = ground arith

-- With a first attempt or a later one, delays of a second or more, a jitter of 0 to 100 percent and a
-- unit from -1 to 1 (the drawn one, if none is given) whose product can be rounded, there is a
-- schedule: its base is the delay of the attempt's place in the list (or of the last place), its
-- delay the rounded product of the base and the jitter's factor, but a second at least, and its
-- instant so many seconds after now.
pub compute_retry_schedule-IsSchedule :
    (cal : Calendar) (arithmetic : FloatArithmetic) (drawn : Float) (now : ℕ) (attempt first : ℤ)
    (values : List ℤ) (pct : ℤ) (unit : Option Float) (rounded : ℤ)
    → pos 1 ≤ℤ attempt
    → has_non_positive (first ∷ values) ≡ false
    → pos 0 ≤ℤ pct
    → pct ≤ℤ pos 100
    → unit_out_of_range (unit_of drawn unit) ≡ false
    → arithmetic.round_product
        (backoff_at (first ∷ values) (pos_part attempt - 1))
        (arithmetic.jitter (unit_of drawn unit) pct)
      ≡ some rounded
    → (r : RetryScheduleResult) × (compute_retry_schedule cal arithmetic drawn
          (aware now)
          attempt
          (first ∷ values)
          pct
          unit
        ≡ ok r)
      × IsSchedule arithmetic (unit_of drawn unit) pct now attempt first values r
unfolding compute_retry_schedule validate_aware_utc
compute_retry_schedule-IsSchedule cal arithmetic drawn now attempt first values pct unit rounded h
      backoff lo hi in_range rounds =
    (
      result_of now attempt (backoff_at (first ∷ values) (pos_part attempt - 1))
          (arithmetic.jitter (unit_of drawn unit) pct) (at_least_one rounded),
      rw
          (
            validate_attempt-ok attempt h,
            validate_backoff-ok first values backoff,
            validate_jitter_pct-ok pct lo hi,
          )
          (scheduled-ok arithmetic now attempt (first ∷ values) pct (unit_of drawn unit) in_range
            rounds),
      record {
        base = clamped_at first values (pos_part attempt - 1);
        same_attempt = refl;
        factor = refl;
        rounded = rounded;
        product = rounds;
        delay = at_least_one-cases rounded;
        next = refl;
      },
    )
