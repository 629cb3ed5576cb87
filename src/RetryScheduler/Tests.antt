-- ===== src/RetryScheduler/Tests.antt =====
-- Runs of src/watcher/retry_scheduler.py.
use orchestrator_state_machi.Prelude.{◌/◌, some, none, some, [], ◌∷◌, ok, raise, ◌≡◌, refl, arith}
use orchestrator_state_machi.Prelude.Int.{pos, negsuc, pos_part}
use orchestrator_state_machi.Prelude.Json.{finite}
use orchestrator_state_machi.Time.{aware, naive, validate_aware_utc}
use orchestrator_state_machi.Time.Example.{zeros_calendar}
use orchestrator_state_machi.RetryScheduler.{
  RetryScheduleResult, FloatArithmetic, now_not_aware, no_backoff, validate_attempt,
  validate_backoff, clamped, compute_retry_schedule,
}
use orchestrator_state_machi.RetryScheduler.Schedule.{IsSchedule, compute_retry_schedule-IsSchedule}

abbrev no_jitter : FloatArithmetic
no_jitter = record {
  jitter = λ unit pct. finite (pos 1) 0;
  round_product = λ base factor. some base;
}

naive_test :
    compute_retry_schedule zeros_calendar no_jitter
      (finite (pos 0) 0)
      (naive 5)
      (pos 1)
      []
      (pos 10)
      none
    ≡ raise now_not_aware
unfolding compute_retry_schedule validate_aware_utc
naive_test = refl

empty_test :
    compute_retry_schedule zeros_calendar no_jitter
      (finite (pos 0) 0)
      (aware 5)
      (pos 1)
      []
      (pos 10)
      none
    ≡ raise no_backoff
unfolding compute_retry_schedule validate_aware_utc validate_attempt validate_backoff
empty_test = refl

-- A jitter that halves every delay.
abbrev halving : FloatArithmetic
halving = record {
  jitter = λ unit pct. finite (pos 1) 1;
  round_product = λ base factor. some (pos (pos_part base / 2));
}

compute_retry_schedule-IsSchedule_example :
    (r : RetryScheduleResult) × (compute_retry_schedule zeros_calendar halving
        (finite (pos 0) 0)
        (aware 7)
        (pos 5)
        (pos 60 ∷ pos 300 ∷ [])
        (pos 50)
        (some (finite (negsuc 0) 0))
      ≡ ok r)
    × IsSchedule halving (finite (negsuc 0) 0) (pos 50) 7 (pos 5) (pos 60) (pos 300 ∷ []) r
unfolding clamped
compute_retry_schedule-IsSchedule_example =
    compute_retry_schedule-IsSchedule zeros_calendar halving (finite (pos 0) 0) 7 (pos 5) (pos 60)
      (pos 300 ∷ []) (pos 50) (some (finite (negsuc 0) 0)) (pos 150) (omega arith) refl
      (omega arith) (omega arith) refl refl
