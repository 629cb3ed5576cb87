-- ===== src/StaleReconciler.antt =====
-- src/watcher/stale_reconciler.py: a handoff that has been RUNNING for too long is failed.
-- (`_to_rfc3339` and `_from_rfc3339` are in Time.antt; instants are microseconds.)
pub mod Stale
mod Tests
use orchestrator_state_machi.Prelude.{
  ℕ, ◌+◌, ◌*◌, String, Bool, true, false, not, Option, none, some, text_eq, if◌then◌else◌, Result,
  ok, raise, ◌>>=◌, ◌>>◌, raise_if, rethrow, leb, ltb,
}
use orchestrator_state_machi.Prelude.Int.{ℤ, pos, leb_ℤ}
use orchestrator_state_machi.ErrorClassifier.{text}
use orchestrator_state_machi.Fsm.{
  running, state_value, command_failed, TransitionResult, TransitionArgs, FsmTransitionError,
  default_args, execute_transition,
}
use orchestrator_state_machi.StateStore.{StateRecord}
use orchestrator_state_machi.Time.{Calendar, rfc3339, from_rfc3339}

-- ValueError by its message, and FSMTransitionError.
pub data StaleError : Type 0 where
  stale_after_not_positive : StaleError
  not_running : StaleError
  invalid_timestamp : StaleError
  transition_error : FsmTransitionError → StaleError

unfoldable pub found_time : Option ℕ → Result StaleError ℕ
found_time none = raise invalid_timestamp
found_time (some t) = ok t

module _ (cal : Calendar) where
  -- What follows the check of the limit.
  unfoldable pub stale_since : Bool → String → ℕ → ℕ → Result StaleError Bool
  stale_since false last_transition_at now_utc stale_after_seconds = ok false
  stale_since true last_transition_at now_utc stale_after_seconds =
      found_time (from_rfc3339 cal last_transition_at) >>= λ last_transition.
      ok (leb (last_transition + stale_after_seconds * 1000000) now_utc)

  -- `is_stale_running`, at an aware `now_utc`; a limit that is not positive is 0 here.
  unfoldable pub is_stale_running : StateRecord → ℕ → ℕ → Result StaleError Bool
  is_stale_running record_ now_utc stale_after_seconds = do
    raise_if (leb stale_after_seconds 0) stale_after_not_positive
    stale_since (text_eq record_.state (state_value running)) record_.last_transition_at now_utc
        stale_after_seconds

  -- The arguments of the transition.
  abbrev pub stale_args : ℕ → ℤ → ℤ → ℕ → TransitionArgs
  stale_args now_utc retry_count max_retries retry_backoff_seconds = record default_args {
    error_class = text "stale_run";
    retry_count = retry_count;
    max_retries = max_retries;
    next_retry_at = some (rfc3339 cal (now_utc + retry_backoff_seconds * 1000000));
  }

  -- The transition of a handoff that is stale.
  unfoldable pub fail_stale : Bool → ℕ → ℤ → ℤ → ℕ → Result StaleError (Option TransitionResult)
  fail_stale false now_utc retry_count max_retries retry_backoff_seconds = ok none
  fail_stale true now_utc retry_count max_retries retry_backoff_seconds =
      rethrow transition_error (
        execute_transition running command_failed
          (stale_args now_utc retry_count max_retries retry_backoff_seconds))
      >>= λ t. ok (some t)

  -- `reconcile_stale_running`
  unfoldable pub reconcile_stale_running :
      StateRecord → ℕ → ℕ → ℤ → ℤ → ℕ → Result StaleError (Option TransitionResult)
  reconcile_stale_running record_ now_utc stale_after_seconds retry_count max_retries
        retry_backoff_seconds =
      do
        raise_if (not (text_eq record_.state (state_value running))) not_running
        stale ← is_stale_running record_ now_utc stale_after_seconds
        fail_stale stale now_utc retry_count max_retries retry_backoff_seconds
