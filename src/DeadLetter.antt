-- ===== src/DeadLetter.antt =====
-- src/watcher/dead_letter.py: whether a failure is given up, with the transition and the record that
-- this leads to. A retry count is an integer, as its type says.
pub mod Agreement
mod Tests
use orchestrator_state_machi.Prelude.{
  String, Bool, true, false, not, ◌||◌, Option, none, some, contains, if◌then◌else◌, Result, ok,
  raise, ◌>>=◌, ◌>>◌, raise_if, rethrow,
}
use orchestrator_state_machi.Prelude.Int.{ℤ, pos, ltb_ℤ, leb_ℤ}
use orchestrator_state_machi.ErrorClassifier.{
  Arg, text, ErrorClassifierError, ErrorClassification, classify_error,
}
use orchestrator_state_machi.Fsm.{
  FsmState, human_required, state_eq, command_failed, TransitionResult, FsmTransitionError,
  TransitionArgs, default_args, execute_transition,
}
use orchestrator_state_machi.StateStore.{StateRecord}
use orchestrator_state_machi.Time.{Calendar, DateTime, TimeError, format_rfc3339_utc}

pub data DeadLetterReason : Type 0 where
  retry_exhausted non_retriable_error retry_budget_remaining : DeadLetterReason

pub record DeadLetterDecision : Type 0 where
  pub should_dead_letter : Bool
  pub reason : DeadLetterReason
  pub normalized_error_class : String

-- DeadLetterError by its message, and RetryScheduleError of the time that is printed.
pub data DeadLetterError : Type 0 where
  negative_retry_count : DeadLetterError
  negative_max_retries : DeadLetterError
  classifier_error : ErrorClassifierError → DeadLetterError
  transition_error : FsmTransitionError → DeadLetterError
  not_human_required : DeadLetterError
  missing_labels : DeadLetterError
  time_error : TimeError → DeadLetterError

abbrev pub decided : ErrorClassification → Bool → DeadLetterReason → DeadLetterDecision
decided classified dead reason = record {
  should_dead_letter = dead;
  reason = reason;
  normalized_error_class = classified.normalized_error_class;
}

unfoldable pub decide : ErrorClassification → ℤ → ℤ → DeadLetterDecision
decide classified retry_count max_retries =
    if leb_ℤ max_retries retry_count
    then decided classified true retry_exhausted
    else if not classified.retryable
    then decided classified true non_retriable_error
    else decided classified false retry_budget_remaining

-- `evaluate_dead_letter`
unfoldable pub evaluate_dead_letter : Arg → ℤ → ℤ → Result DeadLetterError DeadLetterDecision
evaluate_dead_letter error_class retry_count max_retries = do
  raise_if (ltb_ℤ retry_count (pos 0)) negative_retry_count
  raise_if (ltb_ℤ max_retries (pos 0)) negative_max_retries
  classified ← rethrow classifier_error (classify_error error_class)
  ok (decide classified retry_count max_retries)

-- The checks on the transition.
unfoldable pub check_result : TransitionResult → Result DeadLetterError (Option TransitionResult)
check_result result =
    if not (state_eq result.to_state human_required)
    then raise not_human_required
    else if not (contains result.add_labels "orchestrator:dead")
        || not (contains result.add_labels "needs:human")
    then raise missing_labels
    else ok (some result)

-- The arguments of `execute_transition`; those that are not given have their defaults.
abbrev pub failure_args : String → ℤ → ℤ → TransitionArgs
failure_args error_class retry_count max_retries = record default_args {
  error_class = text error_class;
  retry_count = retry_count;
  max_retries = max_retries;
}

unfoldable pub transition_of :
    FsmState → ℤ → ℤ → DeadLetterDecision → Result DeadLetterError (Option TransitionResult)
transition_of current_state retry_count max_retries decision =
    if not decision.should_dead_letter
    then ok none
    else rethrow transition_error (
        execute_transition current_state command_failed
          (failure_args decision.normalized_error_class retry_count max_retries))
      >>= check_result

-- `build_dead_letter_transition`
unfoldable pub build_dead_letter_transition :
    FsmState → Arg → ℤ → ℤ → Result DeadLetterError (Option TransitionResult)
build_dead_letter_transition current_state error_class retry_count max_retries =
    evaluate_dead_letter error_class retry_count max_retries
    >>= transition_of current_state retry_count max_retries

-- `build_dead_letter_record`
unfoldable pub build_dead_letter_record :
    Calendar → StateRecord → DateTime → Arg → Option String → Result DeadLetterError StateRecord
build_dead_letter_record cal current_record now_utc error_class owner_id = do
  classified ← rethrow classifier_error (classify_error error_class)
  last_transition_at ← rethrow time_error (format_rfc3339_utc cal now_utc)
  ok (record {
    state = "HUMAN_REQUIRED";
    attempt = current_record.attempt;
    last_transition_at = last_transition_at;
    next_retry_at = none;
    last_error_class = some classified.normalized_error_class;
    owner_id = owner_id;
    version = current_record.version;
  })
