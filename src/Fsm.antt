-- ===== src/Fsm.antt =====
-- src/watcher/fsm.py: the states and events of a handoff, and `execute_transition`, which checks
-- the guards of an event and gives the next state with the labels to add and to remove.
pub mod Diagram
pub mod Paths
pub mod Labels
mod Tests
use orchestrator_state_machi.Prelude.{
  ℕ, String, Bool, true, false, ◌&&◌, ◌||◌, not, Option, none, some, List, [], ◌∷◌, ◌==◌,
  if◌then◌else◌, Result, ok, raise,
}
use orchestrator_state_machi.Prelude.Int.{ℤ, pos, leb_ℤ}
use orchestrator_state_machi.Prelude.Text.{is_blank}
use orchestrator_state_machi.ErrorClassifier.{
  Arg, absent, text, foreign, ErrorClassifierError, ErrorClassification, classify_error,
}

pub data FsmState : Type 0 where
  queued running retry_wait done human_required : FsmState

pub data FsmEvent : Type 0 where
  claim_ready command_succeeded command_failed cooldown_expired force_human : FsmEvent

-- `state.value`
abbrev pub state_value : FsmState → String
state_value queued = "QUEUED"
state_value running = "RUNNING"
state_value retry_wait = "RETRY_WAIT"
state_value done = "DONE"
state_value human_required = "HUMAN_REQUIRED"

abbrev number : FsmState → ℕ
number queued = 0
number running = 1
number retry_wait = 2
number done = 3
number human_required = 4

-- `a == b` on states.
abbrev pub state_eq : FsmState → FsmState → Bool
state_eq a b = number a == number b

pub record TransitionResult : Type 0 where
  pub from_state : FsmState
  pub to_state : FsmState
  pub add_labels : List String
  pub remove_labels : List String
  pub reason : String
  pub error_class : Arg
  pub next_retry_at : Option String

-- FSMTransitionError, by its message.
pub data FsmTransitionError : Type 0 where
  claim_only_from_queued : FsmTransitionError
  claim_needs_lock_and_claim : FsmTransitionError
  success_only_from_running : FsmTransitionError
  failure_only_from_running_or_retry_wait : FsmTransitionError
  failure_needs_error_class : FsmTransitionError
  invalid_error_class : ErrorClassifierError → FsmTransitionError
  retriable_failure_needs_running : FsmTransitionError
  retriable_failure_needs_next_retry_at : FsmTransitionError
  cooldown_only_from_retry_wait : FsmTransitionError
  cooldown_needs_lock_and_claim : FsmTransitionError
  force_human_invalid_from_done : FsmTransitionError

-- The keyword arguments of `execute_transition`.
pub record TransitionArgs : Type 0 where
  pub lock_acquired : Bool
  pub claim_succeeded : Bool
  pub error_class : Arg
  pub retry_count : ℤ
  pub max_retries : ℤ
  pub next_retry_at : Option String

-- Their defaults.
abbrev pub default_args : TransitionArgs
default_args = record {
  lock_acquired = true;
  claim_succeeded = true;
  error_class = absent;
  retry_count = pos 0;
  max_retries = pos 3;
  next_retry_at = none;
}

-- The truth value of an argument: `bool(error_class)`.
abbrev pub truthy : Arg → Bool
truthy absent = false
truthy (text s) = not (is_blank s)
truthy (foreign b) = b

-- The truth value of a text or `None`.
abbrev pub given : Option String → Bool
given none = false
given (some s) = not (is_blank s)

-- A result with no error class and no retry time.
abbrev plain : FsmState → FsmState → List String → List String → String → TransitionResult
plain from to add drop reason = record {
  from_state = from;
  to_state = to;
  add_labels = add;
  remove_labels = drop;
  reason = reason;
  error_class = absent;
  next_retry_at = none;
}

-- The branch of CLAIM_READY.
unfoldable pub on_claim_ready :
    FsmState → TransitionArgs → Result FsmTransitionError TransitionResult
on_claim_ready current a =
    if not (state_eq current queued)
    then raise claim_only_from_queued
    else if not a.lock_acquired || not a.claim_succeeded
    then raise claim_needs_lock_and_claim
    else ok (
        plain current running ("orchestrator:running" ∷ [])
          ("needs:orchestrator" ∷ "orchestrator:failed" ∷ "orchestrator:dead" ∷ [])
          "queued_claimed")

-- The branch of COMMAND_SUCCEEDED.
unfoldable pub on_command_succeeded : FsmState → Result FsmTransitionError TransitionResult
on_command_succeeded current =
    if not (state_eq current running)
    then raise success_only_from_running
    else ok (
        plain current done ("orchestrator:done" ∷ [])
          ("orchestrator:running" ∷ "orchestrator:failed" ∷ "orchestrator:dead" ∷ "needs:human"
            ∷ [])
          "command_success")

-- The branch of COMMAND_FAILED, once the error is classified.
unfoldable pub on_classified_failure :
    FsmState → TransitionArgs → ErrorClassification → Result FsmTransitionError TransitionResult
on_classified_failure current a classified =
    let exhausted = leb_ℤ a.max_retries a.retry_count in
    let non_retriable = not classified.retryable in
    if exhausted || non_retriable
    then ok (record {
      from_state = current;
      to_state = human_required;
      add_labels = "needs:human" ∷ "orchestrator:dead" ∷ [];
      remove_labels = "needs:orchestrator" ∷ "orchestrator:running" ∷ [];
      reason = "retry_exhausted_or_non_retriable";
      error_class = text classified.normalized_error_class;
      next_retry_at = none;
    })
    else if not (state_eq current running)
    then raise retriable_failure_needs_running
    else if not (given a.next_retry_at)
    then raise retriable_failure_needs_next_retry_at
    else ok (record {
      from_state = current;
      to_state = retry_wait;
      add_labels = "orchestrator:failed" ∷ [];
      remove_labels = "orchestrator:running" ∷ [];
      reason = "command_failure_retriable";
      error_class = text classified.normalized_error_class;
      next_retry_at = a.next_retry_at;
    })

-- The branch of COMMAND_FAILED.
unfoldable pub on_command_failed :
    FsmState → TransitionArgs → Result FsmTransitionError TransitionResult
unfolding on_classified_failure
on_command_failed current a =
    if not (state_eq current running || state_eq current retry_wait)
    then raise failure_only_from_running_or_retry_wait
    else if not (truthy a.error_class)
    then raise failure_needs_error_class
    else elim (classify_error a.error_class) [
      | raise exc ↦ raise (invalid_error_class exc)
      | ok classified ↦ on_classified_failure current a classified
    ]

-- The branch of COOLDOWN_EXPIRED.
unfoldable pub on_cooldown_expired :
    FsmState → TransitionArgs → Result FsmTransitionError TransitionResult
on_cooldown_expired current a =
    if not (state_eq current retry_wait)
    then raise cooldown_only_from_retry_wait
    else if not a.lock_acquired || not a.claim_succeeded
    then raise cooldown_needs_lock_and_claim
    else ok (
        plain current running ("orchestrator:running" ∷ [])
          ("orchestrator:failed" ∷ "needs:orchestrator" ∷ []) "retry_cooldown_elapsed")

-- The branch of FORCE_HUMAN.
unfoldable pub on_force_human :
    FsmState → TransitionArgs → Result FsmTransitionError TransitionResult
on_force_human current a =
    if state_eq current done
    then raise force_human_invalid_from_done
    else ok (record {
      from_state = current;
      to_state = human_required;
      add_labels = "needs:human" ∷ [];
      remove_labels = "needs:orchestrator" ∷ "orchestrator:running" ∷ [];
      reason = "forced_human_escalation";
      error_class = a.error_class;
      next_retry_at = none;
    })

-- `execute_transition`; the last `raise` of the source is for values that are no FSMEvent.
unfoldable pub execute_transition :
    FsmState → FsmEvent → TransitionArgs → Result FsmTransitionError TransitionResult
unfolding on_claim_ready on_command_succeeded on_command_failed on_cooldown_expired on_force_human
execute_transition current claim_ready a = on_claim_ready current a
execute_transition current command_succeeded a = on_command_succeeded current
execute_transition current command_failed a = on_command_failed current a
execute_transition current cooldown_expired a = on_cooldown_expired current a
execute_transition current force_human a = on_force_human current a
