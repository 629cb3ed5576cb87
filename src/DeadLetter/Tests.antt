-- ===== src/DeadLetter/Tests.antt =====
-- src/watcher/dead_letter.py: runs, and instances of the theorems.
use orchestrator_state_machi.Prelude.{◌<◌, true, ◌≡◌, ◌⊎◌, refl, none, some, contains, ok, raise}
use orchestrator_state_machi.Prelude.Int.{pos, negsuc}
use orchestrator_state_machi.ErrorClassifier.{text, ErrorClassification, classify_error}
use orchestrator_state_machi.Fsm.{
  running, queued, human_required, command_failed, TransitionResult, execute_transition,
  failure_only_from_running_or_retry_wait,
}
use orchestrator_state_machi.DeadLetter.{
  failure_args, evaluate_dead_letter, decide, transition_of, build_dead_letter_transition,
  negative_retry_count, transition_error,
}
use orchestrator_state_machi.DeadLetter.Agreement.{IsGivenUp, build_dead_letter_transition_outcome}

negative_refused :
    evaluate_dead_letter (text "timeout") (negsuc 0) (pos 3) ≡ raise negative_retry_count
unfolding evaluate_dead_letter
negative_refused = refl

-- A handoff that is still QUEUED cannot fail.
queued_refused :
    build_dead_letter_transition queued (text "timeout") (pos 3) (pos 3)
    ≡ raise (transition_error failure_only_from_running_or_retry_wait)
unfolding build_dead_letter_transition evaluate_dead_letter decide transition_of execute_transition
    classify_error
queued_refused = refl

abbrev timeout : ErrorClassification
timeout = record {
  original = some "timeout";
  normalized_error_class = "timeout";
  retryable = true;
  known = true;
}

classified : classify_error (text "timeout") ≡ ok timeout
unfolding classify_error
classified = refl

build_dead_letter_transition_outcome_example :
    (IsGivenUp timeout 3 3
      × ((t : TransitionResult) × (build_dead_letter_transition running
              (text "timeout")
              (pos 3)
              (pos 3)
            ≡ ok (some t))
          × (execute_transition running command_failed (failure_args "timeout" (pos 3) (pos 3))
              ≡ ok t)
          × (t.to_state ≡ human_required)
          × (contains t.add_labels "needs:human" ≡ true)
          × (contains t.add_labels "orchestrator:dead" ≡ true)))
    ⊎ ((3 < 3)
        × (true ≡ true)
        × (build_dead_letter_transition running (text "timeout") (pos 3) (pos 3) ≡ ok none))
build_dead_letter_transition_outcome_example =
    build_dead_letter_transition_outcome running refl (text "timeout") classified 3 3
