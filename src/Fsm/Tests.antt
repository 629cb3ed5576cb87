-- ===== src/Fsm/Tests.antt =====
-- Runs and instances for the state machine.
use orchestrator_state_machi.Prelude.{◌≡◌, ◌≢◌, ◌↔◌, refl, some, ok, raise}
use orchestrator_state_machi.Prelude.Int.{pos}
use orchestrator_state_machi.ErrorClassifier.{text, classify_error}
use orchestrator_state_machi.Fsm.{
  queued, running, retry_wait, done, human_required, command_failed, TransitionArgs,
  TransitionResult, default_args, execute_transition, failure_needs_error_class,
}
use orchestrator_state_machi.Fsm.Diagram.{Edge, execute_transition_iff}
use orchestrator_state_machi.Fsm.Labels.{Relabels, execute_transition-Relabels}
use orchestrator_state_machi.Fsm.Paths.{Reaches, here, Reaches-terminal, Reaches-done_iff}

abbrev timed_out : TransitionArgs
timed_out = record default_args {
  error_class = text "timeout";
  retry_count = pos 1;
  next_retry_at = some "2026-02-20T09:31:00Z";
}

retries :
    (r : TransitionResult) × (execute_transition running command_failed timed_out ≡ ok r)
    × (r.to_state ≡ retry_wait)
unfolding execute_transition classify_error
retries = (_, refl, refl)

no_class : execute_transition running command_failed default_args ≡ raise failure_needs_error_class
unfolding execute_transition
no_class = refl

execute_transition_iff_example :
    ((r : TransitionResult) × (execute_transition running command_failed timed_out ≡ ok r)
      × (r.from_state ≡ running)
      × (r.to_state ≡ retry_wait))
    ↔ Edge timed_out running command_failed retry_wait
execute_transition_iff_example = execute_transition_iff running command_failed timed_out retry_wait

stays_human : Reaches human_required human_required
stays_human = here

Reaches-terminal_example :
    (human_required ≡ done → human_required ≡ done)
    × (human_required ≡ human_required → human_required ≡ human_required)
Reaches-terminal_example = Reaches-terminal stays_human

Reaches-done_iff_example : Reaches queued done ↔ (queued ≢ human_required)
Reaches-done_iff_example = Reaches-done_iff queued

execute_transition-Relabels_example : Relabels (execute_transition running command_failed timed_out)
execute_transition-Relabels_example =
    execute_transition-Relabels running command_failed timed_out refl
