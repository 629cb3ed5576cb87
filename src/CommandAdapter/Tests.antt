-- ===== src/CommandAdapter/Tests.antt =====
-- src/watcher/command_adapter.py: runs, and instances of the theorems.
use orchestrator_state_machi.Prelude.{
  String, true, false, not, ◌||◌, ◌&&◌, Option, none, some, [], ◌∷◌, ◌≡◌, refl, ok, raise,
  if◌then◌else◌,
}
use orchestrator_state_machi.Prelude.Int.{pos}
use orchestrator_state_machi.Prelude.Json.{
  value_of, Float, finite, dict, str, float, bool, Fields, field, end, get,
}
use orchestrator_state_machi.Prelude.Text.{strip, lower, is_space}
use orchestrator_state_machi.ErrorClassifier.{ErrorClassification, classify_error}
use orchestrator_state_machi.CommandAdapter.{
  failure, result_success, success_with_exit_mismatch, retry, human_required, CommandEnvelope,
  CommandReconciliation, to_arg, reconcile_command_envelope, parse_command_envelope, parse_fields,
  missing_of, missing, coerce_exit_code, as_integer, parse_run_id, parse_status, parse_error_class,
  missing_fields, exit_code_invalid,
}
use orchestrator_state_machi.CommandAdapter.Reconcile.{is_clean, is_failure, reconcile_outcome}
use orchestrator_state_machi.CommandAdapter.Parse.{
  IsRunId, IsExitCode, IsStatus, NotEmpty, parse_command_envelope_ok,
}

-- A `float(text)` that reads no text.
abbrev no_float : String → Option Float
no_float s = none

-- Exit code 6 / 2, as a float.
abbrev report : Fields
report = field "run_id" (str " run-1 ") (
    field "exit_code" (float (finite (pos 6) 1))
      (field "status" (str "Failure\n") (field "error_class" (str "timeout") end)))

abbrev envelope : CommandEnvelope
envelope = record {
  run_id = "run-1";
  exit_code = pos 3;
  status = failure;
  error_class = some "timeout";
}

parsed : parse_command_envelope no_float (dict report) ≡ ok envelope
unfolding parse_command_envelope missing_of missing parse_fields coerce_exit_code as_integer
    parse_run_id parse_status parse_error_class get strip lower is_space
parsed = refl

no_status :
    parse_command_envelope no_float (dict (field "run_id" (str "r") end))
    ≡ raise (missing_fields ("exit_code" ∷ "status" ∷ []))
unfolding parse_command_envelope missing_of missing get
no_status = refl

true_is_no_exit_code : coerce_exit_code no_float (bool true) ≡ raise exit_code_invalid
unfolding coerce_exit_code
true_is_no_exit_code = refl

parse_command_envelope_ok_example :
    (d : Fields) × (dict report ≡ dict d)
    × IsRunId (value_of "run_id" d) "run-1"
    × IsExitCode no_float (value_of "exit_code" d) (pos 3)
    × IsStatus (value_of "status" d) failure
    × NotEmpty (some "timeout")
parse_command_envelope_ok_example = parse_command_envelope_ok no_float (dict report) parsed

reconcile_outcome_example :
    (k : ErrorClassification) × (r : CommandReconciliation) × (classify_error
        (to_arg (some "timeout"))
      ≡ ok k)
    × (reconcile_command_envelope envelope false ≡ ok r)
    × (r.watcher_result ≡ (
        if is_clean envelope
        then result_success
        else if false
        then success_with_exit_mismatch
        else if k.retryable
        then retry
        else human_required))
    × (r.normalized_error_class
        ≡ (if is_clean envelope || false then none else some k.normalized_error_class))
    × (r.requires_reconciliation ≡ not (is_clean envelope || (is_failure failure && not false)))
reconcile_outcome_example = reconcile_outcome envelope false
