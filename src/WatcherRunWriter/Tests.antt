-- ===== src/WatcherRunWriter/Tests.antt =====
-- Runs of src/watcher/watcher_run_writer.py.
use orchestrator_state_machi.Prelude.{[], ◌∷◌, ◌++◌, ◌≡◌, refl, ok, raise, arith}
use orchestrator_state_machi.Prelude.Int.{pos}
use orchestrator_state_machi.Prelude.Json.{Value, str, int, float, nan, dict, field, end, get, null}
use orchestrator_state_machi.Prelude.Text.{is_space, strip}
use orchestrator_state_machi.Time.{rfc3339, parse_rfc3339_utc}
use orchestrator_state_machi.Time.Example.{zeros_calendar}
use orchestrator_state_machi.WatcherRunWriter.{
  blank, ensure_not_recorded, append_watcher_run, records,
}
use orchestrator_state_machi.WatcherRunWriter.Validation.{
  WatcherRun, validation, handoff_key_matches, check_text, check_member, check_attempt, check_score,
  check_optional, unknown_fields, reject_names, check_options, check_timestamp, validate_fields,
  validate_watcher_run,
}
use orchestrator_state_machi.WatcherRunWriter.Journal.{
  IsJournal, count_records, line_of, duplicate, append_watcher_run-IsJournal,
  append_watcher_run_again,
}

abbrev raw : Value
raw = dict (
    field "handoff_key" (str "0123abcd") (
      field "state_from" (str "RUNNING") (
        field "state_to" (str "DONE") (
          field "attempt" (int (pos 2)) (
            field "result" (str "success") (
              field "timestamp" (str " 000Z")
                (field "error_class" null (field "policy_version" (str "v1") end))))))))

abbrev run : WatcherRun
run = record {
  handoff_key = "0123abcd";
  state_from = "RUNNING";
  state_to = "DONE";
  attempt = pos 2;
  result = "success";
  timestamp = "000Z";
  options = field "policy_version" (str "v1") end;
}

validate_test : validate_watcher_run zeros_calendar raw ≡ ok run
unfolding validate_watcher_run validate_fields unknown_fields reject_names check_text
    handoff_key_matches check_member check_attempt check_timestamp parse_rfc3339_utc rfc3339
    check_options check_optional get strip is_space
validate_test = refl

append_test :
    append_watcher_run zeros_calendar (blank ∷ []) raw ≡ ok (run, blank ∷ line_of run ∷ [])
unfolding append_watcher_run ensure_not_recorded records validate_watcher_run validate_fields
    unknown_fields reject_names check_text handoff_key_matches check_member check_attempt
    check_timestamp parse_rfc3339_utc rfc3339 check_options check_optional get strip is_space
append_test = refl

unknown_test :
    validate_watcher_run zeros_calendar (dict (field "z" null (field "a" null end)))
    ≡ raise (validation "unknown fields: a,z")
unfolding validate_watcher_run validate_fields unknown_fields reject_names
unknown_test = refl

-- The expression ends in `$`, which also matches before a last newline.
newline_key : check_text handoff_key_matches "handoff_key" (str "0123abcd\n") ≡ ok "0123abcd\n"
unfolding check_text handoff_key_matches
newline_key = refl

-- No comparison with a NaN is true.
nan_trust_score : check_score (float nan) ≡ ok (float nan)
unfolding check_score
nan_trust_score = refl

log-IsJournal : IsJournal (blank ∷ [])
unfolding count_records records
log-IsJournal handoff_key attempt = omega arith

append_watcher_run-IsJournal_example :
    IsJournal (blank ∷ line_of run ∷ [])
    × ((blank ∷ line_of run ∷ []) ≡ (blank ∷ []) ++ (line_of run ∷ []))
append_watcher_run-IsJournal_example =
    append_watcher_run-IsJournal zeros_calendar (blank ∷ []) raw run (blank ∷ line_of run ∷ [])
      log-IsJournal append_test

append_watcher_run_again_example :
    append_watcher_run zeros_calendar (blank ∷ line_of run ∷ []) raw ≡ raise duplicate
append_watcher_run_again_example =
    append_watcher_run_again zeros_calendar (blank ∷ []) raw raw run run (blank ∷ line_of run ∷ [])
      append_test validate_test refl refl
