-- ===== src/PolicyContract/Tests.antt =====
-- src/watcher/policy_contract.py: runs, and an instance of the theorem.
use orchestrator_state_machi.Prelude.{◌^◌}
use orchestrator_state_machi.Prelude.{true, false, [], ◌∷◌, ◌≡◌, refl, ok, raise}
use orchestrator_state_machi.Prelude.Int.{pos}
use orchestrator_state_machi.Prelude.Text.{strip, is_space}
use orchestrator_state_machi.Prelude.Json.{
  nan, finite, null, int, float, str, list, dict, nil, cons, Fields, end, field, get,
}
use orchestrator_state_machi.PolicyContract.Values.{
  policy_errors, overflow_error, first_part, zone_matches, validate_timezone, time_matches,
  hhmm_to_minutes, validate_numeric_range, validate_weekdays, parse_weekdays, validate_hhmm,
  validate_int_min, validate_int_range, validate_int_list_min_one, parse_positive,
}
use orchestrator_state_machi.PolicyContract.Sections.{
  missing_keys, unknown_keys, range_errors, validate_business_hours, validate_retry,
  validate_risk_budget, validate_dedupe, validate_trust,
}
use orchestrator_state_machi.PolicyContract.Policy.{
  OrchestratorPolicy, check_policy, policy_with, validate_policy_mapping,
}
use orchestrator_state_machi.PolicyContract.Accepted.{
  IsAccepted, validate_policy_mapping-IsAccepted,
}

zone_test : zone_matches (first_part false) "America/Argentina/Ushuaia" ≡ true
unfolding zone_matches
zone_test = refl

no_zone_test : zone_matches (first_part false) "UTC" ≡ false
unfolding zone_matches
no_zone_test = refl

minutes_test : hhmm_to_minutes "18:05" ≡ 1085
unfolding hhmm_to_minutes
minutes_test = refl

-- A score that is not a number passes.
nan_score : validate_numeric_range (float nan) "trust.initial_score" 0 1 ≡ ok (nan, [])
unfolding validate_numeric_range
nan_score = refl

-- An integer that no float can hold is not reported, but raises.
large_score :
    validate_numeric_range (int (pos (10 ^ 400))) "trust.initial_score" 0 1 ≡ raise overflow_error
unfolding validate_numeric_range
large_score = refl

abbrev small_policy : Fields
small_policy = field "timezone" (str " Europe/Rome ") (
    field "business_hours"
      (dict (
        field "weekdays" (list (cons (str "Mon") (cons (str "Tue") nil)))
          (field "start" (str "09:00") (field "end" (str "18:00") end))))
      (field "retry"
        (dict (
          field "max_retries" (int (pos 3)) (
            field "backoff_seconds" (list (cons (int (pos 60)) nil))
              (field "jitter_pct" (int (pos 15)) end))))
        (field "risk_budget"
          (dict (
            field "max_noncritical_escalations_per_day" (int (pos 2))
              (field "max_noncritical_pages_per_hour" (int (pos 1)) end)))
          (field "dedupe" (dict (field "window_minutes" (int (pos 60)) end)) (
            field "trust"
              (dict (
                field "initial_score" (float (finite (pos 1) 1))
                  (field "min_samples" (int (pos 5)) end)))
              end)))))

small_accepted : (p : OrchestratorPolicy) × (validate_policy_mapping (dict small_policy) ≡ ok p)
unfolding validate_policy_mapping check_policy policy_with missing_keys unknown_keys
    validate_timezone zone_matches validate_business_hours validate_weekdays parse_weekdays
    validate_hhmm time_matches range_errors hhmm_to_minutes validate_retry validate_int_min
    validate_int_list_min_one parse_positive validate_int_range validate_risk_budget validate_dedupe
    validate_trust validate_numeric_range get strip is_space
small_accepted = (_, refl)

all_errors :
    validate_policy_mapping (
      dict (
        field "extra" null
          (field "dedupe" (dict (field "window_minutes" (int (pos 0)) end)) small_policy)))
    ≡ raise (policy_errors ("policy.extra unknown" ∷ "dedupe.window_minutes invalid" ∷ []))
unfolding validate_policy_mapping check_policy policy_with missing_keys unknown_keys
    validate_timezone zone_matches validate_business_hours validate_weekdays parse_weekdays
    validate_hhmm time_matches range_errors hhmm_to_minutes validate_retry validate_int_min
    validate_int_list_min_one parse_positive validate_int_range validate_risk_budget validate_dedupe
    validate_trust validate_numeric_range get strip is_space
all_errors = refl

validate_policy_mapping-IsAccepted_example : IsAccepted small_accepted.0
validate_policy_mapping-IsAccepted_example =
    validate_policy_mapping-IsAccepted (dict small_policy) small_accepted.1
