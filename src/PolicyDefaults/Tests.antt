-- ===== src/PolicyDefaults/Tests.antt =====
-- src/watcher/policy_defaults.py: runs, and an instance of the theorem.
use orchestrator_state_machi.Prelude.{String, [], ◌∷◌, ◌≡◌, refl, ok, raise}
use orchestrator_state_machi.Prelude.Int.{pos}
use orchestrator_state_machi.Prelude.Json.{int, dict, Fields, end, field, get}
use orchestrator_state_machi.Prelude.Text.{strip, is_space}
use orchestrator_state_machi.PolicyContract.Values.{
  policy_errors, validate_timezone, zone_matches, time_matches, hhmm_to_minutes,
  validate_numeric_range, validate_weekdays, parse_weekdays, validate_hhmm, validate_int_min,
  validate_int_range, validate_int_list_min_one, parse_positive,
}
use orchestrator_state_machi.PolicyContract.Sections.{
  missing_keys, unknown_keys, range_errors, validate_business_hours, validate_retry,
  validate_risk_budget, validate_dedupe, validate_trust,
}
use orchestrator_state_machi.PolicyContract.Policy.{
  OrchestratorPolicy, check_policy, policy_with, validate_policy_mapping,
}
use orchestrator_state_machi.PolicyContract.Accepted.{IsAccepted}
use orchestrator_state_machi.PolicyDefaults.{
  EffectivePolicySnapshot, leaf_paths, join_path, unknown_paths, merge_node, accept_merged,
  inject_from, inject_canonical_defaults,
}
use orchestrator_state_machi.PolicyDefaults.Canonical.{inject_canonical_defaults_again}

-- A hash that tells nothing.
abbrev no_hash : Fields → String
no_hash d = ""

-- A policy that sets the window only.
abbrev short_window : Fields
short_window = field "dedupe" (dict (field "window_minutes" (int (pos 5)) end)) end

injected :
    (s : EffectivePolicySnapshot) × (inject_canonical_defaults no_hash (dict short_window) ≡ ok s)
unfolding inject_canonical_defaults inject_from accept_merged merge_node leaf_paths join_path
    unknown_paths validate_policy_mapping check_policy policy_with missing_keys unknown_keys
    validate_timezone zone_matches validate_business_hours validate_weekdays parse_weekdays
    validate_hhmm time_matches range_errors hhmm_to_minutes validate_retry validate_int_min
    validate_int_list_min_one parse_positive validate_int_range validate_risk_budget validate_dedupe
    validate_trust validate_numeric_range get strip is_space
injected = (_, refl)

unknown_refused :
    inject_canonical_defaults no_hash
      (dict (field "retry" (dict (field "retries" (int (pos 1)) end)) end))
    ≡ raise (policy_errors ("retry.retries unknown" ∷ []))
unfolding inject_canonical_defaults inject_from accept_merged merge_node leaf_paths join_path
    unknown_paths get
unknown_refused = refl

inject_canonical_defaults_again_example :
    ((p : OrchestratorPolicy) × (validate_policy_mapping (dict injected.0.effective_policy) ≡ ok p)
      × IsAccepted p)
    × (inject_canonical_defaults no_hash (dict injected.0.effective_policy)
        ≡ ok (record injected.0 { defaults_applied = [] }))
inject_canonical_defaults_again_example =
    inject_canonical_defaults_again no_hash (dict short_window) injected.1
