-- ===== src/PolicyContract/Sections.antt =====
-- src/watcher/policy_contract.py: the sections of a policy.
use orchestrator_state_machi.Prelude.{Result, ok, ◌>>=◌}
use orchestrator_state_machi.PolicyContract.Values.{PolicyError}
use orchestrator_state_machi.Prelude.{Checked, invalid}
use orchestrator_state_machi.Prelude.{
  String, ◌&&◌, not, List, [], ◌∷◌, ◌++◌, append, contains, leb, if◌then◌else◌,
}
use orchestrator_state_machi.Prelude.Int.{ℤ, pos}
use orchestrator_state_machi.Prelude.Text.{is_blank}
use orchestrator_state_machi.Prelude.Json.{
  Float, Value, dict, Fields, end, field, has_key, value_of,
}
use orchestrator_state_machi.PolicyContract.Values.{
  zero_float, hhmm_to_minutes, validate_weekdays, validate_hhmm, validate_int_min,
  validate_int_range, validate_int_list_min_one, validate_numeric_range,
}

pub record BusinessHoursPolicy : Type 0 where
  pub weekdays : List String
  pub start : String
  pub end_ : String

pub record RetryPolicy : Type 0 where
  pub max_retries : ℤ
  pub backoff_seconds : List ℤ
  pub jitter_pct : ℤ

pub record RiskBudgetPolicy : Type 0 where
  pub max_noncritical_escalations_per_day : ℤ
  pub max_noncritical_pages_per_hour : ℤ

pub record DedupePolicy : Type 0 where
  pub window_minutes : ℤ

pub record TrustPolicy : Type 0 where
  pub initial_score : Float
  pub min_samples : ℤ

-- `for key in required: if key not in mapping: errors.append(f"{prefix}{key} missing")`
unfoldable pub missing_keys : String → List String → Fields → List String
missing_keys prefix [] d = []
missing_keys prefix (k ∷ ks) d =
    let rest = missing_keys prefix ks d in
    if has_key k d then rest else append prefix (append k " missing") ∷ rest

-- `_validate_no_unknown_keys`
unfoldable pub unknown_keys : Fields → List String → String → List String
unknown_keys end allowed path = []
unknown_keys (field k v d) allowed path =
    let rest = unknown_keys d allowed path in
    if contains allowed k then rest else append path (append "." (append k " unknown")) ∷ rest

abbrev pub business_hours_keys : List String
business_hours_keys = "weekdays" ∷ "start" ∷ "end" ∷ []

-- The test on the range of the hours.
unfoldable pub range_errors : String → String → List String
unfolding hhmm_to_minutes
range_errors start end_ =
    if not (is_blank start)
      && not (is_blank end_)
      && leb (hhmm_to_minutes end_) (hhmm_to_minutes start)
    then "business_hours range invalid" ∷ []
    else []

-- `_validate_business_hours`
unfoldable pub validate_business_hours : Value → Checked BusinessHoursPolicy
validate_business_hours (dict d) =
    let weekdays = validate_weekdays (value_of "weekdays" d) in
    let start = validate_hhmm (value_of "start" d) "business_hours.start" in
    let end_ = validate_hhmm (value_of "end" d) "business_hours.end" in
    (
      record { weekdays = weekdays.0; start = start.0; end_ = end_.0 },
      missing_keys "business_hours." business_hours_keys d
          ++ (unknown_keys d business_hours_keys "business_hours"
              ++ (weekdays.1 ++ (start.1 ++ (end_.1 ++ range_errors start.0 end_.0)))),
    )
validate_business_hours _ =
    invalid "business_hours" (record { weekdays = []; start = ""; end_ = "" })

abbrev pub retry_keys : List String
retry_keys = "max_retries" ∷ "backoff_seconds" ∷ "jitter_pct" ∷ []

-- `_validate_retry`
unfoldable pub validate_retry : Value → Checked RetryPolicy
validate_retry (dict d) =
    let max_retries = validate_int_min (value_of "max_retries" d) "retry.max_retries" (pos 0) in
    let backoff_seconds =
      validate_int_list_min_one (value_of "backoff_seconds" d) "retry.backoff_seconds" in
    let jitter_pct =
      validate_int_range (value_of "jitter_pct" d) "retry.jitter_pct" (pos 0) (pos 100) in
    (
      record {
        max_retries = max_retries.0;
        backoff_seconds = backoff_seconds.0;
        jitter_pct = jitter_pct.0;
      },
      missing_keys "retry." retry_keys d
          ++ (unknown_keys d retry_keys "retry"
              ++ (max_retries.1 ++ (backoff_seconds.1 ++ jitter_pct.1))),
    )
validate_retry _ =
    invalid "retry" (record { max_retries = pos 0; backoff_seconds = []; jitter_pct = pos 0 })

abbrev pub risk_budget_keys : List String
risk_budget_keys = "max_noncritical_escalations_per_day" ∷ "max_noncritical_pages_per_hour" ∷ []

-- `_validate_risk_budget`
unfoldable pub validate_risk_budget : Value → Checked RiskBudgetPolicy
validate_risk_budget (dict d) =
    let max_day =
      validate_int_min (value_of "max_noncritical_escalations_per_day" d)
        "risk_budget.max_noncritical_escalations_per_day" (pos 0) in
    let max_hour =
      validate_int_min (value_of "max_noncritical_pages_per_hour" d)
        "risk_budget.max_noncritical_pages_per_hour" (pos 0) in
    (
      record {
        max_noncritical_escalations_per_day = max_day.0;
        max_noncritical_pages_per_hour = max_hour.0;
      },
      missing_keys "risk_budget." risk_budget_keys d
          ++ (unknown_keys d risk_budget_keys "risk_budget" ++ (max_day.1 ++ max_hour.1)),
    )
validate_risk_budget _ =
    invalid "risk_budget" (record {
      max_noncritical_escalations_per_day = pos 0;
      max_noncritical_pages_per_hour = pos 0;
    })

abbrev pub dedupe_keys : List String
dedupe_keys = "window_minutes" ∷ []

-- `_validate_dedupe`
unfoldable pub validate_dedupe : Value → Checked DedupePolicy
validate_dedupe (dict d) =
    let window_minutes =
      validate_int_min (value_of "window_minutes" d) "dedupe.window_minutes" (pos 1) in
    (
      record { window_minutes = window_minutes.0 },
      missing_keys "dedupe." dedupe_keys d
          ++ (unknown_keys d dedupe_keys "dedupe" ++ window_minutes.1),
    )
validate_dedupe _ = invalid "dedupe" (record { window_minutes = pos 0 })

abbrev pub trust_keys : List String
trust_keys = "initial_score" ∷ "min_samples" ∷ []

-- `_validate_trust`
unfoldable pub validate_trust : Value → Result PolicyError (Checked TrustPolicy)
validate_trust (dict d) =
    let min_samples = validate_int_min (value_of "min_samples" d) "trust.min_samples" (pos 1) in
    validate_numeric_range (value_of "initial_score" d) "trust.initial_score" 0 1
    >>= λ initial_score. ok (
      record { initial_score = initial_score.0; min_samples = min_samples.0 },
      missing_keys "trust." trust_keys d
          ++ (unknown_keys d trust_keys "trust" ++ (initial_score.1 ++ min_samples.1)),
    )
validate_trust _ = ok (invalid "trust" (record { initial_score = zero_float; min_samples = pos 0 }))
