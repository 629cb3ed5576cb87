-- ===== src/PolicyContract/Accepted.antt =====
-- src/watcher/policy_contract.py: every policy that is accepted is one that the watcher can run on.
use orchestrator_state_machi.Prelude.{
  Checked, invalid, raise_errors, rethrow, rethrow-ok, >>=-eq-ok, ◌>>=◌, ok_injective, ap, ◌∙◌,
}
use orchestrator_state_machi.Prelude.Json.{null, bool, int, float, str, list}
use orchestrator_state_machi.PolicyContract.Values.{
  policy_errors, zero_float, validate_int_min, validate_numeric_range,
}
use orchestrator_state_machi.PolicyContract.Sections.{
  TrustPolicy, missing_keys, unknown_keys, trust_keys,
}
use orchestrator_state_machi.PolicyContract.Policy.{policy_with}
use orchestrator_state_machi.Prelude.{append_nil_left, append_nil_right, raise_errors-ok}
use orchestrator_state_machi.Prelude.{
  ◌<◌, String, true, false, List, [], ◌++◌, ◌≡◌, arith, ok, subst,
}
use orchestrator_state_machi.Prelude.Int.{pos, ◌≤ℤ◌}
use orchestrator_state_machi.Prelude.Text.{is_blank}
use orchestrator_state_machi.Prelude.Json.{Value, dict, Fields, value_of}
use orchestrator_state_machi.PolicyContract.Values.{
  time_matches, hhmm_to_minutes, first_part, zone_matches, out_of_range, validate_timezone,
}
use orchestrator_state_machi.PolicyContract.Sections.{
  BusinessHoursPolicy, RetryPolicy, range_errors, validate_business_hours, validate_retry,
  validate_risk_budget, validate_dedupe, validate_trust,
}
use orchestrator_state_machi.PolicyContract.Policy.{
  OrchestratorPolicy, check_policy, validate_policy_mapping,
}
use orchestrator_state_machi.PolicyContract.Bounds.{
  int_min_bound, int_range_bounds, numeric_range_bounds, IsPositive, int_list-IsPositive,
}
use orchestrator_state_machi.PolicyContract.Hours.{
  IsWeekdays, validate_weekdays-IsWeekdays, validate_hhmm-time_matches, hhmm_to_minutes-lt,
  validate_timezone-zone_matches,
}

-- The hours of a day: they start before they end, and end before midnight.
pub record IsBusinessHours (b : BusinessHoursPolicy) : Type 0 where
  pub weekdays : IsWeekdays b.weekdays
  pub start : time_matches b.start ≡ true
  pub end_ : time_matches b.end_ ≡ true
  pub ordered : hhmm_to_minutes b.start < hhmm_to_minutes b.end_
  pub same_day : hhmm_to_minutes b.end_ < 1440

pub record IsRetryPolicy (r : RetryPolicy) : Type 0 where
  pub retries : pos 0 ≤ℤ r.max_retries
  pub backoff : IsPositive r.backoff_seconds
  pub jitter_min : pos 0 ≤ℤ r.jitter_pct
  pub jitter_max : r.jitter_pct ≤ℤ pos 100

-- What an accepted policy satisfies.
pub record IsAccepted (p : OrchestratorPolicy) : Type 0 where
  pub timezone : zone_matches (first_part false) p.timezone ≡ true
  pub hours : IsBusinessHours p.business_hours
  pub retry : IsRetryPolicy p.retry
  pub per_day : pos 0 ≤ℤ p.risk_budget.max_noncritical_escalations_per_day
  pub per_hour : pos 0 ≤ℤ p.risk_budget.max_noncritical_pages_per_hour
  pub window : pos 1 ≤ℤ p.dedupe.window_minutes
  pub score : out_of_range p.trust.initial_score 0 1 ≡ false
  pub samples : pos 1 ≤ℤ p.trust.min_samples

ordered_hours :
    (s e : String)
    → is_blank s ≡ false
    → is_blank e ≡ false
    → range_errors s e ≡ []
    → hhmm_to_minutes s < hhmm_to_minutes e
unfolding range_errors
ordered_hours s e bs be h = ground arith

-- The errors behind the first two lists of a section.
pub section_errors :
    (missing unknown rest : List String) → missing ++ (unknown ++ rest) ≡ [] → rest ≡ []
section_errors missing unknown rest h =
    append_nil_right unknown rest (append_nil_right missing (unknown ++ rest) h)

pub validate_business_hours-IsBusinessHours :
    (v : Value) → (validate_business_hours v).1 ≡ [] → IsBusinessHours (validate_business_hours v).0
unfolding validate_business_hours
validate_business_hours-IsBusinessHours (dict d) h =
    let e = section_errors _ _ _ h in
    let w = append_nil_left _ _ e in
    let e₁ = append_nil_right _ _ e in
    let s =
      validate_hhmm-time_matches (value_of "start" d) "business_hours.start"
        (append_nil_left _ _ e₁) in
    let e₂ = append_nil_right _ _ e₁ in
    let t =
      validate_hhmm-time_matches (value_of "end" d) "business_hours.end" (append_nil_left _ _ e₂) in
    record {
      weekdays = validate_weekdays-IsWeekdays (value_of "weekdays" d) w;
      start = s;
      end_ = t;
      ordered =
          ordered_hours _ _ (hhmm_to_minutes-lt _ s).1 (hhmm_to_minutes-lt _ t).1
            (append_nil_right _ _ e₂);
      same_day = (hhmm_to_minutes-lt _ t).0;
    }
validate_business_hours-IsBusinessHours _ h = absurd (ground arith)

validate_retry-IsRetryPolicy :
    (v : Value) → (validate_retry v).1 ≡ [] → IsRetryPolicy (validate_retry v).0
unfolding validate_retry
validate_retry-IsRetryPolicy (dict d) h =
    let e = section_errors _ _ _ h in
    let e₁ = append_nil_right _ _ e in
    let j =
      int_range_bounds (value_of "jitter_pct" d) "retry.jitter_pct" (pos 0) (pos 100)
        (append_nil_right _ _ e₁) in
    record {
      retries =
          int_min_bound (value_of "max_retries" d) "retry.max_retries" (pos 0)
            (append_nil_left _ _ e);
      backoff =
          int_list-IsPositive (value_of "backoff_seconds" d) "retry.backoff_seconds"
            (append_nil_left _ _ e₁);
      jitter_min = j.0;
      jitter_max = j.1;
    }
validate_retry-IsRetryPolicy _ h = absurd (ground arith)

validate_risk_budget_bounds :
    (v : Value)
    → (validate_risk_budget v).1 ≡ []
    → (pos 0 ≤ℤ (validate_risk_budget v).0.max_noncritical_escalations_per_day)
      × (pos 0 ≤ℤ (validate_risk_budget v).0.max_noncritical_pages_per_hour)
unfolding validate_risk_budget
validate_risk_budget_bounds (dict d) h =
    let e = section_errors _ _ _ h in
    (
      int_min_bound (value_of "max_noncritical_escalations_per_day" d)
          "risk_budget.max_noncritical_escalations_per_day" (pos 0) (append_nil_left _ _ e),
      int_min_bound (value_of "max_noncritical_pages_per_hour" d)
          "risk_budget.max_noncritical_pages_per_hour" (pos 0) (append_nil_right _ _ e),
    )
validate_risk_budget_bounds _ h = absurd (ground arith)

validate_dedupe_bound :
    (v : Value) → (validate_dedupe v).1 ≡ [] → pos 1 ≤ℤ (validate_dedupe v).0.window_minutes
unfolding validate_dedupe
validate_dedupe_bound (dict d) h =
    int_min_bound (value_of "window_minutes" d) "dedupe.window_minutes" (pos 1)
      (section_errors _ _ _ h)
validate_dedupe_bound _ h = absurd (ground arith)

no_section :
    {t : Checked TrustPolicy}
    → invalid "trust" (record { initial_score = zero_float; min_samples = pos 0 }) ≡ t
    → t.1 ≡ []
    → (out_of_range t.0.initial_score 0 1 ≡ false) × (pos 1 ≤ℤ t.0.min_samples)
no_section e h = absurd (ground (arith, ap (λ c. c.1) e ∙ h))

validate_trust_bounds :
    (v : Value) {t : Checked TrustPolicy}
    → validate_trust v ≡ ok t
    → t.1 ≡ []
    → (out_of_range t.0.initial_score 0 1 ≡ false) × (pos 1 ≤ℤ t.0.min_samples)
unfolding validate_trust
validate_trust_bounds (dict d) read =
    let samples = validate_int_min (value_of "min_samples" d) "trust.min_samples" (pos 1) in
    let (score, scored, same) =
      >>=-eq-ok (validate_numeric_range (value_of "initial_score" d) "trust.initial_score" 0 1)
        (λ s. ok (
          record { initial_score = s.0; min_samples = samples.0 },
          missing_keys "trust." trust_keys d
              ++ (unknown_keys d trust_keys "trust" ++ (s.1 ++ samples.1)),
        ))
        read in
    subst
      (λ t. t.1 ≡ [] → (out_of_range t.0.initial_score 0 1 ≡ false) × (pos 1 ≤ℤ t.0.min_samples))
      (ok_injective same)
      (λ h.
        let e = section_errors _ _ _ h in
        (
          numeric_range_bounds (value_of "initial_score" d) "trust.initial_score" 0 1 scored
              (append_nil_left _ _ e),
          int_min_bound (value_of "min_samples" d) "trust.min_samples" (pos 1)
              (append_nil_right _ _ e),
        ))
validate_trust_bounds null read = no_section (ok_injective read)
validate_trust_bounds (bool b) read = no_section (ok_injective read)
validate_trust_bounds (int n) read = no_section (ok_injective read)
validate_trust_bounds (float x) read = no_section (ok_injective read)
validate_trust_bounds (str s) read = no_section (ok_injective read)
validate_trust_bounds (list xs) read = no_section (ok_injective read)

-- If a policy has no error, then none of its sections has.
pub sections_pass :
    (d : Fields) (t : Checked TrustPolicy)
    → (policy_with d t).1 ≡ []
    → ((validate_timezone (value_of "timezone" d)).1 ≡ [])
      × ((validate_business_hours (value_of "business_hours" d)).1 ≡ [])
      × ((validate_retry (value_of "retry" d)).1 ≡ [])
      × ((validate_risk_budget (value_of "risk_budget" d)).1 ≡ [])
      × ((validate_dedupe (value_of "dedupe" d)).1 ≡ [])
      × (t.1 ≡ [])
unfolding policy_with
sections_pass d t h =
    let e = section_errors _ _ _ h in
    let e₁ = append_nil_right _ _ e in
    let e₂ = append_nil_right _ _ e₁ in
    let e₃ = append_nil_right _ _ e₂ in
    let e₄ = append_nil_right _ _ e₃ in
    (
      append_nil_left _ _ e,
      append_nil_left _ _ e₁,
      append_nil_left _ _ e₂,
      append_nil_left _ _ e₃,
      append_nil_left _ _ e₄,
      append_nil_right _ _ e₄,
    )

policy_with-IsAccepted :
    (d : Fields) (t : Checked TrustPolicy)
    → validate_trust (value_of "trust" d) ≡ ok t
    → (policy_with d t).1 ≡ []
    → IsAccepted (policy_with d t).0
unfolding policy_with
policy_with-IsAccepted d t read h =
    let (zone, hours, retry, risk, dedupe, score) = sections_pass d t h in
    let budget = validate_risk_budget_bounds (value_of "risk_budget" d) risk in
    let trust = validate_trust_bounds (value_of "trust" d) read score in
    record {
      timezone = validate_timezone-zone_matches (value_of "timezone" d) zone;
      hours = validate_business_hours-IsBusinessHours (value_of "business_hours" d) hours;
      retry = validate_retry-IsRetryPolicy (value_of "retry" d) retry;
      per_day = budget.0;
      per_hour = budget.1;
      window = validate_dedupe_bound (value_of "dedupe" d) dedupe;
      score = trust.0;
      samples = trust.1;
    }

-- What a validation that returns went through.
pub validate_policy_mapping-steps :
    (d : Fields) {p : OrchestratorPolicy}
    → validate_policy_mapping (dict d) ≡ ok p
    → (t : Checked TrustPolicy) × (validate_trust (value_of "trust" d) ≡ ok t)
      × ((policy_with d t).1 ≡ [])
      × ((policy_with d t).0 ≡ p)
unfolding validate_policy_mapping check_policy
validate_policy_mapping-steps d h =
    let (c, checked, raised) =
      >>=-eq-ok (validate_trust (value_of "trust" d) >>= λ trust. ok (policy_with d trust))
        (λ c. rethrow policy_errors (raise_errors c)) h in
    let (t, read, same) =
      >>=-eq-ok (validate_trust (value_of "trust" d)) (λ trust. ok (policy_with d trust)) checked in
    let (none_, p) = raise_errors-ok c (rethrow-ok policy_errors (raise_errors c) raised) in
    (t, read, ap (λ c. c.1) (ok_injective same) ∙ none_, ap (λ c. c.0) (ok_injective same) ∙ p)

-- A policy that `validate_policy_mapping` accepts has a zone of the form Area/Place; known weekdays,
-- one at least and none twice; hours that start before they end, on one day; no negative retries;
-- backoffs, one at least, of a second or more; a jitter of 0 to 100; budgets that are not negative; a
-- window of a minute or more; an initial score that is not below 0 and not above 1; and a sample or
-- more.
pub validate_policy_mapping-IsAccepted :
    (v : Value) {p : OrchestratorPolicy} → validate_policy_mapping v ≡ ok p → IsAccepted p
unfolding validate_policy_mapping
validate_policy_mapping-IsAccepted (dict d) h =
    let (t, read, none_, same) = validate_policy_mapping-steps d h in
    subst IsAccepted same (policy_with-IsAccepted d t read none_)
validate_policy_mapping-IsAccepted _ h = cc
