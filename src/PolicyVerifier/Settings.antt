-- ===== src/PolicyVerifier/Settings.antt =====
-- src/watcher/policy_verifier.py: the settings that its checks read.
use orchestrator_state_machi.Prelude.{Checked}
use orchestrator_state_machi.Prelude.{append_nil_left, append_nil_right}
use orchestrator_state_machi.Prelude.{String, [], ◌≡◌, subst, arith, ok}
use orchestrator_state_machi.Prelude.Int.{ℤ, pos}
use orchestrator_state_machi.Prelude.Json.{Value, int, dict, Fields, value_of}
use orchestrator_state_machi.PolicyContract.Values.{validate_int_min}
use orchestrator_state_machi.PolicyContract.Sections.{
  TrustPolicy, validate_retry, validate_risk_budget,
}
use orchestrator_state_machi.PolicyContract.Policy.{
  OrchestratorPolicy, policy_with, validate_policy_mapping,
}
use orchestrator_state_machi.PolicyContract.Accepted.{
  section_errors, sections_pass, validate_policy_mapping-steps,
}
use orchestrator_state_machi.PolicyVerifier.{int_of, section_of, setting}

-- The settings that the checks read are those of the policy that was accepted.
int_of-validate_int_min :
    (v : Value) (f : String) (m : ℤ)
    → (validate_int_min v f m).1 ≡ []
    → (validate_int_min v f m).0 ≡ int_of v
unfolding validate_int_min
int_of-validate_int_min (int n) f m h = ground arith
int_of-validate_int_min _ f m h = absurd (ground arith)

retries_setting :
    (v : Value)
    → (validate_retry v).1 ≡ []
    → (validate_retry v).0.max_retries ≡ int_of (value_of "max_retries" (section_of v))
unfolding validate_retry
retries_setting (dict d) h =
    int_of-validate_int_min (value_of "max_retries" d) "retry.max_retries" (pos 0)
      (append_nil_left _ _ (section_errors _ _ _ h))
retries_setting _ h = absurd (ground arith)

budget_settings :
    (v : Value)
    → (validate_risk_budget v).1 ≡ []
    → ((validate_risk_budget v).0.max_noncritical_escalations_per_day
        ≡ int_of (value_of "max_noncritical_escalations_per_day" (section_of v)))
      × ((validate_risk_budget v).0.max_noncritical_pages_per_hour
          ≡ int_of (value_of "max_noncritical_pages_per_hour" (section_of v)))
unfolding validate_risk_budget
budget_settings (dict d) h =
    let e = section_errors _ _ _ h in
    (
      int_of-validate_int_min (value_of "max_noncritical_escalations_per_day" d)
          "risk_budget.max_noncritical_escalations_per_day" (pos 0) (append_nil_left _ _ e),
      int_of-validate_int_min (value_of "max_noncritical_pages_per_hour" d)
          "risk_budget.max_noncritical_pages_per_hour" (pos 0) (append_nil_right _ _ e),
    )
budget_settings _ h = absurd (ground arith)

-- The settings that the checks read, of an accepted policy.
pub record HasSettings (d : Fields) (p : OrchestratorPolicy) : Type 0 where
  pub retries : p.retry.max_retries ≡ setting "retry" "max_retries" d
  pub per_day :
      p.risk_budget.max_noncritical_escalations_per_day
      ≡ setting "risk_budget" "max_noncritical_escalations_per_day" d
  pub per_hour :
      p.risk_budget.max_noncritical_pages_per_hour
      ≡ setting "risk_budget" "max_noncritical_pages_per_hour" d

policy_with-HasSettings :
    (d : Fields) (t : Checked TrustPolicy)
    → (policy_with d t).1 ≡ []
    → HasSettings d (policy_with d t).0
unfolding policy_with
policy_with-HasSettings d t h =
    let (_, _, retry, risk, _, _) = sections_pass d t h in
    let budget = budget_settings (value_of "risk_budget" d) risk in
    record {
      retries = retries_setting (value_of "retry" d) retry;
      per_day = budget.0;
      per_hour = budget.1;
    }

pub accepted-HasSettings :
    (d : Fields) {p : OrchestratorPolicy}
    → validate_policy_mapping (dict d) ≡ ok p
    → HasSettings d p
accepted-HasSettings d h =
    let (t, read, none_, same) = validate_policy_mapping-steps d h in
    subst (HasSettings d) same (policy_with-HasSettings d t none_)
