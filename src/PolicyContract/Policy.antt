-- ===== src/PolicyContract/Policy.antt =====
-- src/watcher/policy_contract.py: a whole policy.
use orchestrator_state_machi.Prelude.{ok, ◌>>=◌, rethrow}
use orchestrator_state_machi.PolicyContract.Values.{PolicyError, policy_errors}
use orchestrator_state_machi.Prelude.{raise_errors}
use orchestrator_state_machi.Prelude.{Checked}
use orchestrator_state_machi.Prelude.{String, List, [], ◌∷◌, ◌++◌, Result, raise}
use orchestrator_state_machi.Prelude.Json.{Value, dict, Fields, value_of}
use orchestrator_state_machi.PolicyContract.Values.{validate_timezone}
use orchestrator_state_machi.PolicyContract.Sections.{
  BusinessHoursPolicy, RetryPolicy, RiskBudgetPolicy, DedupePolicy, TrustPolicy, missing_keys,
  unknown_keys, validate_business_hours, validate_retry, validate_risk_budget, validate_dedupe,
  validate_trust,
}

pub record OrchestratorPolicy : Type 0 where
  pub timezone : String
  pub business_hours : BusinessHoursPolicy
  pub retry : RetryPolicy
  pub risk_budget : RiskBudgetPolicy
  pub dedupe : DedupePolicy
  pub trust : TrustPolicy

-- REQUIRED_TOP_LEVEL_KEYS
abbrev pub required_top_level_keys : List String
required_top_level_keys =
    "timezone" ∷ "business_hours" ∷ "retry" ∷ "risk_budget" ∷ "dedupe" ∷ "trust" ∷ []

-- The policy that an object is read as, with all errors, when its section `trust` has been read.
unfoldable pub policy_with : Fields → Checked TrustPolicy → Checked OrchestratorPolicy
policy_with d trust =
    let timezone = validate_timezone (value_of "timezone" d) in
    let business_hours = validate_business_hours (value_of "business_hours" d) in
    let retry = validate_retry (value_of "retry" d) in
    let risk_budget = validate_risk_budget (value_of "risk_budget" d) in
    let dedupe = validate_dedupe (value_of "dedupe" d) in
    (
      record {
        timezone = timezone.0;
        business_hours = business_hours.0;
        retry = retry.0;
        risk_budget = risk_budget.0;
        dedupe = dedupe.0;
        trust = trust.0;
      },
      missing_keys "" required_top_level_keys d
          ++ (unknown_keys d required_top_level_keys "policy"
              ++ (timezone.1
                  ++ (business_hours.1 ++ (retry.1 ++ (risk_budget.1 ++ (dedupe.1 ++ trust.1)))))),
    )

-- `trust` is read last, and its score may raise OverflowError.
unfoldable pub check_policy : Fields → Result PolicyError (Checked OrchestratorPolicy)
check_policy d = validate_trust (value_of "trust" d) >>= λ trust. ok (policy_with d trust)

-- `validate_policy_mapping`
unfoldable pub validate_policy_mapping : Value → Result PolicyError OrchestratorPolicy
validate_policy_mapping (dict d) = check_policy d >>= λ c. rethrow policy_errors (raise_errors c)
validate_policy_mapping _ = raise (policy_errors ("policy root must be an object" ∷ []))
