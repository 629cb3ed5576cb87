-- ===== src/PolicyPrecedence/Tests.antt =====
-- Runs and instances for the policy precedence.
use orchestrator_state_machi.Prelude.{ok, ◌≢◌, ◌⊎◌, ◌≡◌, ◌↔◌, refl, true, false, none, some}
use orchestrator_state_machi.Prelude.Int.{pos}
use orchestrator_state_machi.Prelude.Json.{finite, nan}
use orchestrator_state_machi.ErrorClassifier.{ErrorClassification, text, classify_error}
use orchestrator_state_machi.PolicyPrecedence.{
  PrecedenceContext, retry, human_required_queued, human_required_suppressed, shallow, deep,
  evaluate_dead_letter, evaluate_failure_class, route_from_trust, trust_stage, dedupe_stage,
  hours_stage, budget_stage, criticality_stage, failure_stage, dead_letter_stage, fsm_stage,
  schema_stage, evaluate_policy_precedence,
}
use orchestrator_state_machi.PolicyPrecedence.Cases.{IsEscalated, IsRetried}
use orchestrator_state_machi.PolicyPrecedence.Outcomes.{
  IsQueued, IsSuppressed, retry_iff, IsQueued-iff, IsSuppressed-iff,
}

-- Everything that a run opens.
program : Unit {0}
unfolding classify_error evaluate_dead_letter evaluate_failure_class route_from_trust trust_stage
    dedupe_stage hours_stage budget_stage criticality_stage failure_stage dead_letter_stage
    fsm_stage schema_stage evaluate_policy_precedence
program = tt

-- A non-retriable failure within every budget, with a trust score of 0.75.
abbrev context : PrecedenceContext
context = record {
  policy_loaded = some true;
  schema_valid = some true;
  fsm_valid = some true;
  retry_count = some (pos 1);
  max_retries = some (pos 3);
  error_class = text "auth_failed";
  is_critical = some false;
  risk_budget_allows = some true;
  in_business_hours = some true;
  dedupe_hit = some false;
  signature_trust_score = some (finite (pos 3) 2);
  signature_samples = none;
  signature_min_samples = none;
}

routed : (evaluate_policy_precedence context).model_route ≡ some shallow
unfolding program
routed = refl

retried :
    (evaluate_policy_precedence (record context { error_class = text "timeout" })).result ≡ retry
unfolding program
retried = refl

-- A score that is not a number passes the range test, and gets the deepest route.
not_a_number :
    (evaluate_policy_precedence (record context { signature_trust_score = some nan })).model_route
    ≡ some deep
unfolding program
not_a_number = refl

-- A class that no table has is retried as unknown_error.
abbrev new_error : PrecedenceContext
new_error = record context { error_class = text "totally_new_error" }

unknown_retried :
    ((evaluate_policy_precedence new_error).result ≡ retry)
    × ((evaluate_policy_precedence new_error).error_class ≡ some "unknown_error")
unfolding program
unknown_retried = (refl, refl)

retry_iff_example :
    (((evaluate_policy_precedence new_error).result ≡ retry) ↔ IsRetried new_error)
    × (((evaluate_policy_precedence new_error).result ≢ retry)
        ⊎ ((c : ErrorClassification) × (classify_error (text "totally_new_error") ≡ ok c)
            × ((evaluate_policy_precedence new_error).error_class ≡ some c.normalized_error_class)
            × ((evaluate_policy_precedence new_error).model_route ≡ none)))
retry_iff_example = retry_iff new_error

IsQueued-iff_example :
    ((evaluate_policy_precedence context).result ≡ human_required_queued)
    ↔ (IsEscalated context × IsQueued context)
IsQueued-iff_example = IsQueued-iff context

IsSuppressed-iff_example :
    ((evaluate_policy_precedence context).result ≡ human_required_suppressed)
    ↔ (IsEscalated context × IsSuppressed context)
IsSuppressed-iff_example = IsSuppressed-iff context
