-- ===== src/PolicyPrecedence.antt =====
-- src/watcher/policy_precedence.py: the ten checks of an escalation, in their fixed order, each of
-- which can end the decision; `evaluate_policy_precedence` gives the result with the path of steps
-- that led to it. The stages below are the consecutive parts of that one function.
pub mod Cases
pub mod Early
pub mod Outcomes
mod Tests
use orchestrator_state_machi.Prelude.{
  ℕ, String, append, Bool, true, false, ◌&&◌, ◌||◌, not, Option, none, some, List, [], ◌∷◌, ◌++◌,
  if◌then◌else◌, Result, ok, raise,
}
use orchestrator_state_machi.Prelude.Int.{ℤ, pos, ltb_ℤ, leb_ℤ}
use orchestrator_state_machi.Prelude.Json.{Float, lt_fraction, gt_fraction, ge_fraction}
use orchestrator_state_machi.ErrorClassifier.{Arg, absent, text, foreign, classify_error}

-- PRECEDENCE_ORDER
abbrev pub precedence_order : List String
precedence_order =
    "policy_load_parse" ∷ "schema_validity" ∷ "fsm_invariants" ∷ "dead_letter_guard"
    ∷ "failure_class_retryable" ∷ "criticality_bypass" ∷ "risk_budget" ∷ "time_window_routing"
    ∷ "dedupe_suppression" ∷ "signature_trust_routing" ∷ []

pub data DecisionResult : Type 0 where
  retry human_required human_required_queued human_required_suppressed : DecisionResult

pub data ModelRoute : Type 0 where
  shallow normal deep : ModelRoute

-- `route.value`
abbrev pub route_value : ModelRoute → String
route_value shallow = "shallow"
route_value normal = "normal"
route_value deep = "deep"

pub record PrecedenceContext : Type 0 where
  pub policy_loaded : Option Bool
  pub schema_valid : Option Bool
  pub fsm_valid : Option Bool
  pub retry_count : Option ℤ
  pub max_retries : Option ℤ
  pub error_class : Arg
  pub is_critical : Option Bool
  pub risk_budget_allows : Option Bool
  pub in_business_hours : Option Bool
  pub dedupe_hit : Option Bool
  pub signature_trust_score : Option Float
  pub signature_samples : Option ℤ
  pub signature_min_samples : Option ℤ

pub record DecisionStep : Type 0 where
  pub step : String
  pub outcome : String
  pub detail : String

pub record PrecedenceDecision : Type 0 where
  pub result : DecisionResult
  pub error_class : Option String
  pub model_route : Option ModelRoute
  pub decision_path : List DecisionStep

abbrev pub at_step : String → String → String → DecisionStep
at_step step outcome detail = record { step = step; outcome = outcome; detail = detail }

-- `path.append(...)`
abbrev pub push : List DecisionStep → String → String → String → List DecisionStep
push path step outcome detail = path ++ (at_step step outcome detail ∷ [])

abbrev pub decide :
    DecisionResult → String → Option ModelRoute → List DecisionStep → PrecedenceDecision
decide result error_class route path = record {
  result = result;
  error_class = some error_class;
  model_route = route;
  decision_path = path;
}

-- `_policy_ambiguous`
unfoldable pub policy_ambiguous : List DecisionStep → PrecedenceDecision
policy_ambiguous path = decide human_required "policy_ambiguous" none path

-- `_fail_closed`
unfoldable pub fail_closed : List DecisionStep → String → String → PrecedenceDecision
unfolding policy_ambiguous
fail_closed path step detail = policy_ambiguous (push path step "ambiguous" detail)

-- `_evaluate_dead_letter`: whether the retries are used up, or what is wrong with the counters.
unfoldable pub evaluate_dead_letter : Option ℤ → Option ℤ → Result String Bool
evaluate_dead_letter none max_retries = raise "missing retry counters"
evaluate_dead_letter (some retry_count) none = raise "missing retry counters"
evaluate_dead_letter (some retry_count) (some max_retries) =
    if ltb_ℤ retry_count (pos 0) || ltb_ℤ max_retries (pos 0)
    then raise "invalid retry counters"
    else ok (leb_ℤ max_retries retry_count)

-- The four outcomes of `_evaluate_failure_class`, with the normalized class.
pub data FailureClass : Type 0 where
  missing ambiguous : FailureClass
  retriable non_retriable : String → FailureClass

-- `_evaluate_failure_class`
unfoldable pub evaluate_failure_class : Arg → FailureClass
evaluate_failure_class absent = missing
evaluate_failure_class a = elim (classify_error a) [
  | raise e ↦ ambiguous
  | ok c ↦
      if c.retryable
      then retriable c.normalized_error_class
      else non_retriable c.normalized_error_class
]

-- `sample_count is not None and min_samples is not None and sample_count < min_samples`
abbrev pub too_few : Option ℤ → Option ℤ → Bool
too_few (some n) (some m) = ltb_ℤ n m
too_few (some n) none = false
too_few none m = false

-- `_route_from_trust`; 0.45 is the float 8106479329266893 / 2 ^ 54.
unfoldable pub route_from_trust : Option Float → Option ℤ → Option ℤ → Result String ModelRoute
route_from_trust none sample_count min_samples = raise "missing signature trust score"
route_from_trust (some score) sample_count min_samples =
    if lt_fraction score 0 0 || gt_fraction score 1 0
    then raise "invalid signature trust score"
    else if too_few sample_count min_samples
    then ok normal
    else if ge_fraction score 3 2
    then ok shallow
    else if ge_fraction score 8_106_479_329_266_893 54
    then ok normal
    else ok deep

-- The last stage: signature_trust_routing.
unfoldable pub trust_stage : PrecedenceContext → String → List DecisionStep → PrecedenceDecision
unfolding fail_closed
trust_stage context class path =
    elim (route_from_trust context.signature_trust_score context.signature_samples
      context.signature_min_samples) [
        | raise route_error ↦ fail_closed path "signature_trust_routing" route_error
        | ok route ↦
            decide human_required class (some route)
              (push path "signature_trust_routing" "route" (append "selected " (route_value route)))
      ]

-- dedupe_suppression
unfoldable pub dedupe_stage : PrecedenceContext → String → List DecisionStep → PrecedenceDecision
unfolding fail_closed
dedupe_stage context class path = elim (context.dedupe_hit) [
  | none ↦ fail_closed path "dedupe_suppression" "missing dedupe evaluation"
  | some hit ↦
      if hit
      then decide human_required_suppressed class none
          (push path "dedupe_suppression" "suppress" "duplicate within dedupe window")
      else trust_stage context class (push path "dedupe_suppression" "pass" "no dedupe suppression")
]

-- time_window_routing
unfoldable pub hours_stage : PrecedenceContext → String → List DecisionStep → PrecedenceDecision
unfolding fail_closed
hours_stage context class path = elim (context.in_business_hours) [
  | none ↦ fail_closed path "time_window_routing" "missing business-hours evaluation"
  | some active ↦
      if not active
      then decide human_required_queued class none
          (push path "time_window_routing" "queue" "off-hours non-critical")
      else dedupe_stage context class
          (push path "time_window_routing" "pass" "business hours active")
]

-- risk_budget
unfoldable pub budget_stage : PrecedenceContext → String → List DecisionStep → PrecedenceDecision
unfolding fail_closed
budget_stage context class path = elim (context.risk_budget_allows) [
  | none ↦ fail_closed path "risk_budget" "missing risk_budget decision"
  | some allows ↦
      if not allows
      then decide human_required_queued class none
          (push path "risk_budget" "defer" "over noncritical budget")
      else hours_stage context class (push path "risk_budget" "pass" "within budget")
]

-- criticality_bypass
unfoldable pub criticality_stage :
    PrecedenceContext → String → List DecisionStep → PrecedenceDecision
unfolding fail_closed
criticality_stage context class path = elim (context.is_critical) [
  | none ↦ fail_closed path "criticality_bypass" "missing criticality input"
  | some critical ↦
      if critical
      then decide human_required class none
          (push path "criticality_bypass" "bypass" "critical incident immediate")
      else budget_stage context class
          (push path "criticality_bypass" "pass" "non-critical incident")
]

-- failure_class_retryable; the normalized class is never None in the two branches that read it.
unfoldable pub failure_stage : PrecedenceContext → Bool → List DecisionStep → PrecedenceDecision
unfolding fail_closed
failure_stage context dead_letter path = elim (evaluate_failure_class context.error_class) [
  | ambiguous ↦ fail_closed path "failure_class_retryable" "invalid error_class value"
  | missing ↦ fail_closed path "failure_class_retryable" "missing error_class"
  | retriable class ↦
      let path' =
        push path "failure_class_retryable" "retriable"
          (append "error class retriable (" (append class ")")) in
      if dead_letter
      then criticality_stage context class
          (push path' "failure_class_retryable" "escalate" "retry exhausted")
      else decide retry class none path'
  | non_retriable class ↦ criticality_stage context class (
      push path "failure_class_retryable" "non_retriable"
        (append "error class requires human escalation (" (append class ")")))
]

-- dead_letter_guard
unfoldable pub dead_letter_stage : PrecedenceContext → List DecisionStep → PrecedenceDecision
unfolding fail_closed
dead_letter_stage context path =
    elim (evaluate_dead_letter context.retry_count context.max_retries) [
      | raise e ↦ fail_closed path "dead_letter_guard" e
      | ok dead_letter ↦ failure_stage context dead_letter (
          push path "dead_letter_guard" (if not dead_letter then "pass" else "triggered")
            (if dead_letter then "retry cap reached" else "retry budget remaining"))
    ]

-- fsm_invariants
unfoldable pub fsm_stage : PrecedenceContext → List DecisionStep → PrecedenceDecision
unfolding fail_closed
fsm_stage context path = elim (context.fsm_valid) [
  | none ↦ fail_closed path "fsm_invariants" "missing fsm_valid input"
  | some valid ↦
      if not valid
      then policy_ambiguous (push path "fsm_invariants" "fail" "fsm invariant violation")
      else dead_letter_stage context (push path "fsm_invariants" "pass" "fsm valid")
]

-- schema_validity
unfoldable pub schema_stage : PrecedenceContext → List DecisionStep → PrecedenceDecision
unfolding fail_closed
schema_stage context path = elim (context.schema_valid) [
  | none ↦ fail_closed path "schema_validity" "missing schema_valid input"
  | some valid ↦
      if not valid
      then decide human_required "schema_invalid" none
          (push path "schema_validity" "fail" "handoff/state schema invalid")
      else fsm_stage context (push path "schema_validity" "pass" "schema valid")
]

-- `evaluate_policy_precedence`, from its first stage, policy_load_parse.
unfoldable pub evaluate_policy_precedence : PrecedenceContext → PrecedenceDecision
unfolding fail_closed
evaluate_policy_precedence context = elim (context.policy_loaded) [
  | none ↦ fail_closed [] "policy_load_parse" "missing policy_loaded input"
  | some loaded ↦
      if not loaded
      then decide human_required "policy_invalid" none
          (push [] "policy_load_parse" "fail" "policy invalid")
      else schema_stage context (push [] "policy_load_parse" "pass" "policy loaded")
]
