-- ===== src/PolicyPrecedence/Outcomes.antt =====
-- src/watcher/policy_precedence.py: which inputs lead to which result.
use orchestrator_state_machi.Prelude.{
  String, true, false, ◌≡◌, ◌≢◌, ◌↔◌, ◌⊎◌, inl, inr, arith, some, none, List, sym, ap, ◌∙◌, ◌∙◌,
  sym, ap,
}
use orchestrator_state_machi.ErrorClassifier.{ErrorClassification, classify_error}
use orchestrator_state_machi.Prelude.{ok}
use orchestrator_state_machi.PolicyPrecedence.{
  PrecedenceContext, DecisionStep, retry, human_required_queued, human_required_suppressed,
  trust_stage, dedupe_stage, hours_stage, budget_stage, criticality_stage,
  evaluate_policy_precedence,
}
use orchestrator_state_machi.PolicyPrecedence.Cases.{IsEscalated, IsRetried}
use orchestrator_state_machi.PolicyPrecedence.Early.{
  evaluate_early, escalated_reaches, retried_decision,
}

-- What puts an escalated incident into the queue.
abbrev pub IsQueued : PrecedenceContext → Type 0
IsQueued x =
    (x.is_critical ≡ some false)
    × ((x.risk_budget_allows ≡ some false)
        ⊎ ((x.risk_budget_allows ≡ some true) × (x.in_business_hours ≡ some false)))

-- What suppresses it.
abbrev pub IsSuppressed : PrecedenceContext → Type 0
IsSuppressed x =
    (x.is_critical ≡ some false)
    × (x.risk_budget_allows ≡ some true)
    × (x.in_business_hours ≡ some true)
    × (x.dedupe_hit ≡ some true)

module _ (x : PrecedenceContext) (s : String) (p : List DecisionStep) where
  IsQueued-late : ((criticality_stage x s p).result ≡ human_required_queued) ↔ IsQueued x
  unfolding criticality_stage budget_stage hours_stage dedupe_stage trust_stage
  IsQueued-late = (λ h. ground arith, λ h. ground arith)

  IsSuppressed-late :
      ((criticality_stage x s p).result ≡ human_required_suppressed) ↔ IsSuppressed x
  unfolding criticality_stage budget_stage hours_stage dedupe_stage trust_stage
  IsSuppressed-late = (λ h. ground arith, λ h. ground arith)

  retry_late : (criticality_stage x s p).result ≢ retry
  unfolding criticality_stage budget_stage hours_stage dedupe_stage trust_stage
  retry_late = λ h. ground arith

-- The decision is RETRY exactly for a context whose policy, schema and state are valid, whose retry
-- counters are given, not negative and not used up, and whose error class is given and retriable for
-- the classifier, which takes a text that it does not know for the retriable class unknown_error. A
-- decision to retry names the classifier's class and has no route to a model.
pub retry_iff :
    (x : PrecedenceContext)
    → (((evaluate_policy_precedence x).result ≡ retry) ↔ IsRetried x)
      × (((evaluate_policy_precedence x).result ≢ retry)
          ⊎ ((c : ErrorClassification) × (classify_error x.error_class ≡ ok c)
              × ((evaluate_policy_precedence x).error_class ≡ some c.normalized_error_class)
              × ((evaluate_policy_precedence x).model_route ≡ none)))
retry_iff x =
    let back = λ (e : IsRetried x). ap (λ y. y.result) ((retried_decision x e).1) in
    elim (evaluate_early x) [
      | inl (e, s, p, d) ↦
          let other : (evaluate_policy_precedence x).result ≢ retry =
            λ h. retry_late x s p (sym (ap (λ y. y.result) d) ∙ h) in
          ((λ h. absurd (other h), back), inl other)
      | inr (inl (r, _)) ↦
          let (p, d) = retried_decision x r in
          (
            (λ h. r, back),
            inr (r.class, r.classified, ap (λ y. y.error_class) d, ap (λ y. y.model_route) d),
          )
      | inr (inr k) ↦
          let other : (evaluate_policy_precedence x).result ≢ retry = λ h. cc in
          ((λ h. absurd (other h), back), inl other)
    ]

-- The decision is to queue exactly for an escalated incident that is not critical and is either over
-- the risk budget, or within it and outside business hours.
pub IsQueued-iff :
    (x : PrecedenceContext)
    → ((evaluate_policy_precedence x).result ≡ human_required_queued) ↔ (IsEscalated x × IsQueued x)
IsQueued-iff x = (
  λ h. elim (evaluate_early x) [
    | inl (e, s, p, d) ↦ (e, (IsQueued-late x s p).0 (sym (ap (λ y. y.result) d) ∙ h))
    | inr (inl (_, k)) ↦ cc
    | inr (inr k) ↦ cc
  ],
  λ (e, k).
      let (s, p, d) = escalated_reaches x e in ap (λ y. y.result) d ∙ (IsQueued-late x s p).1 k,
)

-- The decision is to suppress exactly for an escalated incident that is not critical, within the risk
-- budget, inside business hours and a duplicate.
pub IsSuppressed-iff :
    (x : PrecedenceContext)
    → ((evaluate_policy_precedence x).result ≡ human_required_suppressed)
      ↔ (IsEscalated x × IsSuppressed x)
IsSuppressed-iff x = (
  λ h. elim (evaluate_early x) [
    | inl (e, s, p, d) ↦ (e, (IsSuppressed-late x s p).0 (sym (ap (λ y. y.result) d) ∙ h))
    | inr (inl (_, k)) ↦ cc
    | inr (inr k) ↦ cc
  ],
  λ (e, k).
      let (s, p, d) = escalated_reaches x e in ap (λ y. y.result) d ∙ (IsSuppressed-late x s p).1 k,
)
