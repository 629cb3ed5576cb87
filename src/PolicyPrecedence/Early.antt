-- ===== src/PolicyPrecedence/Early.antt =====
-- src/watcher/policy_precedence.py: the first five checks, up to the failure class.
use orchestrator_state_machi.Prelude.{
  String, Bool, true, false, ◌≡◌, ◌≢◌, ◌⊎◌, inl, inr, refl, arith, Option, none, some, List, [],
  ◌∷◌, ok, Bool-cases, if◌then◌else◌, ◌∙◌, sym, ap₂, append, not, subst,
}
use orchestrator_state_machi.Prelude.Int.{ℤ, pos, leb_ℤ, ◌≤ℤ◌}
use orchestrator_state_machi.ErrorClassifier.{
  Arg, absent, text, foreign, ErrorClassification, classify_error,
}
use orchestrator_state_machi.PolicyPrecedence.{
  PrecedenceContext, at_step, push, PrecedenceDecision, DecisionStep, decide, retry, human_required,
  evaluate_dead_letter, evaluate_failure_class, retriable, non_retriable, criticality_stage,
  failure_stage, dead_letter_stage, fsm_stage, schema_stage, evaluate_policy_precedence,
}
use orchestrator_state_machi.PolicyPrecedence.Cases.{
  IsEscalated, IsRetried, Counters, dead_letter_cases, Classified, failure_cases,
}

-- Where a decision stands after the first five checks.
abbrev pub Early : PrecedenceContext → PrecedenceDecision → Type 0
Early x d =
    (IsEscalated x × (s : String) × (p : List DecisionStep) × (d ≡ criticality_stage x s p))
    ⊎ ((IsRetried x × (d.result ≡ retry)) ⊎ (d.result ≡ human_required))

abbrev stops :
    {x : PrecedenceContext} {d : PrecedenceDecision} → d.result ≡ human_required → Early x d
stops h = inr (inr h)

module _ (x : PrecedenceContext) (policy : x.policy_loaded ≡ some true)
    (schema : x.schema_valid ≡ some true) (fsm : x.fsm_valid ≡ some true) where
  module _ (n : Counters x.retry_count x.max_retries) (c : Classified x.error_class) where
    escalated : (leb_ℤ n.cap n.retries ≡ true) ⊎ (c.class.retryable ≡ false) → IsEscalated x
    escalated why = record {
      policy = policy;
      schema = schema;
      fsm = fsm;
      retries = n.retries;
      cap = n.cap;
      counted = n.counted;
      capped = n.capped;
      retries_nonneg = n.retries_nonneg;
      cap_nonneg = n.cap_nonneg;
      class = c.class;
      present = c.present;
      classified = c.classified;
      no_retry = elim why [ inl e ↦ inl (ground arith) | inr e ↦ inr e ];
    }

    retried : leb_ℤ n.cap n.retries ≡ false → c.class.retryable ≡ true → IsRetried x
    retried left r = record {
      policy = policy;
      schema = schema;
      fsm = fsm;
      retries = n.retries;
      cap = n.cap;
      counted = n.counted;
      capped = n.capped;
      retries_nonneg = n.retries_nonneg;
      remaining = ground arith;
      class = c.class;
      present = c.present;
      classified = c.classified;
      retryable = r;
    }

    classified_early : (p : List DecisionStep) → Early x (failure_stage x (leb_ℤ n.cap n.retries) p)
    unfolding failure_stage
    classified_early p = elim (Bool-cases c.class.retryable) [
      | inr final ↦ rw (c.verdict, final, failure_stage) ((inl (escalated (inr final), _, _, refl)))
      | inl r ↦ elim (Bool-cases (leb_ℤ n.cap n.retries)) [
        | inl dead ↦
            rw (c.verdict, r, dead, failure_stage) ((inl (escalated (inl dead), _, _, refl)))
        | inr left ↦ rw (c.verdict, r, left, failure_stage) ((inr (inl (retried left r, refl))))
      ]
    ]

  failure_early :
      (n : Counters x.retry_count x.max_retries) (p : List DecisionStep)
      → Early x (failure_stage x (leb_ℤ n.cap n.retries) p)
  unfolding failure_stage
  failure_early n p = elim (failure_cases x.error_class) [
    | inl (inl e) ↦ rw (e, failure_stage) (stops refl)
    | inl (inr e) ↦ rw (e, failure_stage) (stops refl)
    | inr c ↦ classified_early n c p
  ]

  dead_letter_early : (p : List DecisionStep) → Early x (dead_letter_stage x p)
  unfolding dead_letter_stage
  dead_letter_early p = elim (dead_letter_cases x.retry_count x.max_retries) [
    | inl (e, bad) ↦ rw (bad, dead_letter_stage) (stops refl)
    | inr n ↦ rw (n.verdict, dead_letter_stage) (failure_early n _)
  ]

-- What a flag that is given and true, or anything else, leads to.
flag_cases : (b : Option Bool) → (b ≡ some true) ⊎ ((b ≡ some false) ⊎ (b ≡ none))
flag_cases none = inr (inr refl)
flag_cases (some true) = inl refl
flag_cases (some false) = inr (inl refl)

-- The path of the three flags.
abbrev passed_path : List DecisionStep
passed_path =
    at_step "policy_load_parse" "pass" "policy loaded"
    ∷ at_step "schema_validity" "pass" "schema valid"
    ∷ at_step "fsm_invariants" "pass" "fsm valid"
    ∷ []

module _ (x : PrecedenceContext) where
  passed :
      x.policy_loaded ≡ some true
      → x.schema_valid ≡ some true
      → x.fsm_valid ≡ some true
      → evaluate_policy_precedence x ≡ dead_letter_stage x passed_path
  unfolding evaluate_policy_precedence schema_stage fsm_stage
  passed policy schema fsm =
      simp (policy, schema, fsm, evaluate_policy_precedence, schema_stage, fsm_stage)

  flags_stop :
      (evaluate_policy_precedence x).result ≡ human_required
      ⊎ ((x.policy_loaded ≡ some true) × (x.schema_valid ≡ some true) × (x.fsm_valid ≡ some true))
  unfolding evaluate_policy_precedence schema_stage fsm_stage
  flags_stop = ground arith

  -- The five checks leave an incident escalated to the later stages, or retried, or end with the
  -- result HUMAN_REQUIRED.
  pub evaluate_early : Early x (evaluate_policy_precedence x)
  evaluate_early = elim flags_stop [
    | inl h ↦ stops h
    | inr (policy, schema, fsm) ↦
        subst (Early x) (sym (passed policy schema fsm))
          (dead_letter_early x policy schema fsm passed_path)
  ]

counters_verdict :
    (n m : ℤ) → pos 0 ≤ℤ n → pos 0 ≤ℤ m → evaluate_dead_letter (some n) (some m) ≡ ok (leb_ℤ m n)
unfolding evaluate_dead_letter
counters_verdict n m h k = ground arith

class_verdict :
    (a : Arg) (c : ErrorClassification)
    → a ≢ absent
    → classify_error a ≡ ok c
    → evaluate_failure_class a ≡ (
        if c.retryable
        then retriable c.normalized_error_class
        else non_retriable c.normalized_error_class)
unfolding evaluate_failure_class
class_verdict absent c h e = absurd (h refl)
class_verdict (text s) c h e = rw (e, evaluate_failure_class)
class_verdict (foreign b) c h e = rw (e, evaluate_failure_class)

-- The paths that the guard and the failure class leave behind.
abbrev guard_path : Bool → List DecisionStep → List DecisionStep
guard_path dead p =
    push p "dead_letter_guard" (if not dead then "pass" else "triggered")
      (if dead then "retry cap reached" else "retry budget remaining")

abbrev final_path : String → List DecisionStep → List DecisionStep
final_path s p =
    push p "failure_class_retryable" "non_retriable"
      (append "error class requires human escalation (" (append s ")"))

abbrev exhausted_path : String → List DecisionStep → List DecisionStep
exhausted_path s p =
    push
      (push p "failure_class_retryable" "retriable"
        (append "error class retriable (" (append s ")")))
      "failure_class_retryable" "escalate" "retry exhausted"

dead_letter_reached :
    (x : PrecedenceContext) (p : List DecisionStep) {n m : ℤ}
    → x.retry_count ≡ some n
    → x.max_retries ≡ some m
    → pos 0 ≤ℤ n
    → pos 0 ≤ℤ m
    → (q : List DecisionStep) × (dead_letter_stage x p ≡ failure_stage x (leb_ℤ m n) q)
unfolding dead_letter_stage
dead_letter_reached x p {n} {m} e f h k =
    let v : evaluate_dead_letter x.retry_count x.max_retries ≡ ok (leb_ℤ m n) =
      ap₂ evaluate_dead_letter e f ∙ counters_verdict n m h k in
    (guard_path (leb_ℤ m n) p, rw (v, dead_letter_stage))

-- An escalated incident reaches the later stages.
pub escalated_reaches :
    (x : PrecedenceContext)
    → IsEscalated x
    → (s : String) × (p : List DecisionStep) × (evaluate_policy_precedence x
        ≡ criticality_stage x s p)
unfolding failure_stage
escalated_reaches x e =
    let (q, f) =
      dead_letter_reached x passed_path e.counted e.capped e.retries_nonneg e.cap_nonneg in
    let v = class_verdict x.error_class e.class e.present e.classified in
    elim (Bool-cases e.class.retryable) [
      | inr final ↦ (
        e.class.normalized_error_class,
        final_path e.class.normalized_error_class q,
        passed x e.policy e.schema e.fsm ∙ f ∙ rw (v, final, failure_stage),
      )
      | inl r ↦
          let dead : leb_ℤ e.cap e.retries ≡ true = ground (arith, e.no_retry) in
          (
            e.class.normalized_error_class,
            exhausted_path e.class.normalized_error_class q,
            passed x e.policy e.schema e.fsm ∙ f ∙ rw (v, r, dead, failure_stage),
          )
    ]

-- A retriable failure with retries left is retried, under its normalized class and with no route.
pub retried_decision :
    (x : PrecedenceContext) (e : IsRetried x)
    → (p : List DecisionStep) × (evaluate_policy_precedence x
        ≡ decide retry e.class.normalized_error_class none p)
unfolding failure_stage
retried_decision x e =
    let (q, f) =
      dead_letter_reached x passed_path e.counted e.capped e.retries_nonneg
        (ground (arith, e.remaining, e.retries_nonneg)) in
    let v = class_verdict x.error_class e.class e.present e.classified in
    let left : leb_ℤ e.cap e.retries ≡ false = ground (arith, e.remaining) in
    (
      push q "failure_class_retryable" "retriable"
          (append "error class retriable (" (append e.class.normalized_error_class ")")),
      passed x e.policy e.schema e.fsm ∙ f ∙ rw (v, e.retryable, left, failure_stage),
    )
