-- ===== src/PolicyPrecedence/Cases.antt =====
-- src/watcher/policy_precedence.py: the verdicts on the counters and on the failure class, by cases.
use orchestrator_state_machi.Prelude.{
  String, true, false, ◌≡◌, ◌≢◌, ◌⊎◌, inl, inr, refl, arith, Option, none, some, ok, raise,
  Bool-cases, ◌||◌, if◌then◌else◌,
}
use orchestrator_state_machi.Prelude.Int.{ℤ, pos, ltb_ℤ, leb_ℤ, ◌≤ℤ◌, ◌<ℤ◌}
use orchestrator_state_machi.ErrorClassifier.{
  Arg, absent, text, foreign, classify_text, ErrorClassification, classify_error,
}
use orchestrator_state_machi.PolicyPrecedence.{
  PrecedenceContext, evaluate_dead_letter, evaluate_failure_class, FailureClass, missing, ambiguous,
  retriable, non_retriable,
}

-- An incident of this class that is past the first five checks: everything is valid, the counters
-- are there and not negative, and the class is not retriable or the retries are used up.
pub record IsEscalated (x : PrecedenceContext) : Type 0 where
  pub policy : x.policy_loaded ≡ some true
  pub schema : x.schema_valid ≡ some true
  pub fsm : x.fsm_valid ≡ some true
  pub retries : ℤ
  pub cap : ℤ
  pub counted : x.retry_count ≡ some retries
  pub capped : x.max_retries ≡ some cap
  pub retries_nonneg : pos 0 ≤ℤ retries
  pub cap_nonneg : pos 0 ≤ℤ cap
  pub class : ErrorClassification
  pub present : x.error_class ≢ absent
  pub classified : classify_error x.error_class ≡ ok class
  pub no_retry : (cap ≤ℤ retries) ⊎ (class.retryable ≡ false)

-- A retriable failure that has retries left.
pub record IsRetried (x : PrecedenceContext) : Type 0 where
  pub policy : x.policy_loaded ≡ some true
  pub schema : x.schema_valid ≡ some true
  pub fsm : x.fsm_valid ≡ some true
  pub retries : ℤ
  pub cap : ℤ
  pub counted : x.retry_count ≡ some retries
  pub capped : x.max_retries ≡ some cap
  pub retries_nonneg : pos 0 ≤ℤ retries
  pub remaining : retries <ℤ cap
  pub class : ErrorClassification
  pub present : x.error_class ≢ absent
  pub classified : classify_error x.error_class ≡ ok class
  pub retryable : class.retryable ≡ true

-- The counters that the guard accepts.
pub record Counters (n m : Option ℤ) : Type 0 where
  pub retries : ℤ
  pub cap : ℤ
  pub counted : n ≡ some retries
  pub capped : m ≡ some cap
  pub retries_nonneg : pos 0 ≤ℤ retries
  pub cap_nonneg : pos 0 ≤ℤ cap
  pub verdict : evaluate_dead_letter n m ≡ ok (leb_ℤ cap retries)

pub dead_letter_cases :
    (n m : Option ℤ) → ((e : String) × (evaluate_dead_letter n m ≡ raise e)) ⊎ Counters n m
unfolding evaluate_dead_letter
dead_letter_cases none m = inl ("missing retry counters", refl)
dead_letter_cases (some n) none = inl ("missing retry counters", refl)
dead_letter_cases (some n) (some m) = elim (Bool-cases (ltb_ℤ n (pos 0) || ltb_ℤ m (pos 0))) [
  | inl bad ↦ inl ("invalid retry counters", rw bad)
  | inr good ↦ inr (record {
    retries = n;
    cap = m;
    counted = refl;
    capped = refl;
    retries_nonneg = ground arith;
    cap_nonneg = ground arith;
    verdict = rw good;
  })
]

-- The failure class of an error that can be classified.
pub record Classified (a : Arg) : Type 0 where
  pub class : ErrorClassification
  pub present : a ≢ absent
  pub classified : classify_error a ≡ ok class
  pub verdict : evaluate_failure_class a ≡ (
      if class.retryable
      then retriable class.normalized_error_class
      else non_retriable class.normalized_error_class)

-- A failure class at which the decision stops.
abbrev pub Unclear : FailureClass → Type 0
Unclear c = (c ≡ missing) ⊎ (c ≡ ambiguous)

pub failure_cases : (a : Arg) → Unclear (evaluate_failure_class a) ⊎ Classified a
unfolding evaluate_failure_class classify_error
failure_cases absent = inl (inl refl)
failure_cases (text s) =
    inr (record { class = classify_text s; present = λ h. cc; classified = refl; verdict = refl })
failure_cases (foreign b) = inl (inr refl)
