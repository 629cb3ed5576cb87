-- ===== src/DeadLetter/Agreement.antt =====
-- src/watcher/dead_letter.py and src/watcher/fsm.py: both decide alike when a failure is given up.
use orchestrator_state_machi.Prelude.{
  ℕ, ◌<◌, ◌≤◌, String, true, false, ◌||◌, ◌⊎◌, inl, inr, none, some, [], ◌∷◌, ◌++◌, ◌≡◌, ◌↔◌, refl,
  arith, Bool-cases, contains, contains-All, contains-append, ok,
}
use orchestrator_state_machi.Prelude.Int.{pos, ltb_ℤ}
use orchestrator_state_machi.Prelude.Text.{is_blank}
use orchestrator_state_machi.ErrorClassifier.{
  Arg, text, ErrorClassification, classify_error, retriable_error_classes,
  non_retriable_error_classes,
}
use orchestrator_state_machi.ErrorClassifier.Taxonomy.{
  is_class, classify_error-IsCanonical, classify_error_again,
}
use orchestrator_state_machi.Fsm.{
  FsmState, running, retry_wait, human_required, command_failed, state_eq, TransitionResult,
  execute_transition, on_command_failed, truthy,
}
use orchestrator_state_machi.DeadLetter.{
  decide, evaluate_dead_letter, check_result, failure_args, transition_of,
  build_dead_letter_transition,
}

class_not_blank : (s : String) → is_class s ≡ true → is_blank s ≡ false
class_not_blank s h =
    contains-All (λ t. is_blank t ≡ false) (retriable_error_classes ++ non_retriable_error_classes)
      s
      (
        refl,
        (refl, (refl, (refl, (refl, (refl, (refl, (refl, (refl, (refl, (refl, (refl, tt))))))))))),
      )
      (rw contains-append h)

-- A failure is given up: no retries are left, or its class is not retryable.
abbrev pub IsGivenUp : ErrorClassification → ℕ → ℕ → Type 0
IsGivenUp k n limit = (limit ≤ n) ⊎ (k.retryable ≡ false)

should_dead_letter_iff :
    (k : ErrorClassification) (n limit : ℕ)
    → ((decide k (pos n) (pos limit)).should_dead_letter ≡ true) ↔ IsGivenUp k n limit
unfolding decide
should_dead_letter_iff k n limit = ground arith

not_negative : (n : ℕ) → ltb_ℤ (pos n) (pos 0) ≡ false
not_negative n = ground arith

-- The transition of a failure that is given up.
abbrev given_up : FsmState → ErrorClassification → TransitionResult
given_up current k = record {
  from_state = current;
  to_state = human_required;
  add_labels = "needs:human" ∷ "orchestrator:dead" ∷ [];
  remove_labels = "needs:orchestrator" ∷ "orchestrator:running" ∷ [];
  reason = "retry_exhausted_or_non_retriable";
  error_class = text k.normalized_error_class;
  next_retry_at = none;
}

module _ (current : FsmState)
    (failing : (state_eq current running || state_eq current retry_wait) ≡ true) (a : Arg)
    {k : ErrorClassification} (c : classify_error a ≡ ok k) (n limit : ℕ) where
  evaluated : evaluate_dead_letter a (pos n) (pos limit) ≡ ok (decide k (pos n) (pos limit))
  unfolding evaluate_dead_letter
  evaluated = rw (not_negative n, not_negative limit, c)

  class_given : truthy (text k.normalized_error_class) ≡ true
  class_given =
      rw (class_not_blank k.normalized_error_class (classify_error-IsCanonical a c).listed)

  -- The machine's own answer to the class that the decision names.
  executed :
      IsGivenUp k n limit
      → execute_transition current command_failed
          (failure_args k.normalized_error_class (pos n) (pos limit))
        ≡ ok (given_up current k)
  unfolding execute_transition on_command_failed
  executed g = rw (failing, class_given, classify_error_again a c) (ground (arith, g))

  decide_class : (decide k (pos n) (pos limit)).normalized_error_class ≡ k.normalized_error_class
  unfolding decide
  decide_class = ground arith

  transition_given_up :
      IsGivenUp k n limit
      → build_dead_letter_transition current a (pos n) (pos limit) ≡ ok (some (given_up current k))
  unfolding build_dead_letter_transition transition_of check_result
  transition_given_up g =
      rw (evaluated, (should_dead_letter_iff k n limit).1 g, decide_class, executed g)

  transition_kept :
      (IsGivenUp k n limit → ⊥)
      → build_dead_letter_transition current a (pos n) (pos limit) ≡ ok none
  unfolding build_dead_letter_transition transition_of
  transition_kept g =
      rw (evaluated, kept (Bool-cases (decide k (pos n) (pos limit)).should_dead_letter))
    where
      kept :
          ((decide k (pos n) (pos limit)).should_dead_letter ≡ true)
            ⊎ ((decide k (pos n) (pos limit)).should_dead_letter ≡ false)
          → (decide k (pos n) (pos limit)).should_dead_letter ≡ false
      kept (inl e) = absurd (g ((should_dead_letter_iff k n limit).0 e))
      kept (inr e) = e

  -- For a handoff that is RUNNING or in RETRY_WAIT, an error that classifies and counts that are not
  -- negative, `build_dead_letter_transition` never raises: it gives no transition exactly if retries
  -- are left and the class is retryable, and else the transition to HUMAN_REQUIRED that
  -- `execute_transition` gives for the failure, which adds needs:human and orchestrator:dead.
  pub build_dead_letter_transition_outcome :
      (IsGivenUp k n limit
        × ((t : TransitionResult) × (build_dead_letter_transition current a (pos n) (pos limit)
              ≡ ok (some t))
            × (execute_transition current command_failed
                  (failure_args k.normalized_error_class (pos n) (pos limit))
                ≡ ok t)
            × (t.to_state ≡ human_required)
            × (contains t.add_labels "needs:human" ≡ true)
            × (contains t.add_labels "orchestrator:dead" ≡ true)))
      ⊎ ((n < limit)
          × (k.retryable ≡ true)
          × (build_dead_letter_transition current a (pos n) (pos limit) ≡ ok none))
  build_dead_letter_transition_outcome = elim (cases k n limit) [
    | inl g ↦ inl (g, (given_up current k, transition_given_up g, executed g, refl, refl, refl))
    | inr u ↦ inr (u.0, u.1, transition_kept (λ g. not_both k n limit g u))
  ]
    where
      cases :
          (k : ErrorClassification) (n limit : ℕ)
          → IsGivenUp k n limit ⊎ ((n < limit) × (k.retryable ≡ true))
      cases k n limit = ground arith

      not_both :
          (k : ErrorClassification) (n limit : ℕ)
          → IsGivenUp k n limit
          → ((n < limit) × (k.retryable ≡ true))
          → ⊥
      not_both k n limit g u = ground arith
