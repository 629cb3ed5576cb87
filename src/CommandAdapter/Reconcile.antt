-- ===== src/CommandAdapter/Reconcile.antt =====
-- src/watcher/command_adapter.py: what the reconciliation of an envelope comes to.
use orchestrator_state_machi.Prelude.{◌+◌, ◌==◌, sym, ◌∙◌, arith}
use orchestrator_state_machi.Prelude.Int.{ℤ, pos, negsuc, pos_part, neg_part}
use orchestrator_state_machi.Prelude.{
  if◌then◌else◌, not, ◌||◌, ◌&&◌, Bool-cases, inl, inr, Bool, true, false, Option, none, some, ◌≡◌,
  refl, ok, String,
}
use orchestrator_state_machi.ErrorClassifier.{ErrorClassification, classify_error}
use orchestrator_state_machi.CommandAdapter.{
  CommandStatus, success, failure, partial, result_success, retry, human_required,
  success_with_exit_mismatch, CommandEnvelope, CommandReconciliation, to_arg, is_zero,
  reconcile_command_envelope, reconcile_success, reconcile_partial, reconcile_failure,
  failure_reconciliation, reconciled,
}

-- The command reports success, with exit code 0.
abbrev pub is_clean : CommandEnvelope → Bool
is_clean e = elim e.status [
  | success ↦ (pos_part e.exit_code + neg_part e.exit_code) == 0
  | _ ↦ false
]

is_zero-parts : (n : ℤ) → is_zero n ≡ ((pos_part n + neg_part n) == 0)
is_zero-parts (pos n) = ground arith
is_zero-parts (negsuc n) = ground arith

abbrev pub is_failure : CommandStatus → Bool
is_failure failure = true
is_failure _ = false

classification :
    (c : Option String) → (k : ErrorClassification) × (classify_error (to_arg c) ≡ ok k)
unfolding classify_error
classification none = (_, refl)
classification (some s) = (_, refl)

-- The table of the reconciliations, once the error is classified as `k`.
module _ (e : CommandEnvelope) (observed : Bool) (k : ErrorClassification)
    (c : classify_error (to_arg e.error_class) ≡ ok k) where
  abbrev Fits : CommandReconciliation → Type 0
  Fits r =
      (r.watcher_result ≡ (
        if is_clean e
        then result_success
        else if observed
        then success_with_exit_mismatch
        else if k.retryable
        then retry
        else human_required))
      × (r.normalized_error_class
          ≡ (if is_clean e || observed then none else some k.normalized_error_class))
      × (r.requires_reconciliation ≡ not (is_clean e || (is_failure e.status && not observed)))

  abbrev Outcome : Type 0
  Outcome = (r : CommandReconciliation) × (reconcile_command_envelope e observed ≡ ok r) × Fits r

  abbrev mismatch : String → CommandReconciliation
  mismatch reason = record {
    watcher_result = success_with_exit_mismatch;
    normalized_error_class = none;
    requires_reconciliation = true;
    reason = reason;
  }

  failed :
      (reason : String) (flag : Bool)
      → failure_reconciliation e.error_class reason flag
        ≡ ok (reconciled e.error_class reason flag k)
  unfolding failure_reconciliation
  failed reason flag = rw c

  outcome_success : e.status ≡ success → Outcome
  unfolding reconcile_command_envelope reconcile_success
  outcome_success q = elim (Bool-cases (is_zero e.exit_code)) [
    | inl z ↦
        let y = sym (is_zero-parts e.exit_code) ∙ z in
        (
          record {
            watcher_result = result_success;
            normalized_error_class = none;
            requires_reconciliation = false;
            reason = "command_reported_success";
          },
          rw (q, z),
          (rw (q, y), rw (q, y), rw (q, y)),
        )
    | inr z ↦
        let y = sym (is_zero-parts e.exit_code) ∙ z in
        elim (Bool-cases observed) [
          | inl o ↦ (
            mismatch "success_observed_despite_exit_mismatch",
            rw (q, z, o),
            (rw (q, y, o), rw (q, y, o), rw (q, y)),
          )
          | inr o ↦ (
            reconciled e.error_class "success_status_with_nonzero_exit_treated_as_failure" true k,
            rw (q, z, o, failed),
            (rw (q, y, o), rw (q, y, o), rw (q, y)),
          )
        ]
  ]

  outcome_partial : e.status ≡ partial → Outcome
  unfolding reconcile_command_envelope reconcile_partial
  outcome_partial q = elim (Bool-cases observed) [
    | inl o ↦ (mismatch "partial_reconciled_to_success", rw (q, o), (rw (q, o), rw (q, o), rw q))
    | inr o ↦ (
      reconciled e.error_class "partial_requires_failure_path_without_success_reconciliation" true
          k,
      rw (q, o, failed),
      (rw (q, o), rw (q, o), rw q),
    )
  ]

  outcome_failure : e.status ≡ failure → Outcome
  unfolding reconcile_command_envelope reconcile_failure
  outcome_failure q = elim (Bool-cases observed) [
    | inl o ↦
        (mismatch "failure_reconciled_to_success", rw (q, o), (rw (q, o), rw (q, o), rw (q, o)))
    | inr o ↦ (
      reconciled e.error_class "command_reported_failure" false k,
      rw (q, o, failed),
      (rw (q, o), rw (q, o), rw (q, o)),
    )
  ]

  outcome_of : (s : CommandStatus) → e.status ≡ s → Outcome
  outcome_of success q = outcome_success q
  outcome_of partial q = outcome_partial q
  outcome_of failure q = outcome_failure q

-- Every envelope is reconciled, with no error, and to this: plain success exactly for a command that
-- reports success with exit code 0; otherwise success with a mismatch if the success was observed;
-- otherwise a retry or a human, by whether the class of its error is retryable, with that class.
-- Reconciliation is asked for in all cases but plain success and a failure that is no observed success.
pub reconcile_outcome :
    (e : CommandEnvelope) (observed : Bool)
    → (k : ErrorClassification) × (r : CommandReconciliation) × (classify_error
          (to_arg e.error_class)
        ≡ ok k)
      × (reconcile_command_envelope e observed ≡ ok r)
      × (r.watcher_result ≡ (
          if is_clean e
          then result_success
          else if observed
          then success_with_exit_mismatch
          else if k.retryable
          then retry
          else human_required))
      × (r.normalized_error_class
          ≡ (if is_clean e || observed then none else some k.normalized_error_class))
      × (r.requires_reconciliation ≡ not (is_clean e || (is_failure e.status && not observed)))
reconcile_outcome e observed =
    let (k, c) = classification e.error_class in
    let (r, found, fits) = outcome_of e observed k c e.status refl in
    (k, r, c, found, fits.0, fits.1, fits.2)
