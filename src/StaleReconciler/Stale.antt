-- ===== src/StaleReconciler/Stale.antt =====
-- src/watcher/stale_reconciler.py: a stale handoff leaves RUNNING in every case.
use orchestrator_state_machi.Prelude.{
  ℕ, ◌+◌, ◌*◌, ◌<◌, ◌≤◌, true, false, none, some, ◌≡◌, ◌⊎◌, inl, inr, refl, arith, Bool-cases, leb,
  ok, [], ◌∷◌,
}
use orchestrator_state_machi.Prelude.Int.{ℤ, ◌<ℤ◌, ◌≤ℤ◌, leb_ℤ}
use orchestrator_state_machi.ErrorClassifier.{text, ErrorClassification, classify_error}
use orchestrator_state_machi.Fsm.{
  running, retry_wait, human_required, command_failed, TransitionResult, given, execute_transition,
  on_command_failed, on_classified_failure,
}
use orchestrator_state_machi.StateStore.{StateRecord}
use orchestrator_state_machi.Time.{Calendar, rfc3339}
use orchestrator_state_machi.Time.RoundTrip.{from_rfc3339-rfc3339, rfc3339-eq, not_blank-append}
use orchestrator_state_machi.StaleReconciler.{
  found_time, stale_since, is_stale_running, stale_args, fail_stale, reconcile_stale_running,
}

module _ (cal : Calendar) (retry_count max_retries : ℤ) where
  stale_class :
      (k : ErrorClassification) × (classify_error (text "stale_run") ≡ ok k) × (k.retryable ≡ true)
  unfolding classify_error
  stale_class = (_, refl, refl)

  given-rfc3339 : (t : ℕ) → given (some (rfc3339 cal t)) ≡ true
  given-rfc3339 t = rw (rfc3339-eq, not_blank-append)

  -- The failure of a stale handoff.
  fails :
      (now backoff : ℕ)
      → (t : TransitionResult) × (execute_transition running command_failed
            (stale_args cal now retry_count max_retries backoff)
          ≡ ok t)
        × (((t.to_state ≡ retry_wait)
              × (retry_count <ℤ max_retries)
              × (t.next_retry_at ≡ some (rfc3339 cal (now + backoff * 1000000))))
            ⊎ ((t.to_state ≡ human_required) × (max_retries ≤ℤ retry_count)))
  unfolding execute_transition on_command_failed on_classified_failure classify_error
  fails now backoff = elim (Bool-cases (leb_ℤ max_retries retry_count)) [
    | inl out ↦ (given_up, rw out, inr (refl, ground (arith, out)))
    | inr left ↦ (waiting, rw (left, given-rfc3339), inl (refl, ground (arith, left), refl))
  ]
    where
      given_up : TransitionResult
      given_up = record {
        from_state = running;
        to_state = human_required;
        add_labels = "needs:human" ∷ "orchestrator:dead" ∷ [];
        remove_labels = "needs:orchestrator" ∷ "orchestrator:running" ∷ [];
        reason = "retry_exhausted_or_non_retriable";
        error_class = text "stale_run";
        next_retry_at = none;
      }

      waiting : TransitionResult
      waiting = record {
        from_state = running;
        to_state = retry_wait;
        add_labels = "orchestrator:failed" ∷ [];
        remove_labels = "orchestrator:running" ∷ [];
        reason = "command_failure_retriable";
        error_class = text "stale_run";
        next_retry_at = some (rfc3339 cal (now + backoff * 1000000));
      }

module _ (cal : Calendar) (r : StateRecord) (t limit : ℕ) (positive : leb limit 0 ≡ false)
    (is_running : r.state ≡ "RUNNING") (stamped : r.last_transition_at ≡ rfc3339 cal t) where
  checked : (now : ℕ) → is_stale_running cal r now limit ≡ ok (leb (t + limit * 1000000) now)
  unfolding is_stale_running stale_since found_time
  checked now = rw (positive, stamped, is_running, from_rfc3339-rfc3339)

  started :
      (now backoff : ℕ) (retry_count max_retries : ℤ)
      → reconcile_stale_running cal r now limit retry_count max_retries backoff
        ≡ fail_stale cal (leb (t + limit * 1000000) now) now retry_count max_retries backoff
  unfolding reconcile_stale_running
  started now backoff retry_count max_retries = rw (checked now, is_running)

  -- A handoff that is RUNNING since the instant that its record shows, with a limit that is positive,
  -- is left alone exactly until the limit has passed. From then on the reconciliation always gives a
  -- transition: to RETRY_WAIT, with the time to retry at, if retries are left, else to HUMAN_REQUIRED.
  pub reconcile_stale_running_outcome :
      (now backoff : ℕ) (retry_count max_retries : ℤ)
      → ((now < t + limit * 1000000)
          × (reconcile_stale_running cal r now limit retry_count max_retries backoff ≡ ok none))
        ⊎ ((t + limit * 1000000 ≤ now)
            × ((tr : TransitionResult) × (reconcile_stale_running cal r now limit retry_count
                    max_retries backoff
                  ≡ ok (some tr))
                × (((tr.to_state ≡ retry_wait)
                      × (retry_count <ℤ max_retries)
                      × (tr.next_retry_at ≡ some (rfc3339 cal (now + backoff * 1000000))))
                    ⊎ ((tr.to_state ≡ human_required) × (max_retries ≤ℤ retry_count)))))
  unfolding fail_stale
  reconcile_stale_running_outcome now backoff retry_count max_retries =
      elim (Bool-cases (leb (t + limit * 1000000) now)) [
        | inl old ↦
            let (tr, e, o) = fails cal retry_count max_retries now backoff in
            inr (ground (arith, old), (tr, rw (started, old, fail_stale) (rw e), o))
        | inr young ↦ inl (ground (arith, young), rw (started, young, fail_stale))
      ]
