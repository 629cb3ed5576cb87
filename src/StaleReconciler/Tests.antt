-- ===== src/StaleReconciler/Tests.antt =====
-- src/watcher/stale_reconciler.py: an instance of the theorem.
use orchestrator_state_machi.Prelude.{◌+◌, ◌*◌, ◌<◌, ◌≤◌, ◌≡◌, ◌⊎◌, refl, none, some, ok}
use orchestrator_state_machi.Prelude.Int.{pos, ◌<ℤ◌, ◌≤ℤ◌}
use orchestrator_state_machi.Fsm.{retry_wait, human_required, TransitionResult}
use orchestrator_state_machi.StateStore.{StateRecord}
use orchestrator_state_machi.Time.{rfc3339}
use orchestrator_state_machi.Time.Example.{zeros_calendar}
use orchestrator_state_machi.StaleReconciler.{reconcile_stale_running}
use orchestrator_state_machi.StaleReconciler.Stale.{reconcile_stale_running_outcome}

abbrev started_at_two : StateRecord
started_at_two = record {
  state = "RUNNING";
  attempt = pos 1;
  last_transition_at = rfc3339 zeros_calendar 2;
  next_retry_at = none;
  last_error_class = none;
  owner_id = some "worker-a";
  version = pos 1;
}

reconcile_stale_running_outcome_example :
    ((7 < 2 + 1 * 1000000)
      × (reconcile_stale_running zeros_calendar started_at_two 7 1 (pos 0) (pos 3) 60 ≡ ok none))
    ⊎ ((2 + 1 * 1000000 ≤ 7)
        × ((tr : TransitionResult) × (reconcile_stale_running zeros_calendar started_at_two 7 1
                (pos 0)
                (pos 3)
                60
              ≡ ok (some tr))
            × (((tr.to_state ≡ retry_wait)
                  × (pos 0 <ℤ pos 3)
                  × (tr.next_retry_at ≡ some (rfc3339 zeros_calendar (7 + 60 * 1000000))))
                ⊎ ((tr.to_state ≡ human_required) × (pos 3 ≤ℤ pos 0)))))
reconcile_stale_running_outcome_example =
    reconcile_stale_running_outcome zeros_calendar started_at_two 2 1 refl refl refl 7 60 (pos 0)
      (pos 3)
