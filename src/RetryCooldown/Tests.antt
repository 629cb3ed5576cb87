-- ===== src/RetryCooldown/Tests.antt =====
-- src/watcher/retry_cooldown.py: instances of the theorems.
use orchestrator_state_machi.Prelude.{◌+◌, ◌-◌, ◌/◌, ◌<◌, true, ◌≡◌, ◌↔◌, refl, none, some, ok}
use orchestrator_state_machi.StateStore.{StateRecord}
use orchestrator_state_machi.Time.{aware}
use orchestrator_state_machi.Time.Example.{zeros_calendar}
use orchestrator_state_machi.RetryCooldown.{
  CooldownGateDecision, evaluate_retry_cooldown, build_retry_wait_record, gate, seconds_until,
}
use orchestrator_state_machi.RetryCooldown.Gate.{evaluate_retry_cooldown-build_retry_wait_record}

-- Two and a half seconds are two to wait.
two_seconds : (gate 500000 3000000).wait_seconds ≡ 2
unfolding gate seconds_until
two_seconds = refl

evaluate_retry_cooldown-build_retry_wait_record_example :
    (r : StateRecord) × (d : CooldownGateDecision) × (build_retry_wait_record zeros_calendar none
        (aware 1)
        (aware 3)
        "timeout"
        (some "w")
      ≡ ok r)
    × (evaluate_retry_cooldown zeros_calendar r.next_retry_at (aware 2) ≡ ok d)
    × ((d.ready ≡ true) ↔ (3 < 2 + 1000000))
    × (d.wait_seconds ≡ (3 - 2) / 1000000)
evaluate_retry_cooldown-build_retry_wait_record_example =
    evaluate_retry_cooldown-build_retry_wait_record zeros_calendar none 1 3 "timeout" refl
      (some "w") 2
