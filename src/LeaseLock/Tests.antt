-- ===== src/LeaseLock/Tests.antt =====
-- Runs and instances for the lease lock, with a lease of 30 seconds.
use orchestrator_state_machi.Prelude.{
  ◌≡◌, ◌≢◌, ◌⊎◌, arith, String, none, some, List, [], ◌∷◌, ok, raise, eq_iff, All,
}
use orchestrator_state_machi.Time.{aware}
use orchestrator_state_machi.Time.Example.{zeros_calendar}
use orchestrator_state_machi.LeaseLock.{
  Lock, lease_busy, lease_expired, heartbeat_by_another_owner, release_by_another_owner, acquire,
  heartbeat, release, new_record, take_over,
}
use orchestrator_state_machi.LeaseLock.Exclusion.{
  IsHeld, Grants, Refuses, Grants-IsHeld, take_over-Grants, acquire_outcome, IsHeld-excludes,
  acquire_expired,
}
use orchestrator_state_machi.LeaseLock.Race.{
  Request, acquiring, heartbeating, releasing, Foreign, after_all, after_all-Foreign, World,
  returned, Steps, start, race_both_acquire,
}

-- worker-a holds the lease from 2 µs on.
abbrev held : Lock
held = some (new_record zeros_calendar 30 "worker-a" (aware 2))

held-IsHeld : IsHeld zeros_calendar "worker-a" 30000002 held
unfolding take_over
held-IsHeld = Grants-IsHeld zeros_calendar 30 (take_over-Grants zeros_calendar 30 "worker-a" 2)

others : ◌≢◌ {A = String} "worker-a" "worker-b"
others = ground (arith, eq_iff "worker-a" "worker-b")

acquire_outcome_example :
    Grants zeros_calendar 30 "worker-a" 2 (acquire zeros_calendar 30 "worker-a" (aware 2) none)
    ⊎ Refuses zeros_calendar 30 none (acquire zeros_calendar 30 "worker-a" (aware 2) none)
acquire_outcome_example = acquire_outcome zeros_calendar 30 "worker-a" 2 none

IsHeld-excludes_example :
    (acquire zeros_calendar 30 "worker-b" (aware 5) held ≡ (raise lease_busy, held))
    × (heartbeat zeros_calendar 30 "worker-b" (aware 5) held
        ≡ (raise heartbeat_by_another_owner, held))
    × (release "worker-b" held ≡ (raise release_by_another_owner, held))
IsHeld-excludes_example = IsHeld-excludes zeros_calendar 30 5 held-IsHeld others (omega arith)

acquire_expired_example :
    (acquire zeros_calendar 30 "worker-a" (aware 40000000) held ≡ (raise lease_expired, held))
    × Grants zeros_calendar 30 "worker-b" 40000000
        (acquire zeros_calendar 30 "worker-b" (aware 40000000) held)
acquire_expired_example =
    acquire_expired zeros_calendar 30 40000000 held-IsHeld others (omega arith)

abbrev intruders : List (String × Request)
intruders = ("worker-b", acquiring 7) ∷ ("worker-b", releasing) ∷ ("worker-b", heartbeating 9) ∷ []

intruders-Foreign : All (Foreign "worker-a" 30000002) intruders
intruders-Foreign = ((others, omega arith), ((others, tt), ((others, omega arith), tt)))

after_all-Foreign_example : after_all zeros_calendar 30 intruders held ≡ held
after_all-Foreign_example =
    after_all-Foreign zeros_calendar 30 intruders held-IsHeld intruders-Foreign

race_both_acquire_example :
    (w : World) × Steps zeros_calendar 30 "worker-a" "worker-b" 2 start w
    × (w.first ≡ returned (ok (new_record zeros_calendar 30 "worker-a" (aware 2))))
    × (w.second ≡ returned (ok (new_record zeros_calendar 30 "worker-b" (aware 2))))
    × (w.file ≡ some (new_record zeros_calendar 30 "worker-b" (aware 2)))
race_both_acquire_example = race_both_acquire zeros_calendar 30 "worker-a" "worker-b" 2
