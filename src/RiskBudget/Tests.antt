-- ===== src/RiskBudget/Tests.antt =====
-- src/watcher/risk_budget_store.py: runs, and instances of the theorems.
use orchestrator_state_machi.Prelude.{
  ℕ, ◌≤◌, String, Bool, true, false, none, some, List, [], ◌∷◌, ◌≡◌, ◌↔◌, ◌≢◌, ◌⊎◌, refl, ok, raise,
  text_eq, if◌then◌else◌,
}
use orchestrator_state_machi.Prelude.Int.{pos, ◌<ℤ◌, ◌+ℤ◌}
use orchestrator_state_machi.Prelude.Json.{dict}
use orchestrator_state_machi.Time.{aware, naive}
use orchestrator_state_machi.RiskBudget.{
  RiskBudgetState, allow, bypass_critical, Zones, Store, evaluate_and_record, evaluate_locked,
  evaluate_state, aware_now, find_zone, read_current, read_payload, roll_forward_state,
  payload_from_state, load, decided, now_not_aware,
}
use orchestrator_state_machi.RiskBudget.Budget.{
  load-evaluate_and_record, evaluate_state_allow, evaluate_all, allowed_le_per_day,
}

-- One zone, whose day and hour are fixed.
abbrev one_day : ℕ → String × String
one_day t = ("2026-02-20", "2026-02-20T09")

abbrev utc : Zones
utc name = if text_eq name "UTC" then some one_day else none

abbrev one_counted : RiskBudgetState
one_counted = record {
  timezone = "UTC";
  day_bucket = "2026-02-20";
  hour_bucket = "2026-02-20T09";
  noncritical_day_count = pos 1;
  noncritical_hour_count = pos 1;
}

first_allowed :
    evaluate_and_record utc (aware 5) "UTC" false (pos 2) (pos 1) none
    ≡ ok (decided allow "within_budget" one_counted, some (dict (payload_from_state one_counted)))
unfolding evaluate_and_record evaluate_locked aware_now find_zone read_current read_payload
    roll_forward_state evaluate_state payload_from_state ◌+ℤ◌
first_allowed = refl

naive_refused :
    evaluate_and_record utc (naive 5) "UTC" false (pos 2) (pos 1) none ≡ raise now_not_aware
unfolding evaluate_and_record aware_now
naive_refused = refl

load-evaluate_and_record_example :
    load (some (dict (payload_from_state one_counted))) ≡ ok (some one_counted)
load-evaluate_and_record_example =
    load-evaluate_and_record utc (aware 5) "UTC" false (pos 2) (pos 1) none first_allowed

evaluate_state_allow_example :
    let (d, after) = evaluate_state one_counted false (pos 2) (pos 3) in
    ((d.decision ≡ allow) ↔ ((false ≡ false) × (pos 1 <ℤ pos 2) × (pos 1 <ℤ pos 3)))
    × ((d.decision ≡ bypass_critical) ↔ (false ≡ true))
    × (((d.decision ≡ allow)
          × (after ≡ record one_counted {
            noncritical_day_count = pos 1 +ℤ pos 1;
            noncritical_hour_count = pos 1 +ℤ pos 1;
          }))
        ⊎ ((d.decision ≢ allow) × (after ≡ one_counted)))
    × (d.noncritical_day_count ≡ after.noncritical_day_count)
    × (d.noncritical_hour_count ≡ after.noncritical_hour_count)
evaluate_state_allow_example = evaluate_state_allow one_counted false (pos 2) (pos 3)

abbrev incidents : List (ℕ × Bool)
incidents = (1, false) ∷ (2, true) ∷ (3, false) ∷ []

allowed_le_per_day_example :
    (n : ℕ) × (store : Store) × (evaluate_all utc "UTC" one_day refl 2 1 incidents none
      ≡ ok (n, store))
    × (n ≤ 2)
allowed_le_per_day_example =
    allowed_le_per_day utc "UTC" one_day refl 2 1 "2026-02-20" incidents (refl, (refl, (refl, tt)))
