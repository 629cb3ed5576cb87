-- ===== src/RiskBudget.antt =====
-- src/watcher/risk_budget_store.py: the counts of escalations that are not critical, by day and by
-- hour of a time zone, and the decision whether one more may go out. The state of the store is the
-- value that its file holds (`none` for a file that is missing or empty); an operation runs under
-- the file lock, so it is one step. The zones of `zoneinfo` and `strftime` are a parameter.
pub mod Budget
mod Tests
use orchestrator_state_machi.Prelude.{
  ℕ, String, Bool, true, false, not, ◌||◌, Option, none, some, text_eq, if◌then◌else◌, Result, ok,
  raise, ◌>>=◌, ◌>>◌, raise_if, rethrow,
}
use orchestrator_state_machi.Prelude.Int.{ℤ, pos, ◌+ℤ◌, ltb_ℤ, leb_ℤ}
use orchestrator_state_machi.Prelude.Json.{
  Value, null, int, str, bool, float, list, dict, Fields, end, field, is_empty_dict,
}
use orchestrator_state_machi.StateStore.{PayloadError, text_field, int_field}
use orchestrator_state_machi.Time.{DateTime, naive, aware}

pub record RiskBudgetState : Type 0 where
  pub timezone : String
  pub day_bucket : String
  pub hour_bucket : String
  pub noncritical_day_count : ℤ
  pub noncritical_hour_count : ℤ

pub data Decision : Type 0 where
  allow defer bypass_critical : Decision

pub record RiskBudgetDecision : Type 0 where
  pub decision : Decision
  pub reason : String
  pub day_bucket : String
  pub hour_bucket : String
  pub noncritical_day_count : ℤ
  pub noncritical_hour_count : ℤ

-- RiskBudgetStoreError by message, and the errors of a payload.
pub data RiskBudgetStoreError : Type 0 where
  negative_limits : RiskBudgetStoreError
  now_not_aware : RiskBudgetStoreError
  invalid_timezone : RiskBudgetStoreError
  not_an_object : RiskBudgetStoreError
  bad_payload : PayloadError → RiskBudgetStoreError

-- What `ZoneInfo(name)` and `strftime` give: `none` is ZoneInfoNotFoundError; for a zone, the day
-- and the hour of an instant as texts.
abbrev pub Zones : Type 0
Zones = String → Option (ℕ → String × String)

abbrev pub Store : Type 0
Store = Option Value

-- `_state_from_payload`
unfoldable pub state_from_payload : Fields → Result PayloadError RiskBudgetState
unfolding text_field int_field
state_from_payload payload = do
  timezone ← text_field "timezone" payload
  day_bucket ← text_field "day_bucket" payload
  hour_bucket ← text_field "hour_bucket" payload
  noncritical_day_count ← int_field "noncritical_day_count" payload
  noncritical_hour_count ← int_field "noncritical_hour_count" payload
  ok (record {
    timezone = timezone;
    day_bucket = day_bucket;
    hour_bucket = hour_bucket;
    noncritical_day_count = noncritical_day_count;
    noncritical_hour_count = noncritical_hour_count;
  })

-- `_payload_from_state`
unfoldable pub payload_from_state : RiskBudgetState → Fields
payload_from_state s = field "timezone" (str s.timezone) (
    field "day_bucket" (str s.day_bucket) (
      field "hour_bucket" (str s.hour_bucket) (
        field "noncritical_day_count" (int s.noncritical_day_count)
          (field "noncritical_hour_count" (int s.noncritical_hour_count) end))))

-- `_read_payload`
unfoldable pub read_payload : Store → Result RiskBudgetStoreError (Option Fields)
read_payload none = ok none
read_payload (some (dict d)) = ok (some d)
read_payload (some _) = raise not_an_object

-- `load`
unfoldable pub load : Store → Result RiskBudgetStoreError (Option RiskBudgetState)
unfolding read_payload state_from_payload
load store = read_payload store >>= λ payload. elim payload [
  | none ↦ ok none
  | some d ↦ rethrow bad_payload (state_from_payload d) >>= λ s. ok (some s)
]

-- `current` of `evaluate_and_record`: an empty object counts as none.
unfoldable pub read_current : Store → Result RiskBudgetStoreError (Option RiskBudgetState)
unfolding read_payload state_from_payload
read_current store = read_payload store >>= λ payload. elim payload [
  | none ↦ ok none
  | some d ↦
      if is_empty_dict d
      then ok none
      else rethrow bad_payload (state_from_payload d) >>= λ s. ok (some s)
]

-- `_roll_forward_state`
unfoldable pub roll_forward_state :
    Option RiskBudgetState → String → String → String → RiskBudgetState
roll_forward_state none timezone_name day hour = record {
  timezone = timezone_name;
  day_bucket = day;
  hour_bucket = hour;
  noncritical_day_count = pos 0;
  noncritical_hour_count = pos 0;
}
roll_forward_state (some current) timezone_name day hour =
    let same_zone = text_eq current.timezone timezone_name in
    let same_day = text_eq current.day_bucket day in
    let same_hour = text_eq current.hour_bucket hour in
    record {
      timezone = timezone_name;
      day_bucket = day;
      hour_bucket = hour;
      noncritical_day_count =
          if same_zone then (if same_day then current.noncritical_day_count else pos 0) else pos 0;
      noncritical_hour_count =
          if same_zone
          then (if same_day
              then (if same_hour then current.noncritical_hour_count else pos 0)
              else pos 0)
          else pos 0;
    }

-- The decision with the counts of a state.
abbrev pub decided : Decision → String → RiskBudgetState → RiskBudgetDecision
decided decision reason s = record {
  decision = decision;
  reason = reason;
  day_bucket = s.day_bucket;
  hour_bucket = s.hour_bucket;
  noncritical_day_count = s.noncritical_day_count;
  noncritical_hour_count = s.noncritical_hour_count;
}

-- `updated`
abbrev pub count_one : RiskBudgetState → RiskBudgetState
count_one s = record s {
  noncritical_day_count = s.noncritical_day_count +ℤ pos 1;
  noncritical_hour_count = s.noncritical_hour_count +ℤ pos 1;
}

-- The decision on a state that is rolled forward, with the state to write.
unfoldable pub evaluate_state :
    RiskBudgetState → Bool → ℤ → ℤ → RiskBudgetDecision × RiskBudgetState
evaluate_state state is_critical per_day per_hour =
    if is_critical
    then (decided bypass_critical "critical_incident_bypass" state, state)
    else if leb_ℤ per_day state.noncritical_day_count
    then (decided defer "daily_noncritical_budget_exhausted" state, state)
    else if leb_ℤ per_hour state.noncritical_hour_count
    then (decided defer "hourly_noncritical_budget_exhausted" state, state)
    else (decided allow "within_budget" (count_one state), count_one state)

-- The instant of `now_utc`, and the zone by its name.
unfoldable pub aware_now : DateTime → Result RiskBudgetStoreError ℕ
aware_now (naive t) = raise now_not_aware
aware_now (aware t) = ok t

unfoldable pub find_zone : Zones → String → Result RiskBudgetStoreError (ℕ → String × String)
find_zone zones name = elim (zones name) [ none ↦ raise invalid_timezone | some z ↦ ok z ]

-- The part under the lock: the state is read, rolled forward to a day and an hour, and written.
unfoldable pub evaluate_locked :
    String
    → Bool
    → ℤ
    → ℤ
    → String × String
    → Store
    → Result RiskBudgetStoreError (RiskBudgetDecision × Store)
evaluate_locked timezone_name is_critical per_day per_hour buckets store =
    read_current store >>= λ current.
    let state = roll_forward_state current timezone_name buckets.0 buckets.1 in
    let r = evaluate_state state is_critical per_day per_hour in
    ok (r.0, some (dict (payload_from_state r.1)))

-- `evaluate_and_record`
unfoldable pub evaluate_and_record :
    Zones
    → DateTime
    → String
    → Bool
    → ℤ
    → ℤ
    → Store
    → Result RiskBudgetStoreError (RiskBudgetDecision × Store)
evaluate_and_record zones now_utc timezone_name is_critical per_day per_hour store = do
  raise_if (ltb_ℤ per_day (pos 0) || ltb_ℤ per_hour (pos 0)) negative_limits
  now ← aware_now now_utc
  tz ← find_zone zones timezone_name
  evaluate_locked timezone_name is_critical per_day per_hour (tz now) store
