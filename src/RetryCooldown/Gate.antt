-- ===== src/RetryCooldown/Gate.antt =====
-- src/watcher/retry_cooldown.py: the record of a handoff that waits, its gate, and its resumption.
use orchestrator_state_machi.Prelude.{
  ℕ, ◌+◌, ◌-◌, ◌/◌, ◌<◌, String, true, false, Option, none, some, ◌≡◌, ◌↔◌, refl, arith, ok,
}
use orchestrator_state_machi.Prelude.Text.{is_blank}
use orchestrator_state_machi.StateStore.{StateRecord}
use orchestrator_state_machi.Time.{Calendar, aware, validate_aware_utc, format_rfc3339_utc, rfc3339}
use orchestrator_state_machi.Time.RoundTrip.{parse_rfc3339_utc-rfc3339}
use orchestrator_state_machi.RetryCooldown.{
  CooldownGateDecision, gate, seconds_until, evaluate_retry_cooldown, build_retry_wait_record,
  build_retry_resume_record, next_attempt, version_of,
}

gate_ready : (now retry_at : ℕ) → ((gate now retry_at).ready ≡ true) ↔ (retry_at < now + 1000000)
unfolding gate seconds_until
gate_ready now retry_at = ground arith

gate_wait : (now retry_at : ℕ) → (gate now retry_at).wait_seconds ≡ (retry_at - now) / 1000000
unfolding gate seconds_until
gate_wait now retry_at = ground arith

module _ (cal : Calendar) (current : Option StateRecord) (now retry_at : ℕ) (error_class : String)
    (given : is_blank error_class ≡ false) (owner_id : Option String) where
  -- The record that `build_retry_wait_record` gives.
  abbrev pub waiting : StateRecord
  waiting = record {
    state = "RETRY_WAIT";
    attempt = next_attempt cal current;
    last_transition_at = rfc3339 cal now;
    next_retry_at = some (rfc3339 cal retry_at);
    last_error_class = some error_class;
    owner_id = owner_id;
    version = version_of cal current;
  }

  build_waiting :
      build_retry_wait_record cal current (aware now) (aware retry_at) error_class owner_id
      ≡ ok waiting
  unfolding build_retry_wait_record validate_aware_utc format_rfc3339_utc
  build_waiting = rw given

  gate_waiting :
      (later : ℕ)
      → evaluate_retry_cooldown cal waiting.next_retry_at (aware later) ≡ ok (gate later retry_at)
  unfolding evaluate_retry_cooldown validate_aware_utc
  gate_waiting later = rw parse_rfc3339_utc-rfc3339

  -- With aware times and an error class that is not empty, a record to wait with is built, and the
  -- gate reads its time back: at a later instant the retry is ready exactly if less than a second is
  -- left, and the seconds to wait are the whole seconds that are left.
  pub evaluate_retry_cooldown-build_retry_wait_record :
      (later : ℕ)
      → (r : StateRecord) × (d : CooldownGateDecision) × (build_retry_wait_record cal current
            (aware now)
            (aware retry_at)
            error_class
            owner_id
          ≡ ok r)
        × (evaluate_retry_cooldown cal r.next_retry_at (aware later) ≡ ok d)
        × ((d.ready ≡ true) ↔ (retry_at < later + 1000000))
        × (d.wait_seconds ≡ (retry_at - later) / 1000000)
  evaluate_retry_cooldown-build_retry_wait_record later = (
    waiting,
    gate later retry_at,
    build_waiting,
    gate_waiting later,
    gate_ready later retry_at,
    gate_wait later retry_at,
  )

  -- The record to wait with counts one more attempt than the current one (the first without one) and
  -- keeps its version; it can always be resumed, and then the handoff runs, with that attempt, that
  -- version and that error class, and without a time to retry.
  pub build_retry_resume_record-build_retry_wait_record :
      (later : ℕ) (owner : Option String)
      → (r : StateRecord) × (r' : StateRecord) × (build_retry_wait_record cal current
            (aware now)
            (aware retry_at)
            error_class
            owner_id
          ≡ ok r)
        × (build_retry_resume_record cal r (aware later) owner ≡ ok r')
        × (r.attempt ≡ next_attempt cal current)
        × (r.version ≡ version_of cal current)
        × (r'.state ≡ "RUNNING")
        × (r'.attempt ≡ r.attempt)
        × (r'.version ≡ r.version)
        × (r'.last_error_class ≡ some error_class)
        × (r'.next_retry_at ≡ none)
        × (r'.owner_id ≡ owner)
  unfolding build_retry_resume_record validate_aware_utc format_rfc3339_utc
  build_retry_resume_record-build_retry_wait_record later owner =
      (waiting, _, build_waiting, refl, refl, refl, refl, refl, refl, refl, refl, refl)
