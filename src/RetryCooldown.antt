-- ===== src/RetryCooldown.antt =====
-- src/watcher/retry_cooldown.py: whether the time of a retry has come, and the records of a handoff
-- that waits for it or resumes. (`parse_rfc3339_utc` and `_validate_aware_utc` are in Time.antt.)
pub mod Gate
mod Tests
use orchestrator_state_machi.Prelude.{
  ℕ, ◌-◌, ◌/◌, String, Bool, true, false, not, ◌==◌, Option, none, some, text_eq, if◌then◌else◌,
  Result, ok, raise, ◌>>=◌, ◌>>◌, raise_if, rethrow,
}
use orchestrator_state_machi.Prelude.Int.{ℤ, pos, ◌+ℤ◌}
use orchestrator_state_machi.Prelude.Text.{is_blank}
use orchestrator_state_machi.StateStore.{StateRecord}
use orchestrator_state_machi.Time.{
  Calendar, DateTime, aware, TimeError, validate_aware_utc, format_rfc3339_utc, parse_rfc3339_utc,
}

pub data GateReason : Type 0 where
  no_cooldown cooldown_elapsed cooldown_active : GateReason

-- The times are instants in microseconds.
pub record CooldownGateDecision : Type 0 where
  pub ready : Bool
  pub wait_seconds : ℕ
  pub next_retry_at : Option ℕ
  pub reason : GateReason

-- CooldownGateError, by its message.
pub data CooldownGateError : Type 0 where
  time_error : TimeError → CooldownGateError
  empty_error_class : CooldownGateError
  not_retry_wait : CooldownGateError

-- `int((retry_at - now).total_seconds())` where it is positive, else 0.
unfoldable pub seconds_until : ℕ → ℕ → ℕ
seconds_until now retry_at = (retry_at - now) / 1000000

-- The decision at an instant, for an instant of the retry.
unfoldable pub gate : ℕ → ℕ → CooldownGateDecision
unfolding seconds_until
gate now retry_at =
    let delta_seconds = seconds_until now retry_at in
    if delta_seconds == 0
    then (record {
      ready = true;
      wait_seconds = 0;
      next_retry_at = some retry_at;
      reason = cooldown_elapsed;
    })
    else (record {
      ready = false;
      wait_seconds = delta_seconds;
      next_retry_at = some retry_at;
      reason = cooldown_active;
    })

abbrev pub no_gate : CooldownGateDecision
no_gate = record { ready = true; wait_seconds = 0; next_retry_at = none; reason = no_cooldown }

module _ (cal : Calendar) where
  -- `evaluate_retry_cooldown`
  unfoldable pub evaluate_retry_cooldown :
      Option String → DateTime → Result CooldownGateError CooldownGateDecision
  evaluate_retry_cooldown none now_utc =
      rethrow time_error (validate_aware_utc cal now_utc) >>= λ now. ok no_gate
  evaluate_retry_cooldown (some next_retry_at) now_utc =
      rethrow time_error (validate_aware_utc cal now_utc) >>= λ now.
      rethrow time_error (parse_rfc3339_utc cal next_retry_at) >>= λ retry_at.
      ok (gate now retry_at)

  -- `1 if current_record is None else current_record.attempt + 1`
  abbrev pub next_attempt : Option StateRecord → ℤ
  next_attempt none = pos 1
  next_attempt (some r) = r.attempt +ℤ pos 1

  abbrev pub version_of : Option StateRecord → ℤ
  version_of none = pos 0
  version_of (some r) = r.version

  -- `build_retry_wait_record`
  unfoldable pub build_retry_wait_record :
      Option StateRecord
      → DateTime
      → DateTime
      → String
      → Option String
      → Result CooldownGateError StateRecord
  build_retry_wait_record current_record now_utc next_retry_at error_class owner_id = do
    now ← rethrow time_error (validate_aware_utc cal now_utc)
    retry_at ← rethrow time_error (validate_aware_utc cal next_retry_at)
    raise_if (is_blank error_class) empty_error_class
    last_transition_at ← rethrow time_error (format_rfc3339_utc cal (aware now))
    retry_text ← rethrow time_error (format_rfc3339_utc cal (aware retry_at))
    ok (record {
      state = "RETRY_WAIT";
      attempt = next_attempt current_record;
      last_transition_at = last_transition_at;
      next_retry_at = some retry_text;
      last_error_class = some error_class;
      owner_id = owner_id;
      version = version_of current_record;
    })

  -- `build_retry_resume_record`
  unfoldable pub build_retry_resume_record :
      StateRecord → DateTime → Option String → Result CooldownGateError StateRecord
  build_retry_resume_record current_record now_utc owner_id = do
    now ← rethrow time_error (validate_aware_utc cal now_utc)
    raise_if (not (text_eq current_record.state "RETRY_WAIT")) not_retry_wait
    last_transition_at ← rethrow time_error (format_rfc3339_utc cal (aware now))
    ok (record {
      state = "RUNNING";
      attempt = current_record.attempt;
      last_transition_at = last_transition_at;
      next_retry_at = none;
      last_error_class = current_record.last_error_class;
      owner_id = owner_id;
      version = current_record.version;
    })
