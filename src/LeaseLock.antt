-- ===== src/LeaseLock.antt =====
-- src/watcher/lease_lock.py: the lease on a handoff, held in a file. The state is the record in the
-- lock file, or none where there is no file; each method is one step on it (two processes whose
-- reads and writes of the file interleave are the subject of LeaseLock/Race.antt).
pub mod Exclusion
pub mod Race
mod Tests
use orchestrator_state_machi.Prelude.{
  ℕ, zero, suc, ◌+◌, ◌*◌, String, Bool, true, false, not, Option, none, some, text_eq, leb,
  if◌then◌else◌, Result, ok, raise,
}
use orchestrator_state_machi.Prelude.Int.{ℤ, pos, negsuc}
use orchestrator_state_machi.Time.{DateTime, naive, aware, Calendar, to_rfc3339, from_rfc3339}

pub record LeaseRecord : Type 0 where
  pub owner_id : String
  pub acquired_at : String
  pub heartbeat_at : String
  pub expires_at : String

-- LeaseBusyError, LeaseLockError, LeaseOwnershipError (two messages) and LeaseExpiredError; the
-- constructor's ValueError; the ValueError of a timestamp that cannot be read; the TypeError of
-- comparing it with a naive time.
pub data LeaseError : Type 0 where
  lease_busy : LeaseError
  lease_not_found : LeaseError
  heartbeat_by_another_owner : LeaseError
  lease_expired : LeaseError
  release_by_another_owner : LeaseError
  lease_seconds_not_positive : LeaseError
  unreadable_timestamp : LeaseError
  naive_comparison : LeaseError

abbrev pub Lock : Type 0
Lock = Option LeaseRecord

-- `now_utc + timedelta(seconds=s)`, in microseconds.
abbrev pub add_seconds : DateTime → ℕ → DateTime
add_seconds (naive t) s = naive (t + s * 1_000_000)
add_seconds (aware t) s = aware (t + s * 1_000_000)

-- `__init__`, which gives the lease's seconds.
unfoldable pub init : ℤ → Result LeaseError ℕ
init (pos zero) = raise lease_seconds_not_positive
init (pos (suc n)) = ok (suc n)
init (negsuc n) = raise lease_seconds_not_positive

-- `load`
abbrev pub load : Lock → Option LeaseRecord
load lock = lock

-- `instant <= now_utc`
unfoldable pub is_before : Option ℕ → DateTime → Result LeaseError Bool
is_before none now_utc = raise unreadable_timestamp
is_before (some expiry) (naive now) = raise naive_comparison
is_before (some expiry) (aware now) = ok (leb expiry now)

module _ (cal : Calendar) where
  -- `is_stale`
  unfoldable pub is_stale : LeaseRecord → DateTime → Result LeaseError Bool
  is_stale r now_utc = is_before (from_rfc3339 cal r.expires_at) now_utc

  module _ (lease_seconds : ℕ) where
    -- `_new_record`
    unfoldable pub new_record : String → DateTime → LeaseRecord
    new_record owner_id now_utc =
        let stamp = to_rfc3339 cal now_utc in
        record {
          owner_id = owner_id;
          acquired_at = stamp;
          heartbeat_at = stamp;
          expires_at = to_rfc3339 cal (add_seconds now_utc lease_seconds);
        }

    -- `heartbeat`: the result, and the lock after it.
    unfoldable pub heartbeat : String → DateTime → Lock → Result LeaseError LeaseRecord × Lock
    heartbeat owner_id now_utc lock = elim (load lock) [
      | none ↦ (raise lease_not_found, lock)
      | some r ↦
          if not (text_eq r.owner_id owner_id)
          then (raise heartbeat_by_another_owner, lock)
          else elim (is_stale r now_utc) [
            | raise e ↦ (raise e, lock)
            | ok stale ↦
                if stale
                then (raise lease_expired, lock)
                else let refreshed : LeaseRecord = record {
                  owner_id = owner_id;
                  acquired_at = r.acquired_at;
                  heartbeat_at = to_rfc3339 cal now_utc;
                  expires_at = to_rfc3339 cal (add_seconds now_utc lease_seconds);
                } in
                  (ok refreshed, some refreshed)
          ]
    ]

    -- The end of `acquire`: write a new record.
    unfoldable pub take_over : String → DateTime → Result LeaseError LeaseRecord × Lock
    take_over owner_id now_utc =
        (ok (new_record owner_id now_utc), some (new_record owner_id now_utc))

    -- `acquire`
    unfoldable pub acquire : String → DateTime → Lock → Result LeaseError LeaseRecord × Lock
    acquire owner_id now_utc lock = elim (load lock) [
      | none ↦ take_over owner_id now_utc
      | some r ↦
          if text_eq r.owner_id owner_id
          then heartbeat owner_id now_utc lock
          else elim (is_stale r now_utc) [
            | raise e ↦ (raise e, lock)
            | ok stale ↦ if not stale then (raise lease_busy, lock) else take_over owner_id now_utc
          ]
    ]

-- `release`
unfoldable pub release : String → Lock → Result LeaseError Bool × Lock
release owner_id lock = elim (load lock) [
  | none ↦ (ok false, lock)
  | some r ↦
      if not (text_eq r.owner_id owner_id)
      then (raise release_by_another_owner, lock)
      else (ok true, none)
]
