-- ===== src/Dedupe.antt =====
-- src/watcher/dedupe_store.py: incidents that were seen within a window are suppressed. The state of
-- the store is what its file holds: the times of the last incidents by key (instants in microseconds).
-- An operation runs under the file lock, so it is one step. The hash of a key, sha1, is a parameter.
pub mod Window
mod Tests
use orchestrator_state_machi.Prelude.{
  ℕ, ◌+◌, ◌-◌, ◌*◌, ◌/◌, String, Bool, true, false, not, ◌||◌, Option, none, some, List, [], ◌∷◌,
  append, if◌then◌else◌, Result, ok, raise, ◌>>=◌, ◌>>◌, raise_if, leb, ltb,
}
use orchestrator_state_machi.Prelude.Text.{is_blank}
use orchestrator_state_machi.Prelude.Dict.{Dict, lookup, insert}
use orchestrator_state_machi.Prelude.Json.{
  Value, null, bool, int, float, str, list, dict, Fields, end, field, get, Items,
}
use orchestrator_state_machi.Time.{Calendar, DateTime, naive, aware, parse_rfc3339_utc, rfc3339}

pub record DedupeDecision : Type 0 where
  pub dedupe_key : String
  pub suppressed : Bool
  pub reason : String
  pub remaining_seconds : ℕ

-- DedupeStoreError, by its message.
pub data DedupeStoreError : Type 0 where
  window_not_positive : DedupeStoreError
  now_not_aware : DedupeStoreError
  key_parts_required : DedupeStoreError
  not_an_object : DedupeStoreError
  entries_not_an_object : DedupeStoreError
  invalid_timestamp : DedupeStoreError

-- What the file holds: nothing (no file, or an empty one), or a JSON value.
abbrev pub Store : Type 0
Store = Option Value

-- `hashlib.sha1(raw.encode("utf-8")).hexdigest()` is `sha1 raw`.
-- `build_dedupe_key`
unfoldable pub build_dedupe_key :
    (String → String) → String → String → String → Result DedupeStoreError String
build_dedupe_key sha1 origin_id error_signature error_class =
    if is_blank origin_id || is_blank error_signature || is_blank error_class
    then raise key_parts_required
    else ok (sha1 (append origin_id (append ":" (append error_signature (append ":" error_class)))))

-- `_prune_expired`: `now - ts >= window`, for instants that may lie in the future.
unfoldable pub prune_expired : Dict ℕ → ℕ → ℕ → Dict ℕ
prune_expired [] now window = []
prune_expired ((k, ts) ∷ m) now window =
    let rest = prune_expired m now window in if leb (ts + window) now then rest else (k, ts) ∷ rest

module _ (cal : Calendar) where
  -- `_parse_timestamp`
  unfoldable pub parse_timestamp : Value → Result DedupeStoreError ℕ
  parse_timestamp (str s) = elim (parse_rfc3339_utc cal s) [
    | ok t ↦ ok t
    | raise e ↦ raise invalid_timestamp
  ]
  parse_timestamp _ = raise invalid_timestamp

  unfoldable pub parse_entries : Fields → Result DedupeStoreError (Dict ℕ)
  unfolding parse_timestamp
  parse_entries end = ok []
  parse_entries (field k v d) = parse_timestamp v >>= λ t. parse_entries d >>= λ m. ok ((k, t) ∷ m)

  -- `payload.get("entries", {})`, which must be an object.
  unfoldable pub raw_entries : Option Value → Result DedupeStoreError Fields
  raw_entries none = ok end
  raw_entries (some (dict d)) = ok d
  raw_entries (some _) = raise entries_not_an_object

  -- `_read_entries`
  unfoldable pub read_entries : Store → Result DedupeStoreError (Dict ℕ)
  unfolding raw_entries parse_entries get
  read_entries none = ok []
  read_entries (some (dict d)) = raw_entries (get "entries" d) >>= parse_entries
  read_entries (some _) = raise not_an_object

  -- The object of the entries; `_write_entries` sorts them by key, which no reader can tell.
  unfoldable pub entry_fields : Dict ℕ → Fields
  unfolding rfc3339
  entry_fields [] = end
  entry_fields ((k, t) ∷ m) = field k (str (rfc3339 cal t)) (entry_fields m)

  -- `_write_entries`
  unfoldable pub write_entries : Dict ℕ → Store
  unfolding entry_fields
  write_entries m = some (dict (field "entries" (dict (entry_fields m)) end))

-- The decision and the entries to write, from the entries that are not expired.
unfoldable pub decide : Dict ℕ → String → ℕ → ℕ → DedupeDecision × Dict ℕ
unfolding lookup insert
decide entries key now window = elim (lookup key entries) [
  | none ↦ (
    record {
      dedupe_key = key;
      suppressed = false;
      reason = "outside_window_or_first_seen";
      remaining_seconds = 0;
    },
    insert key now entries,
  )
  | some previous ↦
      if ltb now (previous + window)
      then (
        record {
          dedupe_key = key;
          suppressed = true;
          reason = "suppressed_within_window";
          remaining_seconds = (previous + window - now) / 1000000;
        },
        entries,
      )
      else (
        record {
          dedupe_key = key;
          suppressed = false;
          reason = "outside_window_or_first_seen";
          remaining_seconds = 0;
        },
        insert key now entries,
      )
]

unfoldable pub aware_now : DateTime → Result DedupeStoreError ℕ
aware_now (naive t) = raise now_not_aware
aware_now (aware t) = ok t

-- The part under the lock.
unfoldable pub evaluate_locked :
    Calendar → String → ℕ → ℕ → Store → Result DedupeStoreError (DedupeDecision × Store)
evaluate_locked cal key now window store = read_entries cal store >>= λ entries.
    let r = decide (prune_expired entries now window) key now window in
    ok (r.0, write_entries cal r.1)

-- `evaluate_and_record`; the window is a number of minutes, and one that is not positive is 0 here.
unfoldable pub evaluate_and_record :
    Calendar
    → (String → String)
    → String
    → String
    → String
    → DateTime
    → ℕ
    → Store
    → Result DedupeStoreError (DedupeDecision × Store)
evaluate_and_record cal sha1 origin_id error_signature error_class now_utc window_minutes store = do
  raise_if (leb window_minutes 0) window_not_positive
  now ← aware_now now_utc
  key ← build_dedupe_key sha1 origin_id error_signature error_class
  evaluate_locked cal key now (window_minutes * 60000000) store
