-- ===== src/Time.antt =====
-- The timestamps of the watcher: `_to_rfc3339` and `_from_rfc3339` of src/watcher/lease_lock.py and
-- src/watcher/stale_reconciler.py, `format_rfc3339_utc` and `_validate_now` of
-- src/watcher/retry_scheduler.py, `parse_rfc3339_utc` and `_validate_aware_utc` of
-- src/watcher/retry_cooldown.py. The calendar of Python's `datetime` (printing and reading a date)
-- is a parameter with two documented laws.
pub mod RoundTrip
pub mod Example
mod Tests
use Prim.Native.Char.{Char, code}
use Prim.Native.String.{String, ◌++◌}
use orchestrator_state_machi.Prelude.{
  ℕ, zero, suc, Bool, true, false, ◌&&◌, ◌||◌, not, ◌≡◌, Option, none, some, ◌==◌, if◌then◌else◌,
  Result, ok, raise,
}
use orchestrator_state_machi.Prelude.Text.{is_space, is_blank, strip, starts, ends_with, all_chars}

-- A `datetime`: an aware one by the microseconds of its instant in UTC (its own offset is never
-- read but to convert it), a naive one by the microseconds that its digits show.
pub data DateTime : Type 0 where
  naive : ℕ → DateTime
  aware : ℕ → DateTime

-- A character of the digits, dashes, colons and the `T` of a timestamp.
abbrev pub is_plain : Char → Bool
is_plain c = not (is_space c) && not (code c == b'+' || code c == b'Z')

-- What the code uses of `datetime`: `stamp t` is the isoformat of an instant in UTC before its
-- offset `+00:00`, `fromisoformat` reads a text (`none` is ValueError), `local_to_utc` is
-- `astimezone` on a naive value.
pub record Calendar : Type 0 where
  pub stamp : ℕ → String
  pub fromisoformat : String → Option DateTime
  pub local_to_utc : ℕ → ℕ
  pub stamp_plain : (t : ℕ) → all_chars is_plain (stamp t) ≡ true
  pub fromisoformat-stamp : (t : ℕ) → fromisoformat (stamp t ++ "+00:00") ≡ some (aware t)

-- `text.replace("Z", "+00:00")`
unfoldable pub z_to_offset : String → String
z_to_offset String.[] = String.[]
z_to_offset (String.◌∷◌ c s) =
    let rest = z_to_offset s in if code c == b'Z' then "+00:00" ++ rest else String.◌∷◌ c rest

-- `text.replace("+00:00", "Z")`; the number counts the characters of a match that are still to be
-- passed over.
unfoldable pub offset_to_z : ℕ → String → String
offset_to_z skip String.[] = String.[]
offset_to_z (suc skip) (String.◌∷◌ c s) = offset_to_z skip s
offset_to_z zero (String.◌∷◌ c s) = elim (starts "+00:00" (String.◌∷◌ c s)) [
  | true ↦ String.◌∷◌ "Z" (offset_to_z 5 s)
  | false ↦ String.◌∷◌ c (offset_to_z 0 s)
]

-- RetryScheduleError and CooldownGateError of the functions below, by message.
pub data TimeError : Type 0 where
  not_timezone_aware : TimeError
  empty_timestamp : TimeError
  invalid_timestamp : TimeError
  no_utc_offset : TimeError

module _ (cal : Calendar) where
  -- `dt.astimezone(timezone.utc).isoformat().replace("+00:00", "Z")` at an instant.
  unfoldable pub rfc3339 : ℕ → String
  unfolding offset_to_z
  rfc3339 t = offset_to_z 0 (cal.stamp t ++ "+00:00")

  -- `_to_rfc3339`, which reads a naive value as UTC.
  unfoldable pub to_rfc3339 : DateTime → String
  unfolding rfc3339
  to_rfc3339 (naive t) = rfc3339 t
  to_rfc3339 (aware t) = rfc3339 t

  -- `_from_rfc3339`; `none` is ValueError.
  unfoldable pub from_rfc3339 : String → Option ℕ
  unfolding z_to_offset
  from_rfc3339 value = elim (cal.fromisoformat (z_to_offset value)) [
    | none ↦ none
    | some (aware t) ↦ some t
    | some (naive t) ↦ some (cal.local_to_utc t)
  ]

  -- `_validate_now` and `_validate_aware_utc`: the instant of an aware value.
  unfoldable pub validate_aware_utc : DateTime → Result TimeError ℕ
  validate_aware_utc (naive t) = raise not_timezone_aware
  validate_aware_utc (aware t) = ok t

  -- `format_rfc3339_utc`
  unfoldable pub format_rfc3339_utc : DateTime → Result TimeError String
  unfolding validate_aware_utc rfc3339
  format_rfc3339_utc value = elim (validate_aware_utc value) [
    | raise e ↦ raise e
    | ok t ↦ ok (rfc3339 t)
  ]

  -- `parse_rfc3339_utc`
  unfoldable pub parse_rfc3339_utc : String → Result TimeError ℕ
  unfolding strip z_to_offset
  parse_rfc3339_utc timestamp =
      let raw = strip is_space timestamp in
      if is_blank raw
      then raise empty_timestamp
      else elim (cal.fromisoformat (if ends_with b'Z' raw then z_to_offset raw else raw)) [
        | none ↦ raise invalid_timestamp
        | some (naive t) ↦ raise no_utc_offset
        | some (aware t) ↦ ok t
      ]
