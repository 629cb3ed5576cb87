-- ===== src/WatcherRunWriter.antt =====
-- src/watcher/watcher_run_writer.py: the log of runs. Validation has the checks on a record, Journal the
-- proofs about the log.
pub mod Validation
mod Journal
mod Tests
use Prim.Native.Char.{Char, code}
use orchestrator_state_machi.Prelude.{
  ℕ, ◌+◌, ◌-◌, ◌^◌, ◌*◌, String, Bool, true, false, not, ◌&&◌, ◌||◌, List, [], ◌∷◌, ◌++◌, append,
  keep, contains, if◌then◌else◌, text_eq, leb, ltb, ◌==◌, Option, none, some, Result, ok, raise,
  raise_if, rethrow, ◌>>=◌, ◌>>◌, is_empty,
}
use orchestrator_state_machi.Prelude.Int.{ℤ, pos, ltb_ℤ, leb_ℤ, pos_part, neg_part}
use orchestrator_state_machi.Prelude.Text.{is_space, is_blank, strip, between}
use orchestrator_state_machi.Prelude.Json.{
  Float, finite, Value, null, bool, int, float, str, list, dict, Fields, end, field, get, has_key,
  lt_fraction, gt_fraction,
}
use orchestrator_state_machi.Prelude.Regex.{is_digit, is_lower, repeat_matches}
use orchestrator_state_machi.Prelude.Sort.{sort, text_before}
use orchestrator_state_machi.Time.{Calendar, parse_rfc3339_utc, rfc3339}
use orchestrator_state_machi.WatcherRunWriter.Validation.{
  WatcherRun, normalized, Checks, RunError, validation, json_error, validate_watcher_run,
}

-- A line of the log: blank, a JSON value, or a text that is none.
pub data Line : Type 0 where
  blank : Line
  entry : Value → Line
  garbage : Line

-- `value == n`, for an integer n: a bool is 0 or 1, and a float may equal it.
unfoldable pub equals_int : Option Value → ℤ → Bool
equals_int (some (int m)) n = leb_ℤ m n && leb_ℤ n m
equals_int (some (bool true)) n = leb_ℤ (pos 1) n && leb_ℤ n (pos 1)
equals_int (some (bool false)) n = leb_ℤ (pos 0) n && leb_ℤ n (pos 0)
equals_int (some (float (finite num exp))) n =
    (pos_part num + neg_part n * 2 ^ exp) == (pos_part n * 2 ^ exp + neg_part num)
equals_int _ n = false

abbrev pub equals_text : Option Value → String → Bool
equals_text (some (str s)) t = text_eq s t
equals_text _ t = false

-- A line that records an attempt.
unfoldable pub records : String → ℤ → Line → Bool
records handoff_key attempt (entry (dict d)) =
    equals_text (get "handoff_key" d) handoff_key && equals_int (get "attempt" d) attempt
records handoff_key attempt _ = false

-- `_ensure_attempt_not_already_recorded`, on the lines of the file.
unfoldable pub ensure_not_recorded : String → ℤ → List Line → Checks (Unit {0})
ensure_not_recorded handoff_key attempt [] = ok tt
ensure_not_recorded handoff_key attempt (garbage ∷ lines) = raise json_error
ensure_not_recorded handoff_key attempt (line ∷ lines) =
    let rest = ensure_not_recorded handoff_key attempt lines in
    if records handoff_key attempt line
    then raise (validation "duplicate handoff_key+attempt entry")
    else rest

-- `append_watcher_run` on the lines of the log, none of which a missing file has: the normalized record
-- and the lines after.
unfoldable pub append_watcher_run : Calendar → List Line → Value → Checks (WatcherRun × List Line)
append_watcher_run cal log raw = validate_watcher_run cal raw >>= λ run.
    ensure_not_recorded run.handoff_key run.attempt log
    >> ok (run, log ++ (entry (dict (normalized run)) ∷ []))
