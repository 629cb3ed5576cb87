-- ===== src/WatcherRunWriter/Validation.antt =====
-- src/watcher/watcher_run_writer.py: `validate_watcher_run`.
use orchestrator_state_machi.Prelude.Json.{float_overflows}
use Prim.Native.Char.{code}
use orchestrator_state_machi.Prelude.{
  String, Bool, not, ◌||◌, List, [], ◌∷◌, append, keep, contains, if◌then◌else◌, ◌==◌, none, some,
  Result, ok, raise, rethrow, ◌>>=◌, ◌>>◌, is_empty,
}
use orchestrator_state_machi.Prelude.Int.{ℤ, pos, ltb_ℤ}
use orchestrator_state_machi.Prelude.Text.{is_space, is_blank, strip, between}
use orchestrator_state_machi.Prelude.Json.{
  Float, finite, Value, null, int, float, str, list, dict, Fields, end, field, get, has_key,
  lt_fraction, gt_fraction,
}
use orchestrator_state_machi.Prelude.Regex.{is_digit, is_lower, repeat_matches}
use orchestrator_state_machi.Prelude.Sort.{sort, text_before}
use orchestrator_state_machi.Time.{Calendar, parse_rfc3339_utc, rfc3339}

-- `HANDOFF_KEY_RE.match(s)` and `ERROR_CLASS_RE.match(s)`
unfoldable pub handoff_key_matches : String → Bool
unfolding repeat_matches
handoff_key_matches s = repeat_matches (λ c. between b'a' b'f' (code c) || is_digit c) 8 64 s

unfoldable pub error_class_matches : String → Bool
unfolding repeat_matches
error_class_matches s =
    repeat_matches
      (λ c. is_lower c || is_digit c || code c == b'_' || code c == b':' || code c == b'-') 3 64 s

abbrev pub state_values : List String
state_values = "QUEUED" ∷ "RUNNING" ∷ "RETRY_WAIT" ∷ "DONE" ∷ "HUMAN_REQUIRED" ∷ []

abbrev pub result_values : List String
result_values = "success" ∷ "retry" ∷ "human_required" ∷ []

abbrev pub risk_budget_values : List String
risk_budget_values = "allow" ∷ "defer" ∷ "bypass-critical" ∷ []

-- The sets REQUIRED_FIELDS and OPTIONAL_FIELDS.
abbrev pub required_run_fields : List String
required_run_fields =
    "handoff_key" ∷ "state_from" ∷ "state_to" ∷ "attempt" ∷ "result" ∷ "timestamp" ∷ []

abbrev pub optional_run_fields : List String
optional_run_fields =
    "error_class" ∷ "policy_version" ∷ "replay_artifact" ∷ "capsule_artifact"
    ∷ "risk_budget_decision" ∷ "signature_trust_score" ∷ []

-- WatcherRunValidationError by its message, and what Python itself raises: TypeError for a list or an
-- object that is looked up in a set, OverflowError for an integer too large for a float.
pub data RunError : Type 0 where
  validation : String → RunError
  type_error : RunError
  overflow_error : RunError
  json_error : RunError

abbrev pub Checks : Type 0 → Type 0
Checks A = Result RunError A

abbrev pub invalid_field : {A : Type 0} → String → Checks A
invalid_field name = raise (validation (append name " invalid"))

-- A field of text that `fine` accepts, `not isinstance(v, str) or not fine(v)` else.
unfoldable pub check_text : (String → Bool) → String → Value → Checks String
check_text fine name (str s) = if fine s then ok s else invalid_field name
check_text fine name _ = invalid_field name

-- `v not in values`
unfoldable pub check_member : List String → String → Value → Checks String
check_member values name (str s) = if contains values s then ok s else invalid_field name
check_member values name (list xs) = raise type_error
check_member values name (dict d) = raise type_error
check_member values name _ = invalid_field name

-- The test of `attempt`.
unfoldable pub check_attempt : Value → Checks ℤ
check_attempt (int n) = if ltb_ℤ n (pos 1) then invalid_field "attempt" else ok n
check_attempt _ = invalid_field "attempt"

abbrev pub check_unit : Float → Checks Value
check_unit x =
    if lt_fraction x 0 0 || gt_fraction x 1 0
    then invalid_field "signature_trust_score"
    else ok (float x)

-- The test of `signature_trust_score`; `float(n)` is exact for the numbers from 0 to 1.
unfoldable pub check_score : Value → Checks Value
check_score (int n) = if float_overflows n then raise overflow_error else check_unit (finite n 0)
check_score (float x) = check_unit x
check_score _ = invalid_field "signature_trust_score"

-- A field that may be missing or null, after the fields before it.
unfoldable pub check_optional :
    (Value → Checks Value) → String → Fields → Checks Fields → Checks Fields
check_optional check name raw rest = elim (get name raw) [
  | none ↦ rest
  | some null ↦ rest
  | some v ↦ check v >>= λ w. rest >>= λ fields. ok (field name w fields)
]

abbrev pub as_text : Checks String → Checks Value
as_text (ok s) = ok (str s)
as_text (raise e) = raise e

abbrev pub not_blank : String → Bool
not_blank s = not (is_blank (strip is_space s))

-- A normalized record: its required fields, and the optional ones that are given.
pub record WatcherRun : Type 0 where
  pub handoff_key : String
  pub state_from : String
  pub state_to : String
  pub attempt : ℤ
  pub result : String
  pub timestamp : String
  pub options : Fields

-- The dictionary `normalized`.
abbrev pub normalized : WatcherRun → Fields
normalized r = field "handoff_key" (str r.handoff_key) (
    field "state_from" (str r.state_from) (
      field "state_to" (str r.state_to) (
        field "attempt" (int r.attempt)
          (field "result" (str r.result) (field "timestamp" (str r.timestamp) r.options)))))

-- `record[name]`, of a field that is there.
abbrev pub item : String → Fields → Value
item name raw = elim (get name raw) [ none ↦ null | some v ↦ v ]

-- `[k for k in record.keys() if ...]`
unfoldable pub unknown_fields : Fields → List String
unknown_fields end = []
unknown_fields (field k v d) =
    let rest = unknown_fields d in
    if contains required_run_fields k || contains optional_run_fields k then rest else k ∷ rest

-- `",".join(names)`
unfoldable pub join_names : List String → String
join_names [] = ""
join_names (k ∷ ks) =
    let rest = join_names ks in if is_empty ks then k else append k (append "," rest)

unfoldable pub reject_names : String → List String → Checks (Unit {0})
unfolding sort text_before join_names
reject_names text [] = ok tt
reject_names text (k ∷ ks) =
    raise (validation (append text (join_names (sort text_before (k ∷ ks)))))

-- The optional fields, in the order of the code.
unfoldable pub check_options : Fields → Checks Fields
check_options raw =
    check_optional (λ v. as_text (check_text error_class_matches "error_class" v)) "error_class" raw
      (check_optional (λ v. as_text (check_text not_blank "policy_version" v)) "policy_version" raw
        (check_optional (λ v. as_text (check_text not_blank "replay_artifact" v)) "replay_artifact"
          raw
          (check_optional (λ v. as_text (check_text not_blank "capsule_artifact" v))
            "capsule_artifact" raw
            (check_optional
              (λ v. as_text (check_member risk_budget_values "risk_budget_decision" v))
              "risk_budget_decision" raw
              (check_optional check_score "signature_trust_score" raw (ok end))))))

module _ (cal : Calendar) where
  -- `_parse_rfc3339_utc`, and the text of the instant.
  unfoldable pub check_timestamp : Value → Checks String
  check_timestamp (str s) =
      rethrow (λ e. validation "timestamp invalid") (parse_rfc3339_utc cal s) >>= λ t.
      ok (rfc3339 cal t)
  check_timestamp _ = invalid_field "timestamp"

  unfoldable pub validate_fields : Fields → Checks WatcherRun
  validate_fields raw =
      reject_names "unknown fields: " (unknown_fields raw)
      >> reject_names "missing fields: " (keep (λ k. not (has_key k raw)) required_run_fields)
      >> check_text handoff_key_matches "handoff_key" (item "handoff_key" raw)
      >>= λ handoff_key.
          check_member state_values "state_from" (item "state_from" raw) >>= λ state_from.
          check_member state_values "state_to" (item "state_to" raw) >>= λ state_to.
          check_attempt (item "attempt" raw) >>= λ attempt.
          check_member result_values "result" (item "result" raw) >>= λ result.
          check_timestamp (item "timestamp" raw) >>= λ timestamp. check_options raw >>= λ options.
          ok (record {
            handoff_key = handoff_key;
            state_from = state_from;
            state_to = state_to;
            attempt = attempt;
            result = result;
            timestamp = timestamp;
            options = options;
          })

  -- `validate_watcher_run`
  unfoldable pub validate_watcher_run : Value → Checks WatcherRun
  validate_watcher_run (dict d) = validate_fields d
  validate_watcher_run _ = raise (validation "watcher_run record must be an object")
