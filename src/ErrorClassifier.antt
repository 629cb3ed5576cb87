-- ===== src/ErrorClassifier.antt =====
-- src/watcher/error_classifier.py: the canonical error classes, and the classification of what a
-- command reports as its error class.
pub mod Taxonomy
mod Tests
use Prim.Native.Char.{Char, code}
use orchestrator_state_machi.Prelude.{
  String, Bool, true, false, ◌||◌, Option, none, some, List, [], ◌∷◌, text_eq, ◌==◌, if◌then◌else◌,
  contains,
}
use orchestrator_state_machi.Prelude.{Result, ok, raise, text_eq as eq_text}
use orchestrator_state_machi.Prelude.Dict.{Dict, lookup}
use orchestrator_state_machi.Prelude.Text.{
  is_space, is_blank, between, strip, lower, replace_char, squeeze, only,
}

-- The value of a parameter `str | None` as `isinstance` finds it: `None`, a text, or something
-- else, of which the code reads the truth value alone.
pub data Arg : Type 0 where
  absent : Arg
  text : String → Arg
  foreign : Bool → Arg

-- RETRIABLE_ERROR_CLASSES
abbrev pub retriable_error_classes : List String
retriable_error_classes =
    "timeout" ∷ "rate_limited" ∷ "upstream_unavailable" ∷ "network_error" ∷ "state_conflict"
    ∷ "stale_run" ∷ "unknown_error" ∷ []

-- NON_RETRIABLE_ERROR_CLASSES
abbrev pub non_retriable_error_classes : List String
non_retriable_error_classes =
    "schema_invalid" ∷ "auth_failed" ∷ "permission_denied" ∷ "bad_input" ∷ "policy_invalid" ∷ []

-- ALIAS_MAP
abbrev pub alias_map : Dict String
alias_map =
    ("timed_out", "timeout")
    ∷ ("timeout_error", "timeout")
    ∷ ("too_many_requests", "rate_limited")
    ∷ ("rate_limit", "rate_limited")
    ∷ ("rate-limit", "rate_limited")
    ∷ ("service_unavailable", "upstream_unavailable")
    ∷ ("upstream_failure", "upstream_unavailable")
    ∷ ("connection_error", "network_error")
    ∷ ("network_timeout", "network_error")
    ∷ ("conflict", "state_conflict")
    ∷ ("schema_error", "schema_invalid")
    ∷ ("unauthorized", "auth_failed")
    ∷ ("forbidden", "permission_denied")
    ∷ ("invalid_input", "bad_input")
    ∷ ("invalid_request", "bad_input")
    ∷ []

pub record ErrorClassification : Type 0 where
  pub original : Option String
  pub normalized_error_class : String
  pub retryable : Bool
  pub known : Bool

-- ErrorClassifierError, by its message.
pub data ErrorClassifierError : Type 0 where
  not_a_string_or_none : ErrorClassifierError

abbrev pub is_word_char : Char → Bool
is_word_char c = let n = code c in between b'a' b'z' n || between b'0' b'9' n || n == b'_'

abbrev pub is_underscore : Char → Bool
is_underscore c = code c == b'_'

-- `_normalize`
unfoldable pub normalize : String → String
unfolding strip lower replace_char squeeze only is_space
normalize value =
    let lowered = lower (strip is_space value) in
    let dashed = replace_char b'-' "_" lowered in
    let spaced = squeeze is_space false dashed in
    let worded = only is_word_char spaced in
    strip is_underscore (squeeze is_underscore false worded)

-- `ALIAS_MAP.get(normalized, normalized)`
unfoldable pub resolve_alias : String → String
unfolding lookup
resolve_alias normalized = elim (lookup normalized alias_map) [
  | none ↦ normalized
  | some target ↦ target
]

-- The membership tests that follow the alias map.
unfoldable pub classify_resolved : String → String → ErrorClassification
classify_resolved raw normalized =
    if contains retriable_error_classes normalized
    then (record {
      original = some raw;
      normalized_error_class = normalized;
      retryable = true;
      known = true;
    })
    else if contains non_retriable_error_classes normalized
    then (record {
      original = some raw;
      normalized_error_class = normalized;
      retryable = false;
      known = true;
    })
    else (record {
      original = some raw;
      normalized_error_class = "unknown_error";
      retryable = true;
      known = false;
    })

-- The classification of a text.
unfoldable pub classify_text : String → ErrorClassification
unfolding normalize resolve_alias classify_resolved
classify_text raw =
    let normalized = normalize raw in
    if is_blank normalized
    then (record {
      original = some raw;
      normalized_error_class = "unknown_error";
      retryable = true;
      known = false;
    })
    else classify_resolved raw (resolve_alias normalized)

-- `classify_error`
unfoldable pub classify_error : Arg → Result ErrorClassifierError ErrorClassification
unfolding classify_text
classify_error absent = ok (record {
  original = none;
  normalized_error_class = "unknown_error";
  retryable = true;
  known = false;
})
classify_error (text raw) = ok (classify_text raw)
classify_error (foreign _) = raise not_a_string_or_none
