-- ===== src/HandoffParser.antt =====
-- src/watcher/handoff_parser.py: the handoff block of a bead's notes. Text has the
-- lines and the expressions; Lines, Fields and Stored have the proofs about what is read, Payloads those
-- about the payload.
pub mod Text
pub mod Lines
pub mod Fields
pub mod Stored
pub mod Payloads
mod Tests
use Prim.Native.Char.{Char, code}
use orchestrator_state_machi.Prelude.{
  ℕ, ◌≤◌, String, Bool, true, false, ◌&&◌, ◌||◌, not, List, [], ◌∷◌, ◌++◌, append, keep, map,
  is_empty, ◌==◌, if◌then◌else◌, text_eq, Option, none, some, Result, ok, raise, ◌>>=◌, Checked,
  valid, invalid, raise_errors,
}
use orchestrator_state_machi.Prelude.Int.{ℤ, pos, ltb_ℤ}
use orchestrator_state_machi.Prelude.Text.{
  is_space, is_blank, strip, lstrip, starts, ends_with, lower, between,
}
use orchestrator_state_machi.Prelude.Dict.{Dict, lookup, insert}
use orchestrator_state_machi.Prelude.Regex.{is_digit, is_lower, repeat_matches}
use orchestrator_state_machi.Prelude.Decimal.{read_int}
use orchestrator_state_machi.HandoffParser.Text.{
  is_break, is_id_char, is_signature_char, following, split_run, split_lines, id_matches,
  signature_matches, is_key_char, with_key_char, match_key, stripped, match_field_line, drop_last,
  strip_quotes,
}

-- REQUIRED_FIELDS
abbrev required_fields : List String
required_fields =
    "origin_id" ∷ "bug_id" ∷ "error_signature" ∷ "expected_minutes" ∷ "estimated_loc"
    ∷ "touches_api_or_schema" ∷ "touches_security_or_auth" ∷ "quick_test_available" ∷ []

pub record HandoffPayload : Type 0 where
  pub origin_id : String
  pub bug_id : String
  pub error_signature : String
  pub expected_minutes : ℤ
  pub estimated_loc : ℤ
  pub touches_api_or_schema : Bool
  pub touches_security_or_auth : Bool
  pub quick_test_available : Bool

-- The state of the loop of `_extract_handoff_mapping`.
pub record Scan : Type 0 where
  pub mapping : Dict String
  pub errors : List String
  pub consumed : Bool

-- The value of a key is stored, unless it is empty.
unfoldable pub store_value : Scan → String → String → Scan
store_value scan key raw_value =
    if is_blank raw_value
    then record scan { errors = scan.errors ++ (append key " missing value" ∷ []) }
    else record scan { mapping = insert key raw_value scan.mapping; consumed = true }

-- A field line: its error is noted, or its value is stored.
unfoldable pub read_field : Scan → String → Scan
unfolding match_field_line strip_quotes store_value
read_field scan line = elim (match_field_line line) [
  | none ↦ record scan {
    errors = scan.errors ++ (append "malformed handoff field line: " (strip is_space line) ∷ []);
  }
  | some (key, text) ↦ store_value scan key (strip_quotes (strip is_space text))
]

-- The body of the loop, with `none` for `break`.
unfoldable pub read_line : Scan → String → Option Scan
unfolding read_field
read_line scan line =
    if is_blank (strip is_space line)
    then some scan
    else if not (starts " " line)
    then (if scan.consumed then none else some scan)
    else some (read_field scan line)

unfoldable pub read_lines : Scan → List String → Scan
unfolding read_line
read_lines scan [] = scan
read_lines scan (line ∷ lines) = elim (read_line scan line) [
  | none ↦ scan
  | some next ↦ read_lines next lines
]

-- `lines[start_index + 1:]`, with `none` where no line starts the block.
unfoldable pub after_start : List String → Option (List String)
unfolding strip
after_start [] = none
after_start (line ∷ lines) =
    let rest = after_start lines in
    if text_eq (strip is_space line) "handoff:" then some lines else rest

abbrev pub start_scan : Scan
start_scan = record { mapping = []; errors = []; consumed = false }

-- `_extract_handoff_mapping`, after its loop.
unfoldable pub block_mapping : Scan → Result (List String) (Dict String)
block_mapping scan =
    if not (is_empty scan.errors)
    then raise scan.errors
    else if is_empty scan.mapping
    then raise ("handoff block empty" ∷ [])
    else ok scan.mapping

abbrev pub read_block : Option (List String) → Result (List String) (Dict String)
read_block none = raise ("handoff block missing" ∷ [])
read_block (some lines) = block_mapping (read_lines start_scan lines)

-- `_extract_handoff_mapping`
unfoldable pub extract_handoff_mapping : String → Result (List String) (Dict String)
extract_handoff_mapping notes_text = read_block (after_start (split_lines notes_text))

abbrev pub is_missing : Dict String → String → Bool
is_missing mapping field = elim (lookup field mapping) [ none ↦ true | some v ↦ false ]

-- `mapping.get(field, "")`, with the error of a text that the expression does not match.
unfoldable pub parse_text : (String → Bool) → Option String → String → Checked String
parse_text matches none field = valid ""
parse_text matches (some text) field =
    if not (is_blank text) && not (matches text)
    then (text, append field " invalid" ∷ [])
    else valid text

-- `_parse_int_range`, on what `int` reads.
unfoldable pub check_int_range : Option ℤ → String → ℤ → ℤ → Checked ℤ
check_int_range none field_name min_value max_value = invalid field_name (pos 0)
check_int_range (some value) field_name min_value max_value =
    if ltb_ℤ value min_value || ltb_ℤ max_value value
    then invalid field_name (pos 0)
    else valid value

-- `_parse_int_range`
unfoldable pub parse_int_range : Option String → String → ℤ → ℤ → Checked ℤ
parse_int_range none field_name min_value max_value = valid (pos 0)
parse_int_range (some raw_value) field_name min_value max_value =
    check_int_range (read_int raw_value) field_name min_value max_value

-- `_parse_bool`
unfoldable pub parse_bool : Option String → String → Checked Bool
unfolding lower strip
parse_bool none field_name = valid false
parse_bool (some raw_value) field_name =
    let lowered = lower (strip is_space raw_value) in
    if text_eq lowered "true"
    then valid true
    else if text_eq lowered "false"
    then valid false
    else invalid field_name false

-- `_validate_mapping`: the payload and the errors.
unfoldable pub check_mapping : Dict String → Checked HandoffPayload
check_mapping mapping =
    let missing =
      map (λ field. append field " missing") (keep (is_missing mapping) required_fields) in
    let origin_id = parse_text id_matches (lookup "origin_id" mapping) "origin_id" in
    let bug_id = parse_text id_matches (lookup "bug_id" mapping) "bug_id" in
    let signature =
      parse_text signature_matches (lookup "error_signature" mapping) "error_signature" in
    let minutes =
      parse_int_range (lookup "expected_minutes" mapping) "expected_minutes" (pos 1) (pos 480) in
    let loc = parse_int_range (lookup "estimated_loc" mapping) "estimated_loc" (pos 1) (pos 5000) in
    let api = parse_bool (lookup "touches_api_or_schema" mapping) "touches_api_or_schema" in
    let security =
      parse_bool (lookup "touches_security_or_auth" mapping) "touches_security_or_auth" in
    let quick = parse_bool (lookup "quick_test_available" mapping) "quick_test_available" in
    (
      record {
        origin_id = origin_id.0;
        bug_id = bug_id.0;
        error_signature = signature.0;
        expected_minutes = minutes.0;
        estimated_loc = loc.0;
        touches_api_or_schema = api.0;
        touches_security_or_auth = security.0;
        quick_test_available = quick.0;
      },
      missing
          ++ (origin_id.1
              ++ (bug_id.1
                  ++ (signature.1
                      ++ (minutes.1 ++ (loc.1 ++ (api.1 ++ (security.1 ++ quick.1))))))),
    )

-- `_validate_mapping`
unfoldable pub validate_mapping : Dict String → Result (List String) HandoffPayload
validate_mapping mapping = raise_errors (check_mapping mapping)

-- `parse_handoff_block`, which raises the list of errors.
unfoldable pub parse_handoff_block : String → Result (List String) HandoffPayload
parse_handoff_block notes_text = extract_handoff_mapping notes_text >>= validate_mapping
