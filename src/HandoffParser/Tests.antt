-- ===== src/HandoffParser/Tests.antt =====
-- Runs of src/watcher/handoff_parser.py on concrete notes.
use orchestrator_state_machi.Prelude.{true, false, [], ◌∷◌, String, ◌≡◌, refl, ok, raise, valid}
use orchestrator_state_machi.Prelude.Text.{is_space, strip}
use orchestrator_state_machi.Prelude.Int.{pos}
use orchestrator_state_machi.Prelude.Decimal.{read_int, read_signed, read_digits, digit_value}
use orchestrator_state_machi.Prelude.Dict.{insert, lookup}
use orchestrator_state_machi.HandoffParser.Payloads.{IsHandoff, parse_handoff_block-IsHandoff}
use orchestrator_state_machi.HandoffParser.{
  HandoffPayload, parse_handoff_block, extract_handoff_mapping, after_start, read_lines,
  block_mapping, validate_mapping, check_mapping, parse_text, parse_int_range, check_int_range,
  parse_bool,
}
use orchestrator_state_machi.HandoffParser.Text.{split_lines, id_matches, signature_matches}

lines_test : split_lines "a\r\nb\n\nc\n" ≡ "a" ∷ "b" ∷ "" ∷ "c" ∷ []
unfolding split_lines
lines_test = refl

abbrev notes : String
notes =
    "see\nhandoff:\n  origin_id: or-1\n  bug_id: 'bd-22'\n  error_signature: \"abc:defg\"\n\n  expected_minutes: 30\n  estimated_loc: 1_00\n  touches_api_or_schema: True\n  touches_security_or_auth: false\n  quick_test_available: true\ndone\n  ignored\n"

abbrev parsed : HandoffPayload
parsed = record {
  origin_id = "or-1";
  bug_id = "bd-22";
  error_signature = "abc:defg";
  expected_minutes = pos 30;
  estimated_loc = pos 100;
  touches_api_or_schema = true;
  touches_security_or_auth = false;
  quick_test_available = true;
}

parse_test : parse_handoff_block notes ≡ ok parsed
unfolding parse_handoff_block extract_handoff_mapping split_lines after_start read_lines
    block_mapping validate_mapping check_mapping parse_text id_matches signature_matches
    parse_int_range check_int_range parse_bool is_space insert lookup read_int read_signed
    read_digits digit_value
parse_test = refl

malformed_test :
    parse_handoff_block "handoff:\n a: b\n  bug_id:\n"
    ≡ raise ("malformed handoff field line: a: b" ∷ "bug_id missing value" ∷ [])
unfolding parse_handoff_block extract_handoff_mapping split_lines after_start read_lines
    block_mapping validate_mapping check_mapping parse_text id_matches signature_matches
    parse_int_range check_int_range parse_bool is_space insert lookup read_int read_signed
    read_digits digit_value
malformed_test = refl

parse_handoff_block-IsHandoff_example : IsHandoff parsed
parse_handoff_block-IsHandoff_example = parse_handoff_block-IsHandoff notes parse_test

-- A Devanagari digit is read as a number too.
digits_test : check_int_range (read_int "३") "expected_minutes" (pos 1) (pos 480) ≡ valid (pos 3)
unfolding check_int_range read_int strip is_space read_signed read_digits digit_value
digits_test = refl
