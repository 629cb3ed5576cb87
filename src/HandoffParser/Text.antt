-- ===== src/HandoffParser/Text.antt =====
-- src/watcher/handoff_parser.py: lines, the regular expressions and `_strip_quotes`.
use Prim.Native.Char.{Char, code}
use orchestrator_state_machi.Prelude.{
  String, Bool, true, false, ◌&&◌, ◌||◌, not, List, [], ◌∷◌, ◌==◌, if◌then◌else◌, Option, none,
  some,
}
use orchestrator_state_machi.Prelude.Text.{
  is_space, is_blank, strip, lstrip, starts, ends_with, between,
}
use orchestrator_state_machi.Prelude.Regex.{is_digit, is_lower, repeat_matches}

-- The characters that end a line for `str.splitlines`.
abbrev pub is_break : Char → Bool
is_break c = let n = code c in between 10 13 n || between 28 30 n || n == 133 || between 8232 8233 n

-- `bug-1.a`: the characters of an identifier, and those of a signature.
abbrev pub is_id_char : Char → Bool
is_id_char c = is_lower c || is_digit c || code c == b'.' || code c == b'-'

abbrev pub is_signature_char : Char → Bool
is_signature_char c = is_lower c || is_digit c || code c == b':' || code c == b'_' || code c == b'-'

-- The lines of a text, when its first line and the lines after are known.
abbrev pub following : String → String × List String → List String
following s lines = if is_blank s then [] else lines.0 ∷ lines.1

-- The first line of a text, and the lines after it. `\r\n` is one break.
unfoldable pub split_run : String → String × List String
split_run String.[] = (String.[], [])
split_run (String.◌∷◌ c s) =
    let run = split_run s in
    if code c == b'\r' && starts "\n" s
    then run
    else if is_break c
    then (String.[], following s run)
    else (String.◌∷◌ c run.0, run.1)

-- `s.splitlines()`
unfoldable pub split_lines : String → List String
unfolding split_run
split_lines s = following s (split_run s)

-- `ID_RE.match(s)`
unfoldable pub id_matches : String → Bool
unfolding repeat_matches
id_matches String.[] = false
id_matches (String.◌∷◌ c s) = (is_lower c || is_digit c) && repeat_matches is_id_char 1 63 s

-- `ERROR_SIGNATURE_RE.match(s)`
unfoldable pub signature_matches : String → Bool
unfolding repeat_matches
signature_matches s = repeat_matches is_signature_char 8 128 s

abbrev pub is_key_char : Char → Bool
is_key_char c = is_lower c || is_digit c || code c == b'_'

abbrev pub with_key_char : Char → Option (String × String) → Option (String × String)
with_key_char c none = none
with_key_char c (some (key, text)) = some (String.◌∷◌ c key, text)

-- `([a-z0-9_]+):` and the text behind it; the flag tells whether the group has a character yet.
unfoldable pub match_key : Bool → String → Option (String × String)
match_key some_ String.[] = none
match_key some_ (String.◌∷◌ c s) =
    let rest = match_key true s in
    if is_key_char c
    then with_key_char c rest
    else if some_ && code c == b':'
    then some (String.[], s)
    else none

-- `\s*(.*?)\s*$` behind the colon.
abbrev pub stripped : Option (String × String) → Option (String × String)
stripped none = none
stripped (some (key, text)) = some (key, strip is_space text)

-- `FIELD_LINE_RE.match(line)`: the two groups. A line has no newline, at which `.` would stop.
unfoldable pub match_field_line : String → Option (String × String)
unfolding match_key strip lstrip
match_field_line (String.◌∷◌ a (String.◌∷◌ b s)) =
    if is_space a && is_space b then stripped (match_key false (lstrip is_space s)) else none
match_field_line _ = none

-- `s[:-1]`
unfoldable pub drop_last : String → String
drop_last String.[] = String.[]
drop_last (String.◌∷◌ c s) =
    let rest = drop_last s in if is_blank s then String.[] else String.◌∷◌ c rest

-- `_strip_quotes`
unfoldable pub strip_quotes : String → String
unfolding drop_last strip
strip_quotes String.[] = String.[]
strip_quotes (String.◌∷◌ c s) =
    if not (is_blank s) && ends_with (code c) s && (code c == b'\'' || code c == b'"')
    then strip is_space (drop_last s)
    else String.◌∷◌ c s
