-- ===== src/PolicyContract/Values.antt =====
-- src/watcher/policy_contract.py: the checks on single values.
use orchestrator_state_machi.Prelude.{Result, ok, raise}
use orchestrator_state_machi.Prelude.Json.{float_overflows}
use Prim.Native.Char.{Char, code}
use orchestrator_state_machi.Prelude.{
  Checked, valid, invalid, ℕ, ◌+◌, ◌*◌, ◌-◌, String, Bool, true, false, ◌&&◌, ◌||◌, not, List, [],
  ◌∷◌, ◌++◌, contains, ◌==◌, if◌then◌else◌,
}
use orchestrator_state_machi.Prelude.Regex.{at_end, is_digit}
use orchestrator_state_machi.Prelude.Int.{ℤ, pos, ltb_ℤ}
use orchestrator_state_machi.Prelude.Text.{is_space, is_blank, strip, between}
use orchestrator_state_machi.Prelude.Json.{
  Float, finite, Value, int, float, str, list, Items, nil, cons, lt_fraction, gt_fraction,
}

-- WEEKDAY_VALUES
abbrev pub weekday_values : List String
weekday_values = "Mon" ∷ "Tue" ∷ "Wed" ∷ "Thu" ∷ "Fri" ∷ "Sat" ∷ "Sun" ∷ []

-- `[01][0-9]|2[0-3]` on two characters.
abbrev pub is_hour : Char → Char → Bool
is_hour a b =
    (between b'0' b'1' (code a) && is_digit b) || (code a == b'2' && between b'0' b'3' (code b))

-- `TIME_RE.match(s)`
unfoldable pub time_matches : String → Bool
unfolding at_end
time_matches (String.◌∷◌ a (String.◌∷◌ b (String.◌∷◌ c (String.◌∷◌ d (String.◌∷◌ e s))))) =
    is_hour a b && code c == b':' && between b'0' b'5' (code d) && is_digit e && at_end s
time_matches _ = false

-- `_hhmm_to_minutes`, on a text of the form that `time_matches` accepts.
unfoldable pub hhmm_to_minutes : String → ℕ
hhmm_to_minutes (String.◌∷◌ a (String.◌∷◌ b (String.◌∷◌ c (String.◌∷◌ d (String.◌∷◌ e s))))) =
    ((code a - 48) * 10 + (code b - 48)) * 60 + ((code d - 48) * 10 + (code e - 48))
hhmm_to_minutes _ = 0

abbrev is_letter : Char → Bool
is_letter c = between b'a' b'z' (code c) || between b'A' b'Z' (code c) || code c == b'_'

-- `[A-Za-z0-9_+.-]`
abbrev is_zone_char : Char → Bool
is_zone_char c = is_letter c || is_digit c || code c == b'+' || code c == b'.' || code c == b'-'

-- Where a match of TIMEZONE_RE is: in the first part, or in a part behind a slash; the flag tells
-- whether that part has a character yet.
pub data ZonePart : Type 0 where
  first_part : Bool → ZonePart
  later_part : Bool → ZonePart

-- `TIMEZONE_RE.match(s)`, from such a place.
unfoldable pub zone_matches : ZonePart → String → Bool
zone_matches (first_part some_) String.[] = false
zone_matches (later_part some_) String.[] = some_
zone_matches (first_part some_) (String.◌∷◌ c s) =
    if is_letter c
    then zone_matches (first_part true) s
    else (let rest = zone_matches (later_part false) s in
        if some_ && code c == b'/' then rest else false)
zone_matches (later_part some_) (String.◌∷◌ c s) =
    if is_zone_char c
    then zone_matches (later_part true) s
    else (let rest = zone_matches (later_part false) s in
        if some_ && code c == b'/' then rest else some_ && code c == b'\n' && is_blank s)

-- `_validate_timezone`
unfoldable pub validate_timezone : Value → Checked String
unfolding strip zone_matches
validate_timezone (str s) =
    let value = strip is_space s in
    if is_blank value
    then invalid "timezone" ""
    else if not (zone_matches (first_part false) value)
    then invalid "timezone" ""
    else valid value
validate_timezone _ = invalid "timezone" ""

-- The loop of `_validate_weekdays`; `parsed` is what it has read, and `seen` is its set.
unfoldable pub parse_weekdays : List String → Items → Checked (List String)
parse_weekdays parsed nil = valid parsed
parse_weekdays parsed (cons (str value) xs) =
    let rest = parse_weekdays (parsed ++ (value ∷ [])) xs in
    if not (contains weekday_values value)
    then invalid "business_hours.weekdays" []
    else if contains parsed value
    then ([], "business_hours.weekdays duplicate" ∷ [])
    else rest
parse_weekdays parsed (cons _ xs) = invalid "business_hours.weekdays" []

-- `_validate_weekdays`
unfoldable pub validate_weekdays : Value → Checked (List String)
unfolding parse_weekdays
validate_weekdays (list (cons x xs)) = parse_weekdays [] (cons x xs)
validate_weekdays _ = invalid "business_hours.weekdays" []

-- `_validate_hhmm`
unfoldable pub validate_hhmm : Value → String → Checked String
unfolding strip time_matches
validate_hhmm (str s) field_name =
    let value = strip is_space s in
    if not (time_matches value) then invalid field_name "" else valid value
validate_hhmm _ field_name = invalid field_name ""

-- `_validate_int_min`
unfoldable pub validate_int_min : Value → String → ℤ → Checked ℤ
validate_int_min (int n) field_name minimum =
    if ltb_ℤ n minimum then invalid field_name (pos 0) else valid n
validate_int_min _ field_name minimum = invalid field_name (pos 0)

-- `_validate_int_range`
unfoldable pub validate_int_range : Value → String → ℤ → ℤ → Checked ℤ
validate_int_range (int n) field_name minimum maximum =
    if ltb_ℤ n minimum || ltb_ℤ maximum n then invalid field_name (pos 0) else valid n
validate_int_range _ field_name minimum maximum = invalid field_name (pos 0)

-- The loop of `_validate_int_list_min_one`.
unfoldable pub parse_positive : String → List ℤ → Items → Checked (List ℤ)
parse_positive field_name values nil = valid values
parse_positive field_name values (cons (int n) xs) =
    let rest = parse_positive field_name (values ++ (n ∷ [])) xs in
    if ltb_ℤ n (pos 1) then invalid field_name [] else rest
parse_positive field_name values (cons _ xs) = invalid field_name []

-- `_validate_int_list_min_one`
unfoldable pub validate_int_list_min_one : Value → String → Checked (List ℤ)
unfolding parse_positive
validate_int_list_min_one (list (cons x xs)) field_name = parse_positive field_name [] (cons x xs)
validate_int_list_min_one _ field_name = invalid field_name []

-- `value < minimum or value > maximum` on floats, for whole bounds that are not negative.
abbrev pub out_of_range : Float → ℕ → ℕ → Bool
out_of_range x minimum maximum = lt_fraction x minimum 0 || gt_fraction x maximum 0

abbrev pub zero_float : Float
zero_float = finite (pos 0) 0

-- What the validation raises: a PolicyValidationError, by its list of errors, or the OverflowError of
-- an integer that is too large for a float.
pub data PolicyError : Type 0 where
  policy_errors : List String → PolicyError
  overflow_error : PolicyError

-- The range test of `_validate_numeric_range`.
unfoldable pub check_range : Float → String → ℕ → ℕ → Checked Float
check_range x field_name minimum maximum =
    if out_of_range x minimum maximum then invalid field_name zero_float else valid x

-- `_validate_numeric_range`. An integer that is no float exactly is far out of range, as is the float.
unfoldable pub validate_numeric_range : Value → String → ℕ → ℕ → Result PolicyError (Checked Float)
unfolding check_range
validate_numeric_range (int n) field_name minimum maximum =
    if float_overflows n
    then raise overflow_error
    else ok (check_range (finite n 0) field_name minimum maximum)
validate_numeric_range (float x) field_name minimum maximum =
    ok (check_range x field_name minimum maximum)
validate_numeric_range _ field_name minimum maximum = ok (invalid field_name zero_float)
