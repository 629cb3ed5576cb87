-- ===== src/HandoffParser/Payloads.antt =====
-- src/watcher/handoff_parser.py: what a payload that was parsed satisfies.
use orchestrator_state_machi.Prelude.{
  ◌≤◌, String, Bool, true, false, ◌||◌, List, [], ◌∷◌, append, ◌≡◌, refl, All, subst, Bool-cases,
  Option-cases, inl, inr, Option, some, none, arith, map, keep, ok, raise_errors, raise_errors-ok,
  append_nil_left, append_nil_right, >>=-eq-ok,
}
use orchestrator_state_machi.Prelude.Int.{ℤ, pos, ◌≤ℤ◌}
use orchestrator_state_machi.Prelude.Text.{is_blank}
use orchestrator_state_machi.Prelude.Dict.{Dict, lookup, AllValues, lookup-AllValues}
use orchestrator_state_machi.Prelude.Regex.{is_lower, is_digit, not_newline}
use orchestrator_state_machi.Prelude.Chars.{Chars, text_length, repeat_matches_iff}
use orchestrator_state_machi.HandoffParser.{
  extract_handoff_mapping, is_missing, parse_text, check_int_range, parse_int_range, HandoffPayload,
  check_mapping, validate_mapping, parse_handoff_block, required_fields,
}
use orchestrator_state_machi.HandoffParser.Text.{
  is_id_char, is_signature_char, id_matches, signature_matches,
}
use orchestrator_state_machi.HandoffParser.Stored.{IsStored, extract_handoff_mapping-AllValues}
use orchestrator_state_machi.Prelude.Decimal.{read_int}

abbrev pub starts_alphanumeric : String → Bool
starts_alphanumeric String.[] = false
starts_alphanumeric (String.◌∷◌ c s) = is_lower c || is_digit c

-- An identifier: of 2 to 64 of its characters, the first of which is a letter or a digit.
abbrev pub IsId : String → Type 0
IsId s =
    (starts_alphanumeric s ≡ true) × Chars is_id_char s × (2 ≤ text_length s) × (text_length s ≤ 64)

abbrev pub IsSignature : String → Type 0
IsSignature s = Chars is_signature_char s × (8 ≤ text_length s) × (text_length s ≤ 128)

pub record IsHandoff (p : HandoffPayload) : Type 0 where
  pub origin_id : IsId p.origin_id
  pub bug_id : IsId p.bug_id
  pub error_signature : IsSignature p.error_signature
  pub minutes : (pos 1 ≤ℤ p.expected_minutes) × (p.expected_minutes ≤ℤ pos 480)
  pub loc : (pos 1 ≤ℤ p.estimated_loc) × (p.estimated_loc ≤ℤ pos 5000)

id_matches-IsId : (s : String) → Chars not_newline s → id_matches s ≡ true → IsId s
unfolding id_matches
id_matches-IsId String.[] h m = cc
id_matches-IsId (String.◌∷◌ c s) h m =
    let (chars, lo, hi) =
      (repeat_matches_iff is_id_char 1 63 s (ground (arith, h)) (omega arith)).0
        (ground (arith, m)) in
    (ground (arith, m), ground (arith, m, chars), omega arith, omega arith)

signature_matches-IsSignature :
    (s : String) → Chars not_newline s → signature_matches s ≡ true → IsSignature s
unfolding signature_matches
signature_matches-IsSignature s h m =
    (repeat_matches_iff is_signature_char 8 128 s h (omega arith)).0 m

no_missing :
    (mapping : Dict String) (fields : List String)
    → map (λ field. append field " missing") (keep (is_missing mapping) fields) ≡ []
    → All (λ field. is_missing mapping field ≡ false) fields
no_missing mapping [] h = tt
no_missing mapping (field ∷ fields) h = elim (Bool-cases (is_missing mapping field)) [
  | inl missing ↦ cc (rw missing at h)
  | inr present ↦ (present, no_missing mapping fields (rw present at h))
]

present_value :
    (mapping : Dict String) (field : String)
    → is_missing mapping field ≡ false
    → (value : String) × (lookup field mapping ≡ some value)
present_value mapping field h = elim (Option-cases (lookup field mapping)) [
  | inl missing ↦ cc (rw (is_missing, missing) at h)
  | inr found ↦ found
]

text_matched :
    (matches : String → Bool) (value field : String)
    → is_blank value ≡ false
    → (parse_text matches (some value) field).1 ≡ []
    → ((parse_text matches (some value) field).0 ≡ value) × (matches value ≡ true)
unfolding parse_text
text_matched matches value field given h = elim (Bool-cases (matches value)) [
  | inl good ↦ rw (given, good) (refl, refl)
  | inr bad ↦ cc (rw (given, bad) at h)
]

-- The value of a field that reported no error.
text_field :
    (matches : String → Bool) (mapping : Dict String) (field : String)
    → AllValues IsStored mapping
    → is_missing mapping field ≡ false
    → (parse_text matches (lookup field mapping) field).1 ≡ []
    → let value = (parse_text matches (lookup field mapping) field).0 in
      Chars not_newline value × (matches value ≡ true)
text_field matches mapping field stored present h =
    let (value, found) = present_value mapping field present in
    let (given, chars) = lookup-AllValues IsStored field value mapping stored found in
    let (same, good) = text_matched matches value field given (rw found at h) in
    rw (found, same) (chars, good)

check_int_range-bounds :
    (read : Option ℤ) (field : String) (lo hi : ℤ)
    → (check_int_range read field lo hi).1 ≡ []
    → (lo ≤ℤ (check_int_range read field lo hi).0) × ((check_int_range read field lo hi).0 ≤ℤ hi)
unfolding check_int_range
check_int_range-bounds none field lo hi h = cc
check_int_range-bounds (some value) field lo hi h = ground arith

int_field :
    (mapping : Dict String) (field : String) (lo hi : ℤ)
    → is_missing mapping field ≡ false
    → (parse_int_range (lookup field mapping) field lo hi).1 ≡ []
    → let value = (parse_int_range (lookup field mapping) field lo hi).0 in
      (lo ≤ℤ value) × (value ≤ℤ hi)
unfolding parse_int_range
int_field mapping field lo hi present h =
    let (raw, found) = present_value mapping field present in
    rw found (check_int_range-bounds (read_int raw) field lo hi (rw found at h))

check_mapping-IsHandoff :
    (mapping : Dict String)
    → AllValues IsStored mapping
    → (check_mapping mapping).1 ≡ []
    → IsHandoff (check_mapping mapping).0
unfolding check_mapping
check_mapping-IsHandoff mapping stored h =
    let (origin, m₁) = no_missing mapping required_fields (append_nil_left _ _ h) in
    let (bug, m₂) = m₁ in
    let (signature, m₃) = m₂ in
    let (minutes, m₄) = m₃ in
    let loc = m₄.0 in
    let e₁ = append_nil_right _ _ h in
    let e₂ = append_nil_right _ _ e₁ in
    let e₃ = append_nil_right _ _ e₂ in
    let e₄ = append_nil_right _ _ e₃ in
    let e₅ = append_nil_right _ _ e₄ in
    let (origin_chars, origin_id) =
      text_field id_matches mapping "origin_id" stored origin (append_nil_left _ _ e₁) in
    let (bug_chars, bug_id) =
      text_field id_matches mapping "bug_id" stored bug (append_nil_left _ _ e₂) in
    let (chars, matched) =
      text_field signature_matches mapping "error_signature" stored signature
        (append_nil_left _ _ e₃) in
    record {
      origin_id = id_matches-IsId _ origin_chars origin_id;
      bug_id = id_matches-IsId _ bug_chars bug_id;
      error_signature = signature_matches-IsSignature _ chars matched;
      minutes =
          int_field mapping "expected_minutes" (pos 1) (pos 480) minutes (append_nil_left _ _ e₄);
      loc = int_field mapping "estimated_loc" (pos 1) (pos 5000) loc (append_nil_left _ _ e₅);
    }

validate_mapping-checked :
    (mapping : Dict String) {payload : HandoffPayload}
    → validate_mapping mapping ≡ ok payload
    → raise_errors (check_mapping mapping) ≡ ok payload
unfolding validate_mapping
validate_mapping-checked mapping h = h

-- A block that is parsed gives two identifiers of 2 to 64 lower-case letters, digits, dots and dashes,
-- a letter or a digit first; a signature of 8 to 128 lower-case letters, digits, colons, underscores
-- and dashes; 1 to 480 minutes; and 1 to 5000 lines of code.
pub parse_handoff_block-IsHandoff :
    (notes_text : String) {payload : HandoffPayload}
    → parse_handoff_block notes_text ≡ ok payload
    → IsHandoff payload
unfolding parse_handoff_block
parse_handoff_block-IsHandoff notes_text parsed =
    let (mapping, extracted, checked) =
      >>=-eq-ok (extract_handoff_mapping notes_text) validate_mapping parsed in
    let (none_wrong, same) =
      raise_errors-ok (check_mapping mapping) (validate_mapping-checked mapping checked) in
    subst IsHandoff same (
      check_mapping-IsHandoff mapping
        (extract_handoff_mapping-AllValues notes_text mapping extracted) none_wrong)
