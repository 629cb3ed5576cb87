-- ===== src/WorkerAdapter/RoundTrip.antt =====
-- src/watcher/worker_adapter.py: the parser of src/watcher/handoff_parser.py reads the block.
use Prim.Native.Char.{Char, code}
use orchestrator_state_machi.Prelude.{
  ◌≤◌, String, Bool, true, false, [], ◌∷◌, ◌≡◌, refl, All, ap, ◌∙◌, ◌==◌, inl, inr, Bool-cases,
  some, arith, ok, raise_errors, valid,
}
use orchestrator_state_machi.Prelude.Int.{ℤ, pos, negsuc, ◌≤ℤ◌}
use orchestrator_state_machi.Prelude.Text.{is_space, is_blank}
use orchestrator_state_machi.Prelude.Dict.{lookup, insert}
use orchestrator_state_machi.Prelude.Regex.{is_digit, not_newline}
use orchestrator_state_machi.Prelude.Decimal.{
  read_int, show_ℕ, show_ℤ, show_ℕ-digits, show_ℕ-some, read_int-show_ℕ,
}
use orchestrator_state_machi.Prelude.Chars.{Chars, Chars-mono, repeat_matches_iff}
use orchestrator_state_machi.HandoffParser.{
  HandoffPayload, start_scan, block_mapping, parse_text, parse_int_range, check_int_range,
  parse_bool, check_mapping, validate_mapping, parse_handoff_block,
}
use orchestrator_state_machi.HandoffParser.Text.{
  is_key_char, is_id_char, is_signature_char, id_matches, signature_matches,
}
use orchestrator_state_machi.HandoffParser.Fields.{is_plain}
use orchestrator_state_machi.HandoffParser.Payloads.{IsId, IsSignature, IsHandoff}
use orchestrator_state_machi.WorkerAdapter.Block.{
  Entries, IsEntry, block_text, store_all, extract_handoff_mapping-block_text,
}
use orchestrator_state_machi.WorkerAdapter.{with_line, show_flag, emit_worker_handoff_block}

-- The printed characters of ASCII are plain, but for the quotation marks.
code_plain : (c : Char) → 35 ≤ code c → code c ≤ 126 → (code c == b'\'') ≡ false → is_plain c ≡ true
unfolding is_space
code_plain c lo hi quote = ground arith

digit_plain : (c : Char) → is_digit c ≡ true → is_plain c ≡ true
digit_plain c h = code_plain c (ground (arith, h)) (ground (arith, h)) (ground (arith, h))

id_char_plain : (c : Char) → is_id_char c ≡ true → is_plain c ≡ true
id_char_plain c h = code_plain c (ground (arith, h)) (ground (arith, h)) (ground (arith, h))

signature_char_plain : (c : Char) → is_signature_char c ≡ true → is_plain c ≡ true
signature_char_plain c h = code_plain c (ground (arith, h)) (ground (arith, h)) (ground (arith, h))

id_char_no_newline : (c : Char) → is_id_char c ≡ true → not_newline c ≡ true
id_char_no_newline c h = ground arith

signature_char_no_newline : (c : Char) → is_signature_char c ≡ true → not_newline c ≡ true
signature_char_no_newline c h = ground arith

-- The values that are written: neither empty nor with white space or quotation marks in them.
abbrev IsWritten : String → Type 0
IsWritten s = Chars is_plain s × (is_blank s ≡ false)

IsId-IsWritten : (s : String) → IsId s → IsWritten s
IsId-IsWritten String.[] h = cc
IsId-IsWritten (String.◌∷◌ c s) (first, chars, lo, hi) =
    (Chars-mono is_id_char is_plain id_char_plain (String.◌∷◌ c s) chars, refl)

IsSignature-IsWritten : (s : String) → IsSignature s → IsWritten s
IsSignature-IsWritten String.[] (chars, lo, hi) = absurd (omega arith)
IsSignature-IsWritten (String.◌∷◌ c s) (chars, lo, hi) =
    (Chars-mono is_signature_char is_plain signature_char_plain (String.◌∷◌ c s) chars, refl)

show_ℤ-IsWritten : (n : ℤ) → pos 1 ≤ℤ n → IsWritten (show_ℤ n)
unfolding show_ℤ
show_ℤ-IsWritten (pos n) h =
    (Chars-mono is_digit is_plain digit_plain (show_ℕ n) (show_ℕ-digits n), show_ℕ-some n)
show_ℤ-IsWritten (negsuc n) h = absurd (omega arith)

show_flag-IsWritten : (b : Bool) → IsWritten (show_flag b)
unfolding show_flag is_space
show_flag-IsWritten true = (refl, refl)
show_flag-IsWritten false = (refl, refl)

-- Each value is read back.
parse_text-good :
    (matches : String → Bool) (value field : String)
    → matches value ≡ true
    → parse_text matches (some value) field ≡ valid value
unfolding parse_text
parse_text-good matches value field good = elim (Bool-cases (is_blank value)) [
  | inl empty ↦ rw empty refl
  | inr given ↦ rw (given, good) refl
]

IsId-id_matches : (s : String) → IsId s → id_matches s ≡ true
unfolding id_matches
IsId-id_matches String.[] h = cc
IsId-id_matches (String.◌∷◌ c s) (first, chars, lo, hi) = rw first (
    (repeat_matches_iff is_id_char 1 63 s
        (Chars-mono is_id_char not_newline id_char_no_newline s (ground (arith, chars)))
        (omega arith)).1
      (ground (arith, chars), omega arith, omega arith))

IsSignature-signature_matches : (s : String) → IsSignature s → signature_matches s ≡ true
unfolding signature_matches
IsSignature-signature_matches s (chars, lo, hi) =
    (repeat_matches_iff is_signature_char 8 128 s
        (Chars-mono is_signature_char not_newline signature_char_no_newline s chars)
        (omega arith)).1
      (chars, lo, hi)

read_int-show_ℤ : (n : ℤ) → pos 1 ≤ℤ n → read_int (show_ℤ n) ≡ some n
unfolding show_ℤ
read_int-show_ℤ (pos n) h = read_int-show_ℕ n
read_int-show_ℤ (negsuc n) h = absurd (omega arith)

check_int_range-good :
    (n : ℤ) (field : String) (lo hi : ℤ)
    → lo ≤ℤ n
    → n ≤ℤ hi
    → check_int_range (some n) field lo hi ≡ valid n
unfolding check_int_range
check_int_range-good n field lo hi above below = ground arith

parse_int_range-show_ℤ :
    (n : ℤ) (field : String) (hi : ℤ)
    → pos 1 ≤ℤ n
    → n ≤ℤ hi
    → parse_int_range (some (show_ℤ n)) field (pos 1) hi ≡ valid n
unfolding parse_int_range
parse_int_range-show_ℤ n field hi above below =
    ap (λ read. check_int_range read field (pos 1) hi) (read_int-show_ℤ n above)
    ∙ check_int_range-good n field (pos 1) hi above below

parse_bool-show_flag : (b : Bool) (field : String) → parse_bool (some (show_flag b)) field ≡ valid b
unfolding parse_bool show_flag is_space
parse_bool-show_flag true field = refl
parse_bool-show_flag false field = refl

abbrev entries : HandoffPayload → Entries
entries p =
    ("origin_id", p.origin_id)
    ∷ ("bug_id", p.bug_id)
    ∷ ("error_signature", p.error_signature)
    ∷ ("expected_minutes", show_ℤ p.expected_minutes)
    ∷ ("estimated_loc", show_ℤ p.estimated_loc)
    ∷ ("touches_api_or_schema", show_flag p.touches_api_or_schema)
    ∷ ("touches_security_or_auth", show_flag p.touches_security_or_auth)
    ∷ ("quick_test_available", show_flag p.quick_test_available)
    ∷ []

emit_worker_handoff_block-entries :
    (p : HandoffPayload)
    → emit_worker_handoff_block p ≡ with_line "handoff:" (block_text (entries p))
unfolding emit_worker_handoff_block block_text
emit_worker_handoff_block-entries p = refl

entries-IsEntry : (p : HandoffPayload) → IsHandoff p → All IsEntry (entries p)
entries-IsEntry p h =
    let written : (key value : String)
        → Chars is_key_char key
        → is_blank key ≡ false
        → IsWritten value
        → IsEntry (key, value) =
      λ key value chars some_ w. (chars, some_, w.0, w.1) in
    (
      written "origin_id" p.origin_id refl refl (IsId-IsWritten p.origin_id h.origin_id),
      (
        written "bug_id" p.bug_id refl refl (IsId-IsWritten p.bug_id h.bug_id),
        (
          written "error_signature" p.error_signature refl refl
              (IsSignature-IsWritten p.error_signature h.error_signature),
          (
            written "expected_minutes" (show_ℤ p.expected_minutes) refl refl
                (show_ℤ-IsWritten p.expected_minutes (h.minutes.0)),
            (
              written "estimated_loc" (show_ℤ p.estimated_loc) refl refl
                  (show_ℤ-IsWritten p.estimated_loc (h.loc.0)),
              (
                written "touches_api_or_schema" (show_flag p.touches_api_or_schema) refl refl
                    (show_flag-IsWritten p.touches_api_or_schema),
                (
                  written "touches_security_or_auth" (show_flag p.touches_security_or_auth) refl
                      refl (show_flag-IsWritten p.touches_security_or_auth),
                  (
                    written "quick_test_available" (show_flag p.quick_test_available) refl refl
                        (show_flag-IsWritten p.quick_test_available),
                    tt,
                  ),
                ),
              ),
            ),
          ),
        ),
      ),
    )

-- The mapping of the block is the list of its keys and values.
block_mapping-entries :
    (p : HandoffPayload) → block_mapping (store_all start_scan (entries p)) ≡ ok (entries p)
unfolding block_mapping store_all insert
block_mapping-entries p = refl

check_mapping-entries : (p : HandoffPayload) → IsHandoff p → check_mapping (entries p) ≡ valid p
unfolding check_mapping lookup
check_mapping-entries p h =
    rw
      (
        parse_text-good id_matches p.origin_id "origin_id"
            (IsId-id_matches p.origin_id h.origin_id),
        parse_text-good id_matches p.bug_id "bug_id" (IsId-id_matches p.bug_id h.bug_id),
        parse_text-good signature_matches p.error_signature "error_signature"
            (IsSignature-signature_matches p.error_signature h.error_signature),
        parse_int_range-show_ℤ p.expected_minutes "expected_minutes" (pos 480) (h.minutes.0)
            (h.minutes.1),
        parse_int_range-show_ℤ p.estimated_loc "estimated_loc" (pos 5000) (h.loc.0) (h.loc.1),
        parse_bool-show_flag p.touches_api_or_schema "touches_api_or_schema",
        parse_bool-show_flag p.touches_security_or_auth "touches_security_or_auth",
        parse_bool-show_flag p.quick_test_available "quick_test_available",
      )
      refl

-- What a worker writes for a payload within the limits of the parser, the parser reads as that
-- payload.
pub parse_handoff_block-emit_worker_handoff_block :
    (p : HandoffPayload) → IsHandoff p → parse_handoff_block (emit_worker_handoff_block p) ≡ ok p
unfolding parse_handoff_block validate_mapping
parse_handoff_block-emit_worker_handoff_block p h =
    rw
      (
        emit_worker_handoff_block-entries p,
        extract_handoff_mapping-block_text (entries p) (entries-IsEntry p h),
        block_mapping-entries p,
      )
      (ap raise_errors (check_mapping-entries p h))
