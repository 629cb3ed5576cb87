-- ===== src/HandoffParser/Stored.antt =====
-- src/watcher/handoff_parser.py: what the loop over the lines stores.
use Prim.Native.Char.{Char, code}
use mathlib.Core.Option.{none-ne-some, some-injective}
use orchestrator_state_machi.Prelude.{
  String, Bool, true, false, ◌&&◌, List, [], ◌∷◌, ◌≡◌, refl, All, ap, subst, ◌==◌, Bool-cases,
  Option-cases, inl, inr, Option, some, none, arith, is_empty, ok, ok_injective, raise-ne-ok,
  text_eq, sym,
}
use orchestrator_state_machi.Prelude.Text.{is_space, is_blank, strip, lstrip, starts}
use orchestrator_state_machi.Prelude.Dict.{Dict, AllValues, insert-AllValues}
use orchestrator_state_machi.Prelude.Regex.{not_newline}
use orchestrator_state_machi.Prelude.Chars.{Chars, strip-Chars, lstrip-Chars}
use orchestrator_state_machi.HandoffParser.{
  Scan, store_value, read_field, read_line, read_lines, after_start, extract_handoff_mapping,
  block_mapping, start_scan,
}
use orchestrator_state_machi.HandoffParser.Text.{
  is_key_char, with_key_char, match_key, stripped, match_field_line, drop_last, strip_quotes,
  split_lines,
}
use orchestrator_state_machi.HandoffParser.Lines.{OneLine, split_lines-OneLine}
use orchestrator_state_machi.HandoffParser.Fields.{read_field-found}

-- A value of the mapping: not empty, and with no newline.
abbrev pub IsStored : String → Type 0
IsStored s = (is_blank s ≡ false) × Chars not_newline s

-- Nothing that the loop stores has a newline.
with_key_char-some :
    (c : Char) (found : Option (String × String)) (key text : String)
    → with_key_char c found ≡ some (key, text)
    → (key₁ : String) × (found ≡ some (key₁, text))
with_key_char-some c none key text e = cc
with_key_char-some c (some (key₁, text₁)) key text e =
    (key₁, ap (λ pair. some (key₁, pair.1)) (some-injective _ _ e))

match_key-Chars :
    (some_ : Bool) (s key text : String)
    → Chars not_newline s
    → match_key some_ s ≡ some (key, text)
    → Chars not_newline text
unfolding match_key
match_key-Chars some_ String.[] key text h e = cc
match_key-Chars some_ (String.◌∷◌ c s) key text h e = elim (Bool-cases (is_key_char c)) [
  | inl more ↦
      let (key₁, below) = with_key_char-some c (match_key true s) key text (rw more at e) in
      match_key-Chars true s key₁ text (ground (arith, h)) below
  | inr stop ↦ elim (Bool-cases (some_ && code c == b':')) [
    | inl colon ↦
        subst (Chars not_newline) (ap (λ pair. pair.1) (some-injective _ _ (rw (stop, colon) at e)))
          (ground (arith, h))
    | inr other ↦ absurd (none-ne-some _ (rw (stop, other) at e))
  ]
]

drop_last-Chars : (s : String) → Chars not_newline s → Chars not_newline (drop_last s)
unfolding drop_last
drop_last-Chars String.[] h = h
drop_last-Chars (String.◌∷◌ c s) h = ground (arith, drop_last-Chars s)

strip_quotes-Chars : (s : String) → Chars not_newline s → Chars not_newline (strip_quotes s)
unfolding strip_quotes
strip_quotes-Chars String.[] h = h
strip_quotes-Chars (String.◌∷◌ c s) h =
    let dropped =
      strip-Chars not_newline is_space (drop_last s) (drop_last-Chars s (ground (arith, h))) in
    ground (arith, h, dropped)

stripped-Chars :
    (found : Option (String × String)) (key text : String)
    → ((key₁ text₁ : String) → found ≡ some (key₁, text₁) → Chars not_newline text₁)
    → stripped found ≡ some (key, text)
    → Chars not_newline text
stripped-Chars none key text h e = cc
stripped-Chars (some (key₁, text₁)) key text h e =
    subst (Chars not_newline) (ap (λ pair. pair.1) (some-injective _ _ e))
      (strip-Chars not_newline is_space text₁ (h key₁ text₁ refl))

match_field_line-Chars :
    (line key text : String)
    → Chars not_newline line
    → match_field_line line ≡ some (key, text)
    → Chars not_newline text
unfolding match_field_line
match_field_line-Chars String.[] key text h e = cc
match_field_line-Chars (String.◌∷◌ a String.[]) key text h e = cc
match_field_line-Chars (String.◌∷◌ a (String.◌∷◌ b s)) key text h e =
    elim (Bool-cases (is_space a && is_space b)) [
      | inl lead ↦
          stripped-Chars (match_key false (lstrip is_space s)) key text
            (λ key₁ text₁ m.
              match_key-Chars false (lstrip is_space s) key₁ text₁
                (lstrip-Chars not_newline is_space s (ground (arith, h))) m)
            (rw lead at e)
      | inr other ↦ absurd (none-ne-some _ (rw other at e))
    ]

-- The state of the loop, with values that are not empty and have no newline.
unfoldable pub IsScan : Scan → Type 0
IsScan scan = AllValues IsStored scan.mapping

store_value-IsScan :
    (scan : Scan) (key raw_value : String)
    → IsScan scan
    → Chars not_newline raw_value
    → IsScan (store_value scan key raw_value)
unfolding store_value IsScan
store_value-IsScan scan key raw_value h chars = elim (Bool-cases (is_blank raw_value)) [
  | inl empty ↦ rw empty h
  | inr given ↦ rw given (insert-AllValues IsStored key raw_value scan.mapping (given, chars) h)
]

read_field-IsScan :
    (scan : Scan) (line : String)
    → IsScan scan
    → Chars not_newline line
    → IsScan (read_field scan line)
unfolding IsScan read_field
read_field-IsScan scan line h chars = elim (Option-cases (match_field_line line)) [
  | inl malformed ↦ rw (read_field, malformed) h
  | inr ((key, text), found) ↦ subst IsScan (sym (read_field-found scan line key text found)) (
      store_value-IsScan scan key (strip_quotes (strip is_space text)) h (
        strip_quotes-Chars (strip is_space text) (
          strip-Chars not_newline is_space text
            (match_field_line-Chars line key text chars found))))
]

read_line-IsScan :
    (scan : Scan) (line : String) {next : Scan}
    → IsScan scan
    → Chars not_newline line
    → read_line scan line ≡ some next
    → IsScan next
unfolding read_line IsScan
read_line-IsScan scan line h chars e = elim (Bool-cases (is_blank (strip is_space line))) [
  | inl blank ↦ subst IsScan (some-injective _ _ (rw blank at e)) h
  | inr text ↦ elim (Bool-cases (starts " " line)) [
    | inl indented ↦
        subst IsScan (some-injective _ _ (rw (text, indented) at e))
          (read_field-IsScan scan line h chars)
    | inr margin ↦ elim (Bool-cases (scan.consumed)) [
      | inl after ↦ absurd (none-ne-some _ (rw (text, margin, after) at e))
      | inr before ↦ subst IsScan (some-injective _ _ (rw (text, margin, before) at e)) h
    ]
  ]
]

read_lines-IsScan :
    (scan : Scan) (lines : List String)
    → IsScan scan
    → All (Chars not_newline) lines
    → IsScan (read_lines scan lines)
unfolding read_lines
read_lines-IsScan scan [] h hs = h
read_lines-IsScan scan (line ∷ lines) h (here, below) = elim (Option-cases (read_line scan line)) [
  | inl break ↦ rw (read_lines, break) h
  | inr (next, read) ↦
      rw (read_lines, read)
        (read_lines-IsScan next lines (read_line-IsScan scan line h here read) below)
]

after_start-All :
    (lines block : List String)
    → All (Chars not_newline) lines
    → after_start lines ≡ some block
    → All (Chars not_newline) block
unfolding after_start
after_start-All [] block h e = cc
after_start-All (line ∷ lines) block (here, below) e =
    elim (Bool-cases (text_eq (strip is_space line) "handoff:")) [
      | inl start ↦ subst (All (Chars not_newline)) (some-injective _ _ (rw start at e)) below
      | inr other ↦ after_start-All lines block below (rw other at e)
    ]

one_line_no_newline : (s : String) → OneLine s → Chars not_newline s
one_line_no_newline String.[] h = refl
one_line_no_newline (String.◌∷◌ c s) h = ground (arith, one_line_no_newline s)

All-no_newline : (lines : List String) → All OneLine lines → All (Chars not_newline) lines
All-no_newline [] h = tt
All-no_newline (line ∷ lines) (here, below) =
    (one_line_no_newline line here, All-no_newline lines below)

block_mapping-AllValues :
    (scan : Scan) (mapping : Dict String)
    → IsScan scan
    → block_mapping scan ≡ ok mapping
    → AllValues IsStored mapping
unfolding block_mapping IsScan
block_mapping-AllValues scan mapping h e = elim (Bool-cases (is_empty scan.errors)) [
  | inl fine ↦ elim (Bool-cases (is_empty scan.mapping)) [
    | inl empty ↦ absurd (raise-ne-ok (rw (fine, empty) at e))
    | inr some_ ↦ subst (AllValues IsStored) (ok_injective (rw (fine, some_) at e)) h
  ]
  | inr wrong ↦ absurd (raise-ne-ok (rw wrong at e))
]

-- Every value of the mapping is not empty and has no newline.
pub extract_handoff_mapping-AllValues :
    (notes_text : String) (mapping : Dict String)
    → extract_handoff_mapping notes_text ≡ ok mapping
    → AllValues IsStored mapping
unfolding extract_handoff_mapping IsScan
extract_handoff_mapping-AllValues notes_text mapping e =
    elim (Option-cases (after_start (split_lines notes_text))) [
      | inl none_ ↦ absurd (raise-ne-ok (rw (none_) at e))
      | inr (lines, started) ↦
          let fine =
            after_start-All (split_lines notes_text) lines
              (All-no_newline _ (split_lines-OneLine notes_text)) started in
          block_mapping-AllValues (read_lines start_scan lines) mapping
            (read_lines-IsScan start_scan lines tt fine) (rw started at e)
    ]
