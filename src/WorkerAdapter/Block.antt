-- ===== src/WorkerAdapter/Block.antt =====
-- src/watcher/worker_adapter.py: a block of field lines is split into its lines and read.
use Prim.Native.Char.{Char}
use orchestrator_state_machi.Prelude.{
  String, true, false, not, List, [], ◌∷◌, ◌≡◌, refl, All, ap, ◌∙◌, inl, inr, Bool-cases, some,
  arith, map,
}
use orchestrator_state_machi.Prelude.Text.{is_space, is_blank, all_chars-append}
use orchestrator_state_machi.Prelude.Dict.{insert}
use orchestrator_state_machi.Prelude.Chars.{Chars, Chars-mono}
use orchestrator_state_machi.HandoffParser.{
  Scan, start_scan, read_line, read_lines, after_start, block_mapping, extract_handoff_mapping,
}
use orchestrator_state_machi.HandoffParser.Text.{is_key_char, is_break, split_lines}
use orchestrator_state_machi.HandoffParser.Lines.{OneLine, split_lines-line}
use orchestrator_state_machi.HandoffParser.Fields.{is_plain, read_line-plain}
use orchestrator_state_machi.WorkerAdapter.{field_line, with_line}

-- The keys and values of a block's lines, and the conditions under which a line is read back.
abbrev pub Entries : Type 0
Entries = List (String × String)

abbrev pub IsEntry : String × String → Type 0
IsEntry (key, value) =
    Chars is_key_char key × (is_blank key ≡ false) × Chars is_plain value × (is_blank value ≡ false)

unfoldable pub block_text : Entries → String
block_text [] = String.[]
block_text ((key, value) ∷ entries) = with_line (field_line key value) (block_text entries)

unfoldable pub store_all : Scan → Entries → Scan
store_all scan [] = scan
store_all scan ((key, value) ∷ entries) =
    store_all (record scan { mapping = insert key value scan.mapping; consumed = true }) entries

break_is_space : (c : Char) → is_break c ≡ true → is_space c ≡ true
unfolding is_space
break_is_space c h = ground (arith, h)

plain_no_break : (c : Char) → is_plain c ≡ true → not (is_break c) ≡ true
plain_no_break c h = elim (Bool-cases (is_break c)) [
  | inl break ↦ cc (rw (break_is_space c break) at h)
  | inr other ↦ rw other refl
]

key_no_break : (c : Char) → is_key_char c ≡ true → not (is_break c) ≡ true
key_no_break c h = ground arith

field_line-OneLine : (key value : String) → IsEntry (key, value) → OneLine (field_line key value)
unfolding field_line
field_line-OneLine key value (chars, _, plain, _) =
    all_chars-append (λ c. not (is_break c)) key (String.◌∷◌ ":" (String.◌∷◌ " " value))
      (Chars-mono is_key_char (λ c. not (is_break c)) key_no_break key chars)
      (Chars-mono is_plain (λ c. not (is_break c)) plain_no_break value plain)

split_lines-block_text :
    (entries : Entries)
    → All IsEntry entries
    → split_lines (block_text entries) ≡ map (λ entry. field_line (entry.0) (entry.1)) entries
unfolding block_text split_lines
split_lines-block_text [] h = refl
split_lines-block_text ((key, value) ∷ entries) (here, below) =
    split_lines-line (field_line key value) (block_text entries) (field_line-OneLine key value here)
    ∙ ap (λ lines. field_line key value ∷ lines) (split_lines-block_text entries below)

read_line-entry :
    (scan : Scan) (key value : String)
    → IsEntry (key, value)
    → read_line scan (field_line key value)
      ≡ some (record scan { mapping = insert key value scan.mapping; consumed = true })
unfolding field_line
read_line-entry scan String.[] value (chars, some_, plain, given) = cc
read_line-entry scan (String.◌∷◌ c key) value (chars, some_, plain, given) =
    read_line-plain scan c key value chars plain given

read_lines-entries :
    (entries : Entries) (scan : Scan)
    → All IsEntry entries
    → read_lines scan (map (λ entry. field_line (entry.0) (entry.1)) entries)
      ≡ store_all scan entries
unfolding read_lines store_all
read_lines-entries [] scan h = refl
read_lines-entries ((key, value) ∷ entries) scan (here, below) =
    let next = record scan { mapping = insert key value scan.mapping; consumed = true } in
    rw (read_lines, read_line-entry scan key value here) (read_lines-entries entries next below)

-- A block of such lines is read as they say.
pub extract_handoff_mapping-block_text :
    (entries : Entries)
    → All IsEntry entries
    → extract_handoff_mapping (with_line "handoff:" (block_text entries))
      ≡ block_mapping (store_all start_scan entries)
unfolding extract_handoff_mapping after_start is_space
extract_handoff_mapping-block_text entries h =
    rw (split_lines-line "handoff:" (block_text entries) refl, split_lines-block_text entries h)
      (ap block_mapping (read_lines-entries entries start_scan h))
