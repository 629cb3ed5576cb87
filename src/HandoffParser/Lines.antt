-- ===== src/HandoffParser/Lines.antt =====
-- src/watcher/handoff_parser.py: the lines that `splitlines` gives.
use Prim.Native.Char.{code}
use Prim.Native.String.append
use orchestrator_state_machi.Prelude.{
  String, false, not, ◌&&◌, List, ◌∷◌, append, ◌≡◌, refl, All, ◌==◌, Bool-cases, inl, inr, arith,
}
use orchestrator_state_machi.Prelude.Text.{starts}
use orchestrator_state_machi.Prelude.Chars.{Chars}
use orchestrator_state_machi.HandoffParser.Text.{is_break, following, split_run, split_lines}

-- A text with no line break.
abbrev pub OneLine : String → Type 0
OneLine s = Chars (λ c. not (is_break c)) s

-- A line that stands before a newline is split off.
split_run-line :
    (line text : String)
    → OneLine line
    → split_run (append line (String.◌∷◌ "\n" text)) ≡ (line, split_lines text)
unfolding split_run split_lines
split_run-line String.[] text h = rw (append.nil (String.◌∷◌ "\n" text)) refl
split_run-line (String.◌∷◌ c line) text h =
    let carriage : (code c == b'\r') ≡ false = ground arith in
    let break : is_break c ≡ false = ground arith in
    rw
      (
        append.cons c line (String.◌∷◌ "\n" text),
        carriage,
        break,
        split_run-line line text (ground arith),
      )
      refl

following-newline :
    (s line text : String) (lines : List String)
    → following (append s (String.◌∷◌ "\n" text)) (line, lines) ≡ line ∷ lines
following-newline String.[] line text lines = rw (append.nil (String.◌∷◌ "\n" text)) refl
following-newline (String.◌∷◌ c s) line text lines =
    rw (append.cons c s (String.◌∷◌ "\n" text)) refl

pub split_lines-line :
    (line text : String)
    → OneLine line
    → split_lines (append line (String.◌∷◌ "\n" text)) ≡ line ∷ split_lines text
unfolding split_lines
split_lines-line line text h =
    rw (split_run-line line text h) (following-newline line line text (split_lines text))

-- No line has a break in it.
following-OneLine :
    (s : String) (lines : String × List String)
    → OneLine lines.0 × All OneLine lines.1
    → All OneLine (following s lines)
following-OneLine String.[] lines h = tt
following-OneLine (String.◌∷◌ c s) lines h = h

split_run-OneLine : (s : String) → OneLine ((split_run s).0) × All OneLine ((split_run s).1)
unfolding split_run
split_run-OneLine String.[] = (refl, tt)
split_run-OneLine (String.◌∷◌ c s) = elim (Bool-cases (code c == b'\r' && starts "\n" s)) [
  | inl pair ↦ rw pair (split_run-OneLine s)
  | inr single ↦ elim (Bool-cases (is_break c)) [
    | inl break ↦ rw (single, break) (refl, following-OneLine s (split_run s) (split_run-OneLine s))
    | inr other ↦
        let (line, lines) = split_run-OneLine s in rw (single, other) (rw other line, lines)
  ]
]

pub split_lines-OneLine : (s : String) → All OneLine (split_lines s)
unfolding split_lines
split_lines-OneLine s = following-OneLine s (split_run s) (split_run-OneLine s)
