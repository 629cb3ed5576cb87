-- ===== src/WatcherRunWriter/Journal.antt =====
-- src/watcher/watcher_run_writer.py: the log has one line at most for an attempt of a handoff.
use orchestrator_state_machi.Prelude.{
  ℕ, suc, ◌+◌, ◌≤◌, String, true, ◌&&◌, List, [], ◌∷◌, ◌++◌, ◌≡◌, refl, sym, ap, subst, ◌∙◌,
  if◌then◌else◌, Bool-cases, inl, inr, ok, raise, ok_injective, raise-ne-ok, >>=-eq-ok, ◌>>◌,
  text_eq, text_eq_sound, text_eq_refl, arith,
}
use orchestrator_state_machi.Prelude.Int.{ℤ, leb_ℤ, eq_of_parts, pos_part, neg_part}
use orchestrator_state_machi.Prelude.Json.{Value, dict, get}
use orchestrator_state_machi.Prelude.Chars.{&&-true-left, &&-true-right}
use orchestrator_state_machi.Time.{Calendar}
use orchestrator_state_machi.WatcherRunWriter.{
  Line, blank, entry, garbage, equals_int, records, ensure_not_recorded, append_watcher_run,
}
use orchestrator_state_machi.WatcherRunWriter.Validation.{
  WatcherRun, normalized, validate_watcher_run, RunError, validation,
}

-- How often an attempt is recorded.
unfoldable pub count_records : String → ℤ → List Line → ℕ
count_records handoff_key attempt [] = 0
count_records handoff_key attempt (line ∷ lines) =
    let rest = count_records handoff_key attempt lines in
    if records handoff_key attempt line then suc rest else rest

-- No attempt is recorded twice.
abbrev pub IsJournal : List Line → Type 0
IsJournal lines = (handoff_key : String) (attempt : ℤ) → count_records handoff_key attempt lines ≤ 1

abbrev pub duplicate : RunError
duplicate = validation "duplicate handoff_key+attempt entry"

abbrev pub line_of : WatcherRun → Line
line_of run = entry (dict (normalized run))

count_records-append :
    (k : String) (n : ℤ) (xs ys : List Line)
    → count_records k n (xs ++ ys) ≡ count_records k n xs + count_records k n ys
unfolding count_records
count_records-append k n [] ys = omega arith
count_records-append k n (x ∷ xs) ys = ground (arith, count_records-append k n xs ys)

ensure_not_recorded-count_records :
    (k : String) (n : ℤ) (lines : List Line)
    → ensure_not_recorded k n lines ≡ ok tt
    → count_records k n lines ≡ 0
unfolding ensure_not_recorded count_records
ensure_not_recorded-count_records k n [] h = refl
ensure_not_recorded-count_records k n (garbage ∷ lines) h = absurd (raise-ne-ok h)
ensure_not_recorded-count_records k n (blank ∷ lines) h = elim (Bool-cases (records k n blank)) [
  | inl here ↦ absurd (raise-ne-ok (rw here at h))
  | inr other ↦ rw other (ensure_not_recorded-count_records k n lines (rw other at h))
]
ensure_not_recorded-count_records k n (entry v ∷ lines) h =
    elim (Bool-cases (records k n (entry v))) [
      | inl here ↦ absurd (raise-ne-ok (rw here at h))
      | inr other ↦ rw other (ensure_not_recorded-count_records k n lines (rw other at h))
    ]

equal_parts :
    (m n : ℤ) → (leb_ℤ m n && leb_ℤ n m) ≡ true → pos_part m + neg_part n ≡ pos_part n + neg_part m
equal_parts m n h = ground (arith, h)

records-line_of :
    (run : WatcherRun) (k : String) (n : ℤ)
    → records k n (line_of run) ≡ true
    → (run.handoff_key ≡ k) × (run.attempt ≡ n)
unfolding records get equals_int
records-line_of run k n h = (
  text_eq_sound run.handoff_key k (&&-true-left _ _ h),
  eq_of_parts run.attempt n
      (equal_parts run.attempt n (&&-true-right (text_eq run.handoff_key k) _ h)),
)

line_of-records : (run : WatcherRun) → records run.handoff_key run.attempt (line_of run) ≡ true
unfolding records get equals_int
line_of-records run = rw (text_eq_refl run.handoff_key) (ground arith)

-- What an append that succeeds went through.
append_watcher_run-steps :
    (cal : Calendar) (log : List Line) (raw : Value) (run : WatcherRun) (after : List Line)
    → append_watcher_run cal log raw ≡ ok (run, after)
    → (validate_watcher_run cal raw ≡ ok run)
      × (ensure_not_recorded run.handoff_key run.attempt log ≡ ok tt)
      × (after ≡ log ++ (line_of run ∷ []))
unfolding append_watcher_run
append_watcher_run-steps cal log raw run after h =
    let (run₁, validated, h₁) =
      >>=-eq-ok (validate_watcher_run cal raw)
        (λ r. ensure_not_recorded r.handoff_key r.attempt log >> ok (r, log ++ (line_of r ∷ [])))
        h in
    let (u, fresh, h₂) =
      >>=-eq-ok (ensure_not_recorded run₁.handoff_key run₁.attempt log)
        (λ _. ok (run₁, log ++ (line_of run₁ ∷ []))) h₁ in
    let same = ok_injective h₂ in
    let run_same = ap (λ p. p.0) same in
    (
      validated ∙ ap ok run_same,
      subst (λ r. ensure_not_recorded r.handoff_key r.attempt log ≡ ok tt) run_same fresh,
      sym (ap (λ p. p.1) same) ∙ ap (λ r. log ++ (line_of r ∷ [])) run_same,
    )

count_one_line :
    (run : WatcherRun) (log : List Line) (k : String) (n : ℤ)
    → IsJournal log
    → count_records run.handoff_key run.attempt log ≡ 0
    → count_records k n (log ++ (line_of run ∷ [])) ≤ 1
unfolding count_records
count_one_line run log k n journal fresh = elim (Bool-cases (records k n (line_of run))) [
  | inl here ↦
      let (key, attempt) = records-line_of run k n here in
      let none_before =
        subst (λ j. count_records j n log ≡ 0) key
          (subst (λ m. count_records run.handoff_key m log ≡ 0) attempt fresh) in
      rw (count_records-append k n log (line_of run ∷ []), here, none_before) (omega arith)
  | inr other ↦
      rw (count_records-append k n log (line_of run ∷ []), other) (ground (arith, journal k n))
]

-- A log in which no attempt of a handoff is recorded twice is still such a log after a record is
-- appended: the earlier lines stand as they were, and the record's line is behind them.
pub append_watcher_run-IsJournal :
    (cal : Calendar) (log : List Line) (raw : Value) (run : WatcherRun) (after : List Line)
    → IsJournal log
    → append_watcher_run cal log raw ≡ ok (run, after)
    → IsJournal after × (after ≡ log ++ (line_of run ∷ []))
append_watcher_run-IsJournal cal log raw run after journal h =
    let (validated, fresh, same) = append_watcher_run-steps cal log raw run after h in
    (
      λ k n.
          subst (λ lines. count_records k n lines ≤ 1) (sym same)
            (count_one_line run log k n journal
              (ensure_not_recorded-count_records run.handoff_key run.attempt log fresh)),
      same,
    )

-- A line of the same attempt is found behind lines that are passed.
ensure_not_recorded-append :
    (run : WatcherRun) (lines : List Line)
    → ensure_not_recorded run.handoff_key run.attempt lines ≡ ok tt
    → ensure_not_recorded run.handoff_key run.attempt (lines ++ (line_of run ∷ []))
      ≡ raise duplicate
unfolding ensure_not_recorded
ensure_not_recorded-append run [] h = rw (line_of-records run) refl
ensure_not_recorded-append run (garbage ∷ lines) h = absurd (raise-ne-ok h)
ensure_not_recorded-append run (blank ∷ lines) h =
    elim (Bool-cases (records run.handoff_key run.attempt blank)) [
      | inl here ↦ absurd (raise-ne-ok (rw here at h))
      | inr other ↦ rw other (ensure_not_recorded-append run lines (rw other at h))
    ]
ensure_not_recorded-append run (entry v ∷ lines) h =
    elim (Bool-cases (records run.handoff_key run.attempt (entry v))) [
      | inl here ↦ absurd (raise-ne-ok (rw here at h))
      | inr other ↦ rw other (ensure_not_recorded-append run lines (rw other at h))
    ]

-- Once a record is appended, another valid record of the same handoff and attempt is refused, whatever
-- else it says.
pub append_watcher_run_again :
    (cal : Calendar) (log : List Line) (raw raw_again : Value) (run again : WatcherRun)
    (after : List Line)
    → append_watcher_run cal log raw ≡ ok (run, after)
    → validate_watcher_run cal raw_again ≡ ok again
    → again.handoff_key ≡ run.handoff_key
    → again.attempt ≡ run.attempt
    → append_watcher_run cal after raw_again ≡ raise duplicate
unfolding append_watcher_run
append_watcher_run_again cal log raw raw_again run again after h valid_again key attempt =
    let (validated, fresh, same) = append_watcher_run-steps cal log raw run after h in
    rw (valid_again, same, key, attempt, ensure_not_recorded-append run log fresh) refl
