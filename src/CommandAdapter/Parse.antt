-- ===== src/CommandAdapter/Parse.antt =====
-- src/watcher/command_adapter.py: what an envelope that parses looks like.
use orchestrator_state_machi.Prelude.{
  String, true, false, Option, none, some, List, [], ◌∷◌, ◌≡◌, refl, arith, eq_iff, Bool-cases, inl,
  inr, ◌⊎◌, Result, ok, ◌>>=◌, >>=-eq-ok, ok_injective, subst,
}
use orchestrator_state_machi.Prelude.Int.{ℤ}
use orchestrator_state_machi.Prelude.Text.{is_space, is_blank, strip, lower}
use orchestrator_state_machi.Prelude.Json.{
  value_of, Float, Value, null, int, bool, float, str, list, dict, Fields, get,
}
use orchestrator_state_machi.CommandAdapter.{
  CommandStatus, success, failure, partial, CommandEnvelope, CommandAdapterError, missing_of,
  required, as_integer, integer_or_raise, coerce_exit_code, parse_run_id, parse_status,
  parse_error_class, parse_fields, parse_command_envelope,
}

-- What parsing makes of an object with these values at its keys.
abbrev pub IsRunId : Value → String → Type 0
IsRunId v s = (raw : String) × (v ≡ str raw) × (s ≡ strip is_space raw) × (is_blank s ≡ false)

IsRunId-of : (v : Value) {s : String} → parse_run_id v ≡ ok s → IsRunId v s
unfolding parse_run_id
IsRunId-of (str raw) {s} h = elim (Bool-cases (is_blank (strip is_space raw))) [
  | inl e ↦ absurd (ground (arith, h, e))
  | inr e ↦ (raw, refl, ground (arith, h, e), ground (arith, h, e))
]
IsRunId-of null h = cc
IsRunId-of (bool b) h = cc
IsRunId-of (int n) h = cc
IsRunId-of (float x) h = cc
IsRunId-of (list xs) h = cc
IsRunId-of (dict d) h = cc

-- The word of a status.
abbrev pub status_word : CommandStatus → String
status_word success = "success"
status_word failure = "failure"
status_word partial = "partial"

abbrev pub IsStatus : Value → CommandStatus → Type 0
IsStatus v s = (raw : String) × (v ≡ str raw) × (lower (strip is_space raw) ≡ status_word s)

IsStatus-of : (v : Value) {s : CommandStatus} → parse_status v ≡ ok s → IsStatus v s
unfolding parse_status
IsStatus-of (str raw) {s} h = (
  raw,
  refl,
  ground (
    arith,
    h,
    eq_iff (lower (strip is_space raw)) "success",
    eq_iff (lower (strip is_space raw)) "failure",
    eq_iff (lower (strip is_space raw)) "partial",
  ),
)
IsStatus-of null h = cc
IsStatus-of (bool b) h = cc
IsStatus-of (int n) h = cc
IsStatus-of (float x) h = cc
IsStatus-of (list xs) h = cc
IsStatus-of (dict d) h = cc

-- An exit code is an integer, or a float that is a whole number, or the text of such a float; a
-- Boolean is none.
abbrev pub IsExitCode : (String → Option Float) → Value → ℤ → Type 0
IsExitCode parse_float (int m) n = m ≡ n
IsExitCode parse_float (float x) n = as_integer x ≡ some n
IsExitCode parse_float (str raw) n =
    (x : Float) × (parse_float (strip is_space raw) ≡ some x) × (as_integer x ≡ some n)
IsExitCode parse_float _ n = ⊥

integer_of : (o : Option ℤ) {n : ℤ} → integer_or_raise o ≡ ok n → o ≡ some n
integer_of none h = cc
integer_of (some m) h = cc

IsExitCode-of :
    (parse_float : String → Option Float) (v : Value) {n : ℤ}
    → coerce_exit_code parse_float v ≡ ok n
    → IsExitCode parse_float v n
unfolding coerce_exit_code
IsExitCode-of parse_float (int m) h = cc
IsExitCode-of parse_float (float x) h = integer_of (as_integer x) h
IsExitCode-of parse_float (str raw) {n} h = from_blank (Bool-cases (is_blank (strip is_space raw)))
  where
    from_read :
        (o : Option Float)
        → parse_float (strip is_space raw) ≡ o
        → is_blank (strip is_space raw) ≡ false
        → (x : Float) × (parse_float (strip is_space raw) ≡ some x) × (as_integer x ≡ some n)
    from_read none e b = absurd (ground (arith, h, e, b))
    from_read (some x) e b = (x, e, integer_of (as_integer x) (ground (arith, h, e, b)))

    from_blank :
        (is_blank (strip is_space raw) ≡ true) ⊎ (is_blank (strip is_space raw) ≡ false)
        → (x : Float) × (parse_float (strip is_space raw) ≡ some x) × (as_integer x ≡ some n)
    from_blank (inl b) = absurd (ground (arith, h, b))
    from_blank (inr b) = from_read (parse_float (strip is_space raw)) refl b
IsExitCode-of parse_float null h = cc
IsExitCode-of parse_float (bool b) h = cc
IsExitCode-of parse_float (list xs) h = cc
IsExitCode-of parse_float (dict d) h = cc

-- An error class is absent or a text that is not empty.
abbrev pub NotEmpty : Option String → Type 0
NotEmpty none = Unit
NotEmpty (some s) = is_blank s ≡ false

error_class_of : (o : Option Value) {c : Option String} → parse_error_class o ≡ ok c → NotEmpty c
unfolding parse_error_class
error_class_of none {c} h = subst NotEmpty (ok_injective h) tt
error_class_of (some null) {c} h = subst NotEmpty (ok_injective h) tt
error_class_of (some (str s)) {c} h = elim (Bool-cases (is_blank (strip is_space s))) [
  | inl b ↦ subst NotEmpty (ok_injective h) (rw b tt)
  | inr b ↦ subst NotEmpty (ok_injective h) (rw b b)
]
error_class_of (some (bool b)) h = cc
error_class_of (some (int b)) h = cc
error_class_of (some (float b)) h = cc
error_class_of (some (list b)) h = cc
error_class_of (some (dict b)) h = cc

module _ (parse_float : String → Option Float) (d : Fields) where
  -- The steps of the parse, after each other.
  with_error_class :
      String → ℤ → CommandStatus → Option String → Result CommandAdapterError CommandEnvelope
  with_error_class r n s c = ok (record { run_id = r; exit_code = n; status = s; error_class = c })

  with_status : String → ℤ → CommandStatus → Result CommandAdapterError CommandEnvelope
  with_status r n s = parse_error_class (get "error_class" d) >>= with_error_class r n s

  with_exit_code : String → ℤ → Result CommandAdapterError CommandEnvelope
  with_exit_code r n = parse_status (value_of "status" d) >>= with_status r n

  with_run_id : String → Result CommandAdapterError CommandEnvelope
  with_run_id r = coerce_exit_code parse_float (value_of "exit_code" d) >>= with_exit_code r

  fields_of :
      {e : CommandEnvelope}
      → parse_fields parse_float d ≡ ok e
      → IsRunId (value_of "run_id" d) e.run_id
        × IsExitCode parse_float (value_of "exit_code" d) e.exit_code
        × IsStatus (value_of "status" d) e.status
        × NotEmpty e.error_class
  unfolding parse_fields with_run_id with_exit_code with_status with_error_class
  fields_of {e} h =
      let (r, e₀, h₀) = >>=-eq-ok (parse_run_id (value_of "run_id" d)) with_run_id h in
      let (n, e₁, h₁) =
        >>=-eq-ok (coerce_exit_code parse_float (value_of "exit_code" d)) (with_exit_code r) h₀ in
      let (s, e₂, h₂) = >>=-eq-ok (parse_status (value_of "status" d)) (with_status r n) h₁ in
      let (c, e₃, h₃) =
        >>=-eq-ok (parse_error_class (get "error_class" d)) (with_error_class r n s) h₂ in
      subst
        (λ x.
          IsRunId (value_of "run_id" d) x.run_id
          × IsExitCode parse_float (value_of "exit_code" d) x.exit_code
          × IsStatus (value_of "status" d) x.status
          × NotEmpty x.error_class)
        (ok_injective h₃)
        (IsRunId-of _ e₀, IsExitCode-of parse_float _ e₁, IsStatus-of _ e₂, error_class_of _ e₃)

-- A payload that parses is an object, and its envelope has: a run id that is the stripped text under
-- `run_id` and not empty; the whole number that `exit_code` holds, as an integer, a float or a text;
-- the status whose word the text under `status` is, up to white space and case; and an error class
-- that is absent or not empty.
pub parse_command_envelope_ok :
    (parse_float : String → Option Float) (payload : Value) {e : CommandEnvelope}
    → parse_command_envelope parse_float payload ≡ ok e
    → (d : Fields) × (payload ≡ dict d)
      × IsRunId (value_of "run_id" d) e.run_id
      × IsExitCode parse_float (value_of "exit_code" d) e.exit_code
      × IsStatus (value_of "status" d) e.status
      × NotEmpty e.error_class
unfolding parse_command_envelope
parse_command_envelope_ok parse_float (dict d) {e} h = from_missing (missing_of required d) refl
  where
    from_missing :
        (ks : List String)
        → missing_of required d ≡ ks
        → (d' : Fields) × (dict d ≡ dict d')
          × IsRunId (value_of "run_id" d') e.run_id
          × IsExitCode parse_float (value_of "exit_code" d') e.exit_code
          × IsStatus (value_of "status" d') e.status
          × NotEmpty e.error_class
    from_missing [] m =
        let f = fields_of parse_float d (ground (arith, h, m)) in (d, refl, f.0, f.1, f.2, f.3)
    from_missing (k ∷ ks) m = absurd (ground (arith, h, m))
parse_command_envelope_ok parse_float null h = cc
parse_command_envelope_ok parse_float (bool b) h = cc
parse_command_envelope_ok parse_float (int b) h = cc
parse_command_envelope_ok parse_float (float b) h = cc
parse_command_envelope_ok parse_float (str b) h = cc
parse_command_envelope_ok parse_float (list b) h = cc
