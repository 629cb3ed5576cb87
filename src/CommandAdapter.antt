-- ===== src/CommandAdapter.antt =====
-- src/watcher/command_adapter.py: the envelope in which a command reports its result, read from a
-- JSON object, and what the watcher makes of it. Python's `float(text)` is a parameter.
pub mod Reconcile
pub mod Parse
mod Tests
use orchestrator_state_machi.Prelude.{
  ℕ, suc, String, Bool, true, false, not, Option, none, some, List, [], ◌∷◌, ◌==◌, ◌%◌, ◌/◌, ◌^◌,
  ◌-◌, text_eq, if◌then◌else◌, Result, ok, raise, ◌>>=◌,
}
use orchestrator_state_machi.Prelude.Int.{ℤ, pos, negsuc, pos_part, neg_part}
use orchestrator_state_machi.Prelude.Text.{is_space, is_blank, strip, lower}
use orchestrator_state_machi.Prelude.Json.{
  Float, nan, inf, neg_inf, finite, Value, null, int, str, bool, float, list, dict, Fields, get,
  value_of,
}
use orchestrator_state_machi.ErrorClassifier.{
  Arg, absent, text, ErrorClassifierError, ErrorClassification, classify_error,
}

pub data CommandStatus : Type 0 where
  success failure partial : CommandStatus

pub data WatcherResult : Type 0 where
  result_success retry human_required success_with_exit_mismatch : WatcherResult

pub record CommandEnvelope : Type 0 where
  pub run_id : String
  pub exit_code : ℤ
  pub status : CommandStatus
  pub error_class : Option String

pub record CommandReconciliation : Type 0 where
  pub watcher_result : WatcherResult
  pub normalized_error_class : Option String
  pub requires_reconciliation : Bool
  pub reason : String

-- CommandAdapterError, by its message.
pub data CommandAdapterError : Type 0 where
  not_an_object : CommandAdapterError
  missing_fields : List String → CommandAdapterError
  run_id_invalid : CommandAdapterError
  exit_code_invalid : CommandAdapterError
  status_invalid : CommandAdapterError
  error_class_invalid : CommandAdapterError

-- `field not in payload`
unfoldable pub missing : String → Fields → Bool
unfolding get
missing k d = elim (get k d) [ none ↦ true | some v ↦ false ]

-- `sorted(field for field in required if field not in payload)`
unfoldable pub missing_of : List String → Fields → List String
missing_of [] d = []
missing_of (k ∷ ks) d = if missing k d then k ∷ missing_of ks d else missing_of ks d

abbrev pub required : List String
required = "exit_code" ∷ "run_id" ∷ "status" ∷ []

-- `math.isfinite(x)`, `x.is_integer()` and `int(x)`: the integer that a float is.
unfoldable pub as_integer : Float → Option ℤ
as_integer (finite (pos n) exp) = if n % 2 ^ exp == 0 then some (pos (n / 2 ^ exp)) else none
as_integer (finite (negsuc n) exp) =
    if (suc n) % 2 ^ exp == 0 then some (negsuc (suc n / 2 ^ exp - 1)) else none
as_integer _ = none

abbrev pub integer_or_raise : Option ℤ → Result CommandAdapterError ℤ
integer_or_raise none = raise exit_code_invalid
integer_or_raise (some n) = ok n

-- `_coerce_exit_code`; `parse_float` is `float(text)`, with `none` for ValueError.
unfoldable pub coerce_exit_code : (String → Option Float) → Value → Result CommandAdapterError ℤ
unfolding as_integer strip
coerce_exit_code parse_float (int n) = ok n
coerce_exit_code parse_float (float x) = integer_or_raise (as_integer x)
coerce_exit_code parse_float (str s) =
    let stripped = strip is_space s in
    if is_blank stripped then raise exit_code_invalid else elim (parse_float stripped) [
      | none ↦ raise exit_code_invalid
      | some x ↦ integer_or_raise (as_integer x)
    ]
coerce_exit_code parse_float _ = raise exit_code_invalid

-- A field is read by `value_of`: `payload[k]`, once none is missing.
unfoldable pub parse_run_id : Value → Result CommandAdapterError String
unfolding strip
parse_run_id (str s) =
    let run_id = strip is_space s in if is_blank run_id then raise run_id_invalid else ok run_id
parse_run_id _ = raise run_id_invalid

-- `CommandStatus(raw_status.strip().lower())`
unfoldable pub parse_status : Value → Result CommandAdapterError CommandStatus
unfolding strip lower
parse_status (str s) =
    let normalized_status = lower (strip is_space s) in
    if text_eq normalized_status "success"
    then ok success
    else if text_eq normalized_status "failure"
    then ok failure
    else if text_eq normalized_status "partial"
    then ok partial
    else raise status_invalid
parse_status _ = raise status_invalid

unfoldable pub parse_error_class : Option Value → Result CommandAdapterError (Option String)
unfolding strip
parse_error_class none = ok none
parse_error_class (some null) = ok none
parse_error_class (some (str s)) =
    let stripped = strip is_space s in ok (if is_blank stripped then none else some stripped)
parse_error_class (some _) = raise error_class_invalid

-- The fields of the object, once none of the required ones is missing.
unfoldable pub parse_fields :
    (String → Option Float) → Fields → Result CommandAdapterError CommandEnvelope
parse_fields parse_float d = do
  run_id ← parse_run_id (value_of "run_id" d)
  exit_code ← coerce_exit_code parse_float (value_of "exit_code" d)
  status ← parse_status (value_of "status" d)
  error_class ← parse_error_class (get "error_class" d)
  ok (record { run_id = run_id; exit_code = exit_code; status = status; error_class = error_class })

-- `parse_command_envelope`
unfoldable pub parse_command_envelope :
    (String → Option Float) → Value → Result CommandAdapterError CommandEnvelope
unfolding missing_of
parse_command_envelope parse_float (dict d) = elim (missing_of required d) [
  | [] ↦ parse_fields parse_float d
  | k ∷ ks ↦ raise (missing_fields (k ∷ ks))
]
parse_command_envelope parse_float _ = raise not_an_object

abbrev pub to_arg : Option String → Arg
to_arg none = absent
to_arg (some s) = text s

abbrev pub reconciled : Option String → String → Bool → ErrorClassification → CommandReconciliation
reconciled error_class reason requires_reconciliation classified = record {
  watcher_result = if classified.retryable then retry else human_required;
  normalized_error_class = some classified.normalized_error_class;
  requires_reconciliation = requires_reconciliation;
  reason = reason;
}

-- `_failure_reconciliation`
unfoldable pub failure_reconciliation :
    Option String → String → Bool → Result ErrorClassifierError CommandReconciliation
failure_reconciliation error_class reason requires_reconciliation =
    classify_error (to_arg error_class) >>= λ classified.
    ok (reconciled error_class reason requires_reconciliation classified)

abbrev pub exit_mismatch : String → Result ErrorClassifierError CommandReconciliation
exit_mismatch reason = ok (record {
  watcher_result = success_with_exit_mismatch;
  normalized_error_class = none;
  requires_reconciliation = true;
  reason = reason;
})

abbrev pub is_zero : ℤ → Bool
is_zero (pos n) = n == 0
is_zero (negsuc n) = false

-- The three blocks of `reconcile_command_envelope`.
unfoldable pub reconcile_success :
    CommandEnvelope → Bool → Result ErrorClassifierError CommandReconciliation
reconcile_success e terminal_success_observed =
    if is_zero e.exit_code
    then ok (record {
      watcher_result = result_success;
      normalized_error_class = none;
      requires_reconciliation = false;
      reason = "command_reported_success";
    })
    else if terminal_success_observed
    then exit_mismatch "success_observed_despite_exit_mismatch"
    else failure_reconciliation e.error_class "success_status_with_nonzero_exit_treated_as_failure"
        true

unfoldable pub reconcile_partial :
    CommandEnvelope → Bool → Result ErrorClassifierError CommandReconciliation
reconcile_partial e terminal_success_observed =
    if terminal_success_observed
    then exit_mismatch "partial_reconciled_to_success"
    else failure_reconciliation e.error_class
        "partial_requires_failure_path_without_success_reconciliation" true

unfoldable pub reconcile_failure :
    CommandEnvelope → Bool → Result ErrorClassifierError CommandReconciliation
reconcile_failure e terminal_success_observed =
    if terminal_success_observed
    then exit_mismatch "failure_reconciled_to_success"
    else failure_reconciliation e.error_class "command_reported_failure" false

-- `reconcile_command_envelope`
unfoldable pub reconcile_command_envelope :
    CommandEnvelope → Bool → Result ErrorClassifierError CommandReconciliation
reconcile_command_envelope e observed = elim e.status [
  | success ↦ reconcile_success e observed
  | partial ↦ reconcile_partial e observed
  | failure ↦ reconcile_failure e observed
]
