-- ===== src/PolicyVerifier.antt =====
-- src/watcher/policy_verifier.py: the static checks on a policy with its defaults, and on an order of
-- the precedence steps. The hash of the policy is a parameter, as in PolicyDefaults.
pub mod Settings
mod Reported
pub mod Verified
mod Tests
use orchestrator_state_machi.Prelude.{◌>>=◌}
use orchestrator_state_machi.PolicyContract.Values.{PolicyError, policy_errors, overflow_error}
use orchestrator_state_machi.Prelude.{
  String, Bool, true, false, not, ◌&&◌, ◌||◌, Option, none, some, List, [], ◌∷◌, ◌++◌, append,
  contains, is_empty, keep, text_eq, if◌then◌else◌, Result, ok, raise, ◌==◌,
}
use orchestrator_state_machi.Prelude.Int.{ℤ, pos, negsuc, ltb_ℤ}
use orchestrator_state_machi.Prelude.Json.{
  Value, null, bool, int, float, str, list, dict, Fields, value_of,
}
use orchestrator_state_machi.PolicyPrecedence.{precedence_order}
use orchestrator_state_machi.PolicyDefaults.{EffectivePolicySnapshot, inject_canonical_defaults}

pub data FindingCode : Type 0 where
  policy_invalid unreachable_state escalation_conflict precedence_ambiguous : FindingCode

pub record PolicyVerifierFinding : Type 0 where
  pub code : FindingCode
  pub message : String

-- `warnings` is always empty.
pub record PolicyVerificationResult : Type 0 where
  pub snapshot : Option EffectivePolicySnapshot
  pub errors : List PolicyVerifierFinding

-- `policy[section][key]`, an integer in a policy that was accepted.
abbrev pub int_of : Value → ℤ
int_of (int n) = n
int_of _ = pos 0

abbrev pub section_of : Value → Fields
section_of (dict d) = d
section_of _ = Fields.end

abbrev pub setting : String → String → Fields → ℤ
setting s k policy = int_of (value_of k (section_of (value_of s policy)))

-- The check on the retries.
unfoldable pub check_retries : ℤ → List PolicyVerifierFinding
check_retries max_retries =
    if ltb_ℤ max_retries (pos 1)
    then (record {
      code = unreachable_state;
      message = "RETRY_WAIT is unreachable when retry.max_retries < 1";
    })
      ∷ []
    else []

abbrev is_zero : ℤ → Bool
is_zero (pos n) = n == 0
is_zero (negsuc n) = false

-- The check on the budgets.
unfoldable pub check_budget : ℤ → ℤ → List PolicyVerifierFinding
check_budget day_cap hour_cap =
    if is_zero day_cap && ltb_ℤ (pos 0) hour_cap
    then (record {
      code = escalation_conflict;
      message =
          "risk_budget conflict: max_noncritical_escalations_per_day=0 cannot coexist with max_noncritical_pages_per_hour>0";
    })
      ∷ []
    else []

-- `len(set(provided)) != len(provided)`: a step stands twice.
abbrev pub has_duplicate : List String → Bool
has_duplicate [] = false
has_duplicate (x ∷ xs) = contains xs x || has_duplicate xs

-- `a == b` on tuples of texts.
abbrev pub same_order : List String → List String → Bool
same_order [] [] = true
same_order [] (y ∷ ys) = false
same_order (x ∷ xs) [] = false
same_order (x ∷ xs) (y ∷ ys) = text_eq x y && same_order xs ys

-- `",".join(xs)`
unfoldable pub join_comma : List String → String
join_comma [] = ""
join_comma (x ∷ []) = x
join_comma (x ∷ y ∷ ys) = append x (append "," (join_comma (y ∷ ys)))

abbrev pub ambiguous : String → List PolicyVerifierFinding
ambiguous message = record { code = precedence_ambiguous; message = message } ∷ []

-- The detail of a mismatch.
unfoldable pub mismatch_detail : List String → List String → String
unfolding join_comma
mismatch_detail [] [] = ""
mismatch_detail (x ∷ xs) [] = append "missing=" (join_comma (x ∷ xs))
mismatch_detail [] (y ∷ ys) = append "unknown=" (join_comma (y ∷ ys))
mismatch_detail (x ∷ xs) (y ∷ ys) =
    append "missing="
      (append (join_comma (x ∷ xs)) (append " " (append "unknown=" (join_comma (y ∷ ys)))))

-- `_check_precedence_order`
unfoldable pub check_precedence_order : List String → List PolicyVerifierFinding
unfolding mismatch_detail
check_precedence_order provided =
    let missing = keep (λ x. not (contains provided x)) precedence_order in
    let extras = keep (λ x. not (contains precedence_order x)) provided in
    if has_duplicate provided
    then ambiguous "precedence order contains duplicate steps"
    else if not (is_empty missing) || not (is_empty extras)
    then ambiguous (append "precedence steps mismatch: " (mismatch_detail missing extras))
    else if not (same_order provided precedence_order)
    then ambiguous "precedence order does not match spec order"
    else []

abbrev pub invalid_findings : List String → List PolicyVerifierFinding
invalid_findings [] = []
invalid_findings (m ∷ ms) = record { code = policy_invalid; message = m } ∷ invalid_findings ms

-- The findings on an effective policy.
abbrev pub retries_findings : EffectivePolicySnapshot → List PolicyVerifierFinding
retries_findings s = check_retries (setting "retry" "max_retries" s.effective_policy)

abbrev pub budget_findings : EffectivePolicySnapshot → List PolicyVerifierFinding
budget_findings s =
    check_budget (setting "risk_budget" "max_noncritical_escalations_per_day" s.effective_policy)
      (setting "risk_budget" "max_noncritical_pages_per_hour" s.effective_policy)

abbrev pub check_snapshot : EffectivePolicySnapshot → List String → List PolicyVerifierFinding
check_snapshot s order = retries_findings s ++ (budget_findings s ++ check_precedence_order order)

-- What the verifier raises: a PolicyVerificationError, by its findings, or the OverflowError of the
-- validation.
pub data VerifierError : Type 0 where
  policy_findings : List PolicyVerifierFinding → VerifierError
  float_overflow : VerifierError

-- The result on what `inject_canonical_defaults` gives; only a PolicyDefaultsError is caught.
abbrev pub verify_injected :
    List String
    → Result PolicyError EffectivePolicySnapshot
    → Result VerifierError PolicyVerificationResult
verify_injected order (raise (policy_errors errors)) =
    ok (record { snapshot = none; errors = invalid_findings errors })
verify_injected order (raise overflow_error) = raise float_overflow
verify_injected order (ok s) = ok (record { snapshot = some s; errors = check_snapshot s order })

-- `verify_policy_static`
unfoldable pub verify_policy_static :
    (Fields → String) → Value → List String → Result VerifierError PolicyVerificationResult
verify_policy_static policy_hash raw_policy order =
    verify_injected order (inject_canonical_defaults policy_hash raw_policy)

-- `if result.errors: raise PolicyVerificationError(result.errors)`
abbrev pub raise_findings :
    PolicyVerificationResult
    → List PolicyVerifierFinding
    → Result VerifierError PolicyVerificationResult
raise_findings r [] = ok r
raise_findings r (e ∷ es) = raise (policy_findings (e ∷ es))

-- `verify_policy_or_raise`
unfoldable pub verify_policy_or_raise :
    (Fields → String) → Value → List String → Result VerifierError PolicyVerificationResult
unfolding verify_policy_static
verify_policy_or_raise policy_hash raw_policy order =
    verify_policy_static policy_hash raw_policy order >>= λ r. raise_findings r r.errors
