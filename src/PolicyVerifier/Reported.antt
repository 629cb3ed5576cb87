-- ===== src/PolicyVerifier/Reported.antt =====
-- src/watcher/policy_contract.py and src/watcher/policy_defaults.py: what is raised names an error.
use orchestrator_state_machi.Prelude.{
  ℕ, String, List, [], ◌∷◌, Bool-cases, inl, inr, Result, ok, raise, ◌>>=◌, rethrow, raise_errors,
  Checked,
}
use orchestrator_state_machi.Prelude.Json.{Value, dict, int, Fields, value_of, float_overflows}
use orchestrator_state_machi.PolicyContract.Values.{
  PolicyError, policy_errors, overflow_error, validate_numeric_range,
}
use orchestrator_state_machi.PolicyContract.Sections.{validate_trust}
use orchestrator_state_machi.PolicyContract.Policy.{
  check_policy, policy_with, validate_policy_mapping,
}
use orchestrator_state_machi.PolicyDefaults.{
  Merged, Override, object, no_object, accept_merged, inject_from,
}

-- No exception with an empty list of errors.
abbrev pub IsReported : {A : Type 0} → Result PolicyError A → Type 0
IsReported (ok a) = Unit
IsReported (raise overflow_error) = Unit
IsReported (raise (policy_errors [])) = ⊥
IsReported (raise (policy_errors (e ∷ es))) = Unit

>>=-IsReported :
    {A B : Type 0} (first : Result PolicyError A) (next : A → Result PolicyError B)
    → IsReported first
    → ((a : A) → IsReported (next a))
    → IsReported (first >>= next)
>>=-IsReported (ok a) next h k = k a
>>=-IsReported (raise overflow_error) next h k = tt
>>=-IsReported (raise (policy_errors [])) next h k = h
>>=-IsReported (raise (policy_errors (e ∷ es))) next h k = tt

raise_errors-IsReported :
    {A : Type 0} (c : Checked A) → IsReported (rethrow policy_errors (raise_errors c))
raise_errors-IsReported (a, []) = tt
raise_errors-IsReported (a, e ∷ es) = tt

validate_numeric_range-IsReported :
    (v : Value) (f : String) (m n : ℕ) → IsReported (validate_numeric_range v f m n)
unfolding validate_numeric_range
validate_numeric_range-IsReported (int k) f m n = elim (Bool-cases (float_overflows k)) [
  | inl large ↦ rw large tt
  | inr small ↦ rw small tt
]
validate_numeric_range-IsReported _ f m n = tt

validate_trust-IsReported : (v : Value) → IsReported (validate_trust v)
unfolding validate_trust
validate_trust-IsReported (dict d) =
    >>=-IsReported (validate_numeric_range (value_of "initial_score" d) "trust.initial_score" 0 1) _
      (validate_numeric_range-IsReported (value_of "initial_score" d) "trust.initial_score" 0 1)
      (λ s. tt)
validate_trust-IsReported _ = tt

check_policy-IsReported : (d : Fields) → IsReported (check_policy d)
unfolding check_policy
check_policy-IsReported d =
    >>=-IsReported (validate_trust (value_of "trust" d)) (λ trust. ok (policy_with d trust))
      (validate_trust-IsReported (value_of "trust" d)) (λ trust. tt)

validate_policy_mapping-IsReported : (v : Value) → IsReported (validate_policy_mapping v)
unfolding validate_policy_mapping
validate_policy_mapping-IsReported (dict d) =
    >>=-IsReported (check_policy d) (λ c. rethrow policy_errors (raise_errors c))
      (check_policy-IsReported d) (λ c. raise_errors-IsReported c)
validate_policy_mapping-IsReported _ = tt

accept_merged-IsReported :
    (policy_hash : Fields → String) (m : Merged Value) (es : List String)
    → IsReported (accept_merged policy_hash m es)
unfolding accept_merged
accept_merged-IsReported policy_hash m [] =
    >>=-IsReported (validate_policy_mapping m.merged) _
      (validate_policy_mapping-IsReported m.merged) (λ p. tt)
accept_merged-IsReported policy_hash m (e ∷ es) = tt

pub inject_from-IsReported :
    (policy_hash : Fields → String) (x : Override) → IsReported (inject_from policy_hash x)
unfolding inject_from
inject_from-IsReported policy_hash no_object = tt
inject_from-IsReported policy_hash (object d) = accept_merged-IsReported policy_hash _ _
