-- ===== src/PolicyVerifier/Tests.antt =====
-- src/watcher/policy_verifier.py: runs, and an instance of the theorem.
use orchestrator_state_machi.Prelude.{String, [], ◌∷◌, ◌≡◌, ◌↔◌, refl, ok}
use orchestrator_state_machi.Prelude.Int.{pos}
use orchestrator_state_machi.Prelude.Json.{Value, int, dict, Fields, end, field}
use orchestrator_state_machi.PolicyPrecedence.{precedence_order}
use orchestrator_state_machi.PolicyContract.Policy.{OrchestratorPolicy, validate_policy_mapping}
use orchestrator_state_machi.PolicyDefaults.{EffectivePolicySnapshot, inject_canonical_defaults}
use orchestrator_state_machi.PolicyVerifier.{
  PolicyVerificationResult, check_precedence_order, verify_policy_or_raise, ambiguous,
}
use orchestrator_state_machi.PolicyVerifier.Verified.{IsVerified, verify_policy_or_raise_iff}

order_test : check_precedence_order precedence_order ≡ []
unfolding check_precedence_order
order_test = refl

twice_test :
    check_precedence_order ("a" ∷ "b" ∷ "a" ∷ [])
    ≡ ambiguous "precedence order contains duplicate steps"
unfolding check_precedence_order
twice_test = refl

abbrev plain_hash : Fields → String
plain_hash d = "hash"

abbrev no_retries : Value
no_retries = dict (field "retry" (dict (field "max_retries" (int (pos 0)) end)) end)

verify_policy_or_raise_iff_example :
    ((r : PolicyVerificationResult) × (verify_policy_or_raise plain_hash no_retries precedence_order
        ≡ ok r))
    ↔ ((s : EffectivePolicySnapshot) × (p : OrchestratorPolicy) × (inject_canonical_defaults
            plain_hash no_retries
          ≡ ok s)
        × (validate_policy_mapping (dict s.effective_policy) ≡ ok p)
        × IsVerified p precedence_order)
verify_policy_or_raise_iff_example =
    verify_policy_or_raise_iff plain_hash no_retries precedence_order
