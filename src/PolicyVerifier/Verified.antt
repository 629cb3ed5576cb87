-- ===== src/PolicyVerifier/Verified.antt =====
-- src/watcher/policy_verifier.py: exactly which policies and orders pass.
use orchestrator_state_machi.Prelude.{raise-ne-ok}
use orchestrator_state_machi.PolicyContract.Values.{PolicyError, policy_errors, overflow_error}
use orchestrator_state_machi.PolicyVerifier.Reported.{IsReported, inject_from-IsReported}
use orchestrator_state_machi.Prelude.{
  String, true, some, List, [], ◌∷◌, ◌++◌, ◌≡◌, ◌↔◌, ◌≢◌, refl, ap₂, sym, ◌∙◌, subst, inl, inr,
  arith, Bool-cases, text_eq, text_eq_sound, Result, ok, raise, ok_injective,
}
use orchestrator_state_machi.Prelude.Int.{ℤ, pos, negsuc, ◌≤ℤ◌}
use orchestrator_state_machi.Prelude.Json.{Value, dict, Fields}
use orchestrator_state_machi.PolicyPrecedence.{precedence_order}
use orchestrator_state_machi.PolicyContract.Policy.{OrchestratorPolicy, validate_policy_mapping}
use orchestrator_state_machi.PolicyContract.Accepted.{
  IsAccepted, validate_policy_mapping-IsAccepted,
}
use orchestrator_state_machi.PolicyDefaults.{
  EffectivePolicySnapshot, as_object, inject_canonical_defaults,
}
use orchestrator_state_machi.PolicyDefaults.Canonical.{inject_canonical_defaults_again}
use orchestrator_state_machi.PolicyVerifier.Settings.{HasSettings, accepted-HasSettings}
use orchestrator_state_machi.PolicyVerifier.{
  PolicyVerifierFinding, PolicyVerificationResult, setting, check_retries, check_budget, same_order,
  check_precedence_order, check_snapshot, retries_findings, budget_findings, invalid_findings,
  verify_policy_static, raise_findings, verify_policy_or_raise,
}

same_order_sound : (xs ys : List String) → same_order xs ys ≡ true → xs ≡ ys
same_order_sound [] [] h = refl
same_order_sound [] (y ∷ ys) h = cc
same_order_sound (x ∷ xs) [] h = cc
same_order_sound (x ∷ xs) (y ∷ ys) h = elim (Bool-cases (text_eq x y)) [
  | inl e ↦ ap₂ ◌∷◌ (text_eq_sound x y e) (same_order_sound xs ys (rw e at h))
  | inr e ↦ absurd (ground (arith, h, e))
]

-- The order of the steps passes exactly if it is the order of the specification.
pub check_precedence_order_iff :
    (order : List String) → (check_precedence_order order ≡ []) ↔ (order ≡ precedence_order)
unfolding check_precedence_order
check_precedence_order_iff order = (forward, backward)
  where
    forward : check_precedence_order order ≡ [] → order ≡ precedence_order
    forward h = elim (Bool-cases (same_order order precedence_order)) [
      | inl e ↦ same_order_sound order precedence_order e
      | inr e ↦ absurd (ground (arith, h, e))
    ]

    backward : order ≡ precedence_order → check_precedence_order order ≡ []
    backward e = subst (λ o. check_precedence_order o ≡ []) (sym e) refl

-- What a policy and an order have to satisfy.
pub record IsVerified (p : OrchestratorPolicy) (order : List String) : Type 0 where
  pub accepted : IsAccepted p
  pub retries : pos 1 ≤ℤ p.retry.max_retries
  pub budgets :
      p.risk_budget.max_noncritical_escalations_per_day ≡ pos 0
      → p.risk_budget.max_noncritical_pages_per_hour ≡ pos 0
  pub steps : order ≡ precedence_order

check_retries_iff : (n : ℤ) → (check_retries n ≡ []) ↔ (pos 1 ≤ℤ n)
unfolding check_retries
check_retries_iff n = ground arith

check_budget_iff : (d h : ℤ) → pos 0 ≤ℤ h → (check_budget d h ≡ []) ↔ (d ≡ pos 0 → h ≡ pos 0)
unfolding check_budget
check_budget_iff (pos d) (pos h) n = ground arith
check_budget_iff (negsuc d) (pos h) n = ground arith
check_budget_iff d (negsuc h) n = absurd (omega arith)

nothing_left : (xs ys : List PolicyVerifierFinding) → xs ++ ys ≡ [] → xs ≡ []
nothing_left [] ys h = refl
nothing_left (x ∷ xs) ys h = absurd (ground (arith, h))

nothing_right : (xs ys : List PolicyVerifierFinding) → xs ++ ys ≡ [] → ys ≡ []
nothing_right [] ys h = h
nothing_right (x ∷ xs) ys h = absurd (ground (arith, h))

raise_findings_iff :
    (r : PolicyVerificationResult) (es : List PolicyVerifierFinding)
    → ((r' : PolicyVerificationResult) × (raise_findings r es ≡ ok r')) ↔ (es ≡ [])
raise_findings_iff r [] = (λ _. refl, λ _. (r, refl))
raise_findings_iff r (e ∷ es) = (λ h. absurd (ground (arith, h.1)), λ h. absurd (ground (arith, h)))

invalid_findings_some : (m : String) (ms : List String) → invalid_findings (m ∷ ms) ≢ []
invalid_findings_some m ms h = absurd (ground (arith, h))

module _ (s : EffectivePolicySnapshot) (order : List String) {p : OrchestratorPolicy}
    (v : validate_policy_mapping (dict s.effective_policy) ≡ ok p) where
  snapshot_iff : (check_snapshot s order ≡ []) ↔ IsVerified p order
  snapshot_iff = (forward, backward)
    where
      w : HasSettings s.effective_policy p
      w = accepted-HasSettings s.effective_policy v

      a : IsAccepted p
      a = validate_policy_mapping-IsAccepted (dict s.effective_policy) v

      forward : check_snapshot s order ≡ [] → IsVerified p order
      forward h =
          let h₁ =
            nothing_right (retries_findings s) (budget_findings s ++ check_precedence_order order)
              h in
          record {
            accepted = a;
            retries =
                subst (λ n. pos 1 ≤ℤ n) (sym w.retries)
                  ((check_retries_iff _).0 (
                    nothing_left (retries_findings s)
                      (budget_findings s ++ check_precedence_order order) h));
            budgets =
                subst (λ n. n ≡ pos 0 → p.risk_budget.max_noncritical_pages_per_hour ≡ pos 0)
                  (sym w.per_day)
                  (subst
                    (λ n.
                      setting "risk_budget" "max_noncritical_escalations_per_day" s.effective_policy
                        ≡ pos 0
                      → n ≡ pos 0)
                    (sym w.per_hour)
                    ((check_budget_iff _ _ (subst (λ n. pos 0 ≤ℤ n) w.per_hour a.per_hour)).0
                      (nothing_left (budget_findings s) (check_precedence_order order) h₁)));
            steps =
                (check_precedence_order_iff order).0
                  (nothing_right (budget_findings s) (check_precedence_order order) h₁);
          }

      backward : IsVerified p order → check_snapshot s order ≡ []
      backward k = rw (
        (check_retries_iff _).1 (subst (λ n. pos 1 ≤ℤ n) w.retries k.retries),
        (check_budget_iff _ _ (subst (λ n. pos 0 ≤ℤ n) w.per_hour a.per_hour)).1
            (λ z. sym w.per_hour ∙ k.budgets (w.per_day ∙ z)),
        (check_precedence_order_iff order).1 k.steps,
      )

-- `verify_policy_or_raise` returns exactly for a policy which, with the defaults, is accepted, allows a
-- retry, and has no limit by the hour beside a limit of zero by the day, and for the order of the
-- steps that the specification has.
pub verify_policy_or_raise_iff :
    (policy_hash : Fields → String) (raw : Value) (order : List String)
    → ((r : PolicyVerificationResult) × (verify_policy_or_raise policy_hash raw order ≡ ok r)) ↔ (
        (s : EffectivePolicySnapshot) × (p : OrchestratorPolicy) × (inject_canonical_defaults
            policy_hash raw
          ≡ ok s)
        × (validate_policy_mapping (dict s.effective_policy) ≡ ok p)
        × IsVerified p order)
unfolding verify_policy_or_raise verify_policy_static inject_canonical_defaults
verify_policy_or_raise_iff policy_hash raw order =
    from_injected (inject_canonical_defaults policy_hash raw) refl
  where
    Right : Type 0
    Right =
        (s : EffectivePolicySnapshot) × (p : OrchestratorPolicy) × (inject_canonical_defaults
            policy_hash raw
          ≡ ok s)
        × (validate_policy_mapping (dict s.effective_policy) ≡ ok p)
        × IsVerified p order

    passed : EffectivePolicySnapshot → PolicyVerificationResult
    passed s = record { snapshot = some s; errors = check_snapshot s order }

    result :
        (s : EffectivePolicySnapshot)
        → inject_canonical_defaults policy_hash raw ≡ ok s
        → verify_policy_or_raise policy_hash raw order
          ≡ raise_findings (passed s) (check_snapshot s order)
    result s e = rw e refl

    from_injected :
        (m : Result PolicyError EffectivePolicySnapshot)
        → inject_canonical_defaults policy_hash raw ≡ m
        → ((r : PolicyVerificationResult) × (verify_policy_or_raise policy_hash raw order ≡ ok r))
          ↔ Right
    from_injected (raise (policy_errors [])) e =
        absurd (subst IsReported e (inject_from-IsReported policy_hash (as_object raw)))
    from_injected (raise (policy_errors (x ∷ xs))) e =
        (λ h. absurd (raise-ne-ok (rw e at h.1)), λ h. absurd (raise-ne-ok (sym e ∙ h.2)))
    from_injected (raise overflow_error) e =
        (λ h. absurd (raise-ne-ok (rw e at h.1)), λ h. absurd (raise-ne-ok (sym e ∙ h.2)))
    from_injected (ok s) e = (
      λ (r, h).
          let ((p, v, _), _) = inject_canonical_defaults_again policy_hash raw e in
          (
            s,
            p,
            e,
            v,
            (snapshot_iff s order v).0 ((raise_findings_iff _ _).0 (r, sym (result s e) ∙ h)),
          ),
      λ (s', p, e', v, k).
          let v' : validate_policy_mapping (dict s.effective_policy) ≡ ok p =
            subst (λ t. validate_policy_mapping (dict t.effective_policy) ≡ ok p)
              (ok_injective (sym e' ∙ e)) v in
          let (r, h) = (raise_findings_iff (passed s) _).1 ((snapshot_iff s order v').1 k) in
          (r, result s e ∙ h),
    )
