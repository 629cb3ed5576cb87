-- ===== src/PolicyDefaults/Canonical.antt =====
-- src/watcher/policy_defaults.py: the canonical defaults, injected once and twice.
use orchestrator_state_machi.Prelude.{
  arith, String, List, [], ◌∷◌, ◌≡◌, refl, sym, ◌∙◌, ap, subst, ok, >>=-eq-ok, ok_injective,
}
use orchestrator_state_machi.Prelude.Json.{Value, dict, Fields, get}
use orchestrator_state_machi.PolicyContract.Policy.{OrchestratorPolicy, validate_policy_mapping}
use orchestrator_state_machi.PolicyContract.Accepted.{
  IsAccepted, validate_policy_mapping-IsAccepted,
}
use orchestrator_state_machi.PolicyDefaults.{
  canonical_policy_defaults, EffectivePolicySnapshot, object, no_object, as_object, Override,
  Merged, merge_node, fields_of, snapshot, accept_merged, inject_from, inject_canonical_defaults,
}
use orchestrator_state_machi.PolicyDefaults.Merge.{
  IsComplete, Shaped, merge_node-Shaped, merge_node-again, unchanged,
}

canonical-IsComplete : IsComplete (dict canonical_policy_defaults)
unfolding get
canonical-IsComplete = ground arith

module _ (policy_hash : Fields → String) where
  abbrev pub merged_with : Fields → Merged Value
  merged_with d = merge_node (dict canonical_policy_defaults) (dict d) ""

  -- What an injection that returns went through.
  record Injected (s : EffectivePolicySnapshot) : Type 0 where
    given : Fields
    policy : OrchestratorPolicy
    accepted : validate_policy_mapping (merged_with given).merged ≡ ok policy
    result : s ≡ snapshot policy_hash (merged_with given)

  accept_merged-ok :
      (m : Merged Value) (es : List String) {s : EffectivePolicySnapshot}
      → accept_merged policy_hash m es ≡ ok s
      → (p : OrchestratorPolicy) × (validate_policy_mapping m.merged ≡ ok p)
        × (snapshot policy_hash m ≡ s)
        × (es ≡ [])
  unfolding accept_merged
  accept_merged-ok m [] h =
      let (p, v, e) =
        >>=-eq-ok (validate_policy_mapping m.merged) (λ p. ok (snapshot policy_hash m)) h in
      (p, v, ok_injective e, refl)
  accept_merged-ok m (x ∷ xs) h = cc

  inject_from-Injected :
      (x : Override) {s : EffectivePolicySnapshot} → inject_from policy_hash x ≡ ok s → Injected s
  unfolding inject_from
  inject_from-Injected no_object h = cc
  inject_from-Injected (object d) h =
      let (p, v, e, none_) = accept_merged-ok (merged_with d) (merged_with d).merge_errors h in
      record { given = d; policy = p; accepted = v; result = sym e }

  -- The effective policy is what was merged.
  dict-fields_of : (ds : Fields) (m : Value) → Shaped (dict ds) m → dict (fields_of m) ≡ m
  dict-fields_of ds (dict ms) s = refl
  dict-fields_of ds _ s = absurd s

  merged-dict : (d : Fields) → dict (fields_of (merged_with d).merged) ≡ (merged_with d).merged
  merged-dict d =
      dict-fields_of canonical_policy_defaults (merged_with d).merged
        (merge_node-Shaped (dict canonical_policy_defaults) (dict d) "" canonical-IsComplete)

  -- A policy that was merged with the defaults is merged with them once more.
  merged_again :
      (d : Fields)
      → merge_node (dict canonical_policy_defaults) (merged_with d).merged ""
        ≡ unchanged (merged_with d).merged
  merged_again d =
      merge_node-again (dict canonical_policy_defaults) (merged_with d).merged ""
        canonical-IsComplete
        (merge_node-Shaped (dict canonical_policy_defaults) (dict d) "" canonical-IsComplete)

  inject_again :
      (d : Fields) {p : OrchestratorPolicy}
      → validate_policy_mapping (merged_with d).merged ≡ ok p
      → inject_canonical_defaults policy_hash (dict (fields_of (merged_with d).merged))
        ≡ ok (record {
          effective_policy = fields_of (merged_with d).merged;
          defaults_applied = [];
          policy_hash = policy_hash (fields_of (merged_with d).merged);
        })
  unfolding inject_canonical_defaults inject_from accept_merged
  inject_again d v = rw (merged-dict d, merged_again d, v)

  abbrev Again : EffectivePolicySnapshot → Type 0
  Again s =
      ((p : OrchestratorPolicy) × (validate_policy_mapping (dict s.effective_policy) ≡ ok p)
        × IsAccepted p)
      × (inject_canonical_defaults policy_hash (dict s.effective_policy)
          ≡ ok (record s { defaults_applied = [] }))

  snapshot-Again :
      (d : Fields) {p : OrchestratorPolicy}
      → validate_policy_mapping (merged_with d).merged ≡ ok p
      → Again (snapshot policy_hash (merged_with d))
  snapshot-Again d {p} v = (
    (p, ap validate_policy_mapping (merged-dict d) ∙ v, validate_policy_mapping-IsAccepted _ v),
    inject_again d v,
  )

  -- A snapshot's effective policy is accepted by `validate_policy_mapping`, with all that this gives;
  -- and injecting the defaults into it gives the same policy and the same hash, with no default
  -- applied.
  pub inject_canonical_defaults_again :
      (raw : Value) {s : EffectivePolicySnapshot}
      → inject_canonical_defaults policy_hash raw ≡ ok s
      → ((p : OrchestratorPolicy) × (validate_policy_mapping (dict s.effective_policy) ≡ ok p)
          × IsAccepted p)
        × (inject_canonical_defaults policy_hash (dict s.effective_policy)
            ≡ ok (record s { defaults_applied = [] }))
  unfolding inject_canonical_defaults
  inject_canonical_defaults_again raw {s} h =
      let i = inject_from-Injected (as_object raw) h in
      subst Again (sym i.result) (snapshot-Again i.given i.accepted)
