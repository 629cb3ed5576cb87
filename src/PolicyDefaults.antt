-- ===== src/PolicyDefaults.antt =====
-- src/watcher/policy_defaults.py: the canonical policy, and its merge under the policy of a
-- repository. An object's keys are texts, each of which it has once. The hash of the policy's JSON
-- text is a parameter.
pub mod Merge
pub mod Canonical
mod Tests
use orchestrator_state_machi.PolicyContract.Values.{PolicyError, policy_errors}
use orchestrator_state_machi.Prelude.{
  String, Bool, true, false, Option, none, some, List, [], ◌∷◌, ◌++◌, append, text_eq,
  if◌then◌else◌, Result, ok, raise, ◌>>=◌, rethrow,
}
use orchestrator_state_machi.Prelude.Int.{ℤ, pos}
use orchestrator_state_machi.Prelude.Text.{is_blank}
use orchestrator_state_machi.Prelude.Json.{
  Float, finite, Value, null, bool, int, float, str, list, dict, Items, nil, cons, Fields, end,
  field, get, has_key,
}
use orchestrator_state_machi.PolicyContract.Policy.{OrchestratorPolicy, validate_policy_mapping}

-- CANONICAL_POLICY_DEFAULTS
abbrev pub canonical_policy_defaults : Fields
canonical_policy_defaults = field "timezone" (str "America/New_York") (
    field "business_hours"
      (dict (
        field "weekdays"
          (list (
            cons (str "Mon")
              (cons (str "Tue") (cons (str "Wed") (cons (str "Thu") (cons (str "Fri") nil))))))
          (field "start" (str "09:00") (field "end" (str "18:00") end))))
      (field "retry"
        (dict (
          field "max_retries" (int (pos 3)) (
            field "backoff_seconds"
              (list (cons (int (pos 60)) (cons (int (pos 300)) (cons (int (pos 900)) nil))))
              (field "jitter_pct" (int (pos 15)) end))))
        (field "risk_budget"
          (dict (
            field "max_noncritical_escalations_per_day" (int (pos 20))
              (field "max_noncritical_pages_per_hour" (int (pos 5)) end)))
          (field "dedupe" (dict (field "window_minutes" (int (pos 60)) end)) (
            field "trust"
              (dict (
                field "initial_score" (float (finite (pos 1) 1))
                  (field "min_samples" (int (pos 5)) end)))
              end)))))

pub record EffectivePolicySnapshot : Type 0 where
  pub effective_policy : Fields
  pub defaults_applied : List String
  pub policy_hash : String

-- `_join_path`
unfoldable pub join_path : String → String → String
join_path base key = if is_blank base then key else append base (append "." key)

-- `_leaf_paths`
unfoldable mutual
  unfolding join_path

  pub leaf_paths : Value → String → List String
  leaf_paths (dict d) path = leaf_paths_of d path
  leaf_paths null path = path ∷ []
  leaf_paths (bool b) path = path ∷ []
  leaf_paths (int n) path = path ∷ []
  leaf_paths (float x) path = path ∷ []
  leaf_paths (str s) path = path ∷ []
  leaf_paths (list xs) path = path ∷ []

  pub leaf_paths_of : Fields → String → List String
  leaf_paths_of end path = []
  leaf_paths_of (field k v d) path = leaf_paths v (join_path path k) ++ leaf_paths_of d path

-- What a merge gives: the merged value, and what it appends to the errors and to the paths of the
-- defaults that were applied. (`_deep_clone` gives the value itself: no value here is changed.)
pub record Merged (A : Type 0) : Type 0 where
  pub merged : A
  pub merge_errors : List String
  pub defaults_applied : List String

-- The errors for the keys of `override` that `defaults` has not.
unfoldable pub unknown_paths : Fields → Fields → String → List String
unfolding join_path
unknown_paths end defaults path = []
unknown_paths (field k v d) defaults path =
    let rest = unknown_paths d defaults path in
    if has_key k defaults then rest else append (join_path path k) " unknown" ∷ rest

-- `path if path else "policy"`
abbrev pub path_name : String → String
path_name path = if is_blank path then "policy" else path

-- An object as the override of an object; `null` counts as an empty one.
pub data Override : Type 0 where
  object : Fields → Override
  no_object : Override

abbrev pub as_object : Value → Override
as_object null = object end
as_object (dict d) = object d
as_object _ = no_object

-- Whether a value is `None`.
abbrev pub is_null : Value → Bool
is_null null = true
is_null _ = false

-- A default that is no object.
abbrev pub merge_leaf : Value → Value → String → Merged Value
merge_leaf default_ override path =
    if is_null override
    then (record { merged = default_; merge_errors = []; defaults_applied = path ∷ [] })
    else (record { merged = override; merge_errors = []; defaults_applied = [] })

-- An entry whose key the override has not.
abbrev pub take_default : Value → String → Merged Value
take_default default_ path = record {
  merged = default_;
  merge_errors = [];
  defaults_applied = leaf_paths default_ path;
}

-- An entry put before the others.
abbrev pub merge_entry : String → Merged Value → Merged Fields → Merged Fields
merge_entry k here rest = record {
  merged = field k here.merged rest.merged;
  merge_errors = here.merge_errors ++ rest.merge_errors;
  defaults_applied = here.defaults_applied ++ rest.defaults_applied;
}

-- An object put together from its entries, with the errors for unknown keys.
abbrev pub merge_object : Merged Fields → List String → Merged Value
merge_object m unknown = record {
  merged = dict m.merged;
  merge_errors = m.merge_errors ++ unknown;
  defaults_applied = m.defaults_applied;
}

-- An object that is overridden: the entries are merged by `merge`.
abbrev pub merge_override : Fields → Override → String → (Fields → Merged Fields) → Merged Value
merge_override defaults no_object path merge = record {
  merged = dict defaults;
  merge_errors = append (path_name path) " invalid" ∷ [];
  defaults_applied = [];
}
merge_override defaults (object d) path merge =
    merge_object (merge d) (unknown_paths d defaults path)

-- An entry, which the override has or has not.
abbrev pub merge_given : Value → Option Value → String → (Value → Merged Value) → Merged Value
merge_given default_ none path merge = take_default default_ path
merge_given default_ (some o) path merge = merge o

-- `_merge_node`, with its loop over the keys of the defaults.
unfoldable mutual
  unfolding leaf_paths unknown_paths join_path get

  pub merge_node : Value → Value → String → Merged Value
  merge_node (dict defaults) override path =
      merge_override defaults (as_object override) path (λ d. merge_entries defaults d path)
  merge_node null override path = merge_leaf null override path
  merge_node (bool b) override path = merge_leaf (bool b) override path
  merge_node (int n) override path = merge_leaf (int n) override path
  merge_node (float x) override path = merge_leaf (float x) override path
  merge_node (str s) override path = merge_leaf (str s) override path
  merge_node (list xs) override path = merge_leaf (list xs) override path

  pub merge_entries : Fields → Fields → String → Merged Fields
  merge_entries end override path = record {
    merged = end;
    merge_errors = [];
    defaults_applied = [];
  }
  merge_entries (field k v ds) override path =
      merge_entry k
        (merge_given v (get k override) (join_path path k) (λ o. merge_node v o (join_path path k)))
        (merge_entries ds override path)

-- The fields of a merged policy, which is an object.
abbrev pub fields_of : Value → Fields
fields_of (dict d) = d
fields_of _ = end

abbrev pub snapshot : (Fields → String) → Merged Value → EffectivePolicySnapshot
snapshot policy_hash m = record {
  effective_policy = fields_of m.merged;
  defaults_applied = m.defaults_applied;
  policy_hash = policy_hash (fields_of m.merged);
}

-- What follows the merge. A PolicyValidationError is raised again as a PolicyDefaultsError with the
-- same errors; an OverflowError passes.
unfoldable pub accept_merged :
    (Fields → String) → Merged Value → List String → Result PolicyError EffectivePolicySnapshot
accept_merged policy_hash m [] =
    validate_policy_mapping m.merged >>= λ p. ok (snapshot policy_hash m)
accept_merged policy_hash m (e ∷ es) = raise (policy_errors (e ∷ es))

-- What follows the check that the policy is an object.
unfoldable pub inject_from :
    (Fields → String) → Override → Result PolicyError EffectivePolicySnapshot
inject_from policy_hash no_object = raise (policy_errors ("policy root must be an object" ∷ []))
inject_from policy_hash (object d) =
    let m = merge_node (dict canonical_policy_defaults) (dict d) "" in
    accept_merged policy_hash m m.merge_errors

-- `inject_canonical_defaults`; a PolicyDefaultsError is its list of errors, and `policy_hash` is
-- `_stable_policy_hash`.
unfoldable pub inject_canonical_defaults :
    (Fields → String) → Value → Result PolicyError EffectivePolicySnapshot
inject_canonical_defaults policy_hash raw_policy = inject_from policy_hash (as_object raw_policy)
