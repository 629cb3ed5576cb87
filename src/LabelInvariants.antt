-- ===== src/LabelInvariants.antt =====
-- src/watcher/label_invariants.py: the labels of a handoff, read from payloads of mixed shapes, and
-- the repair of a label set that breaks the invariants. A Python set of labels is a list of them,
-- of which only membership counts.
pub mod Coerce
pub mod Sets
pub mod Flags
pub mod Consistent
mod Tests
use Prim.Native.Nat.{Ordering}
use Prim.Native.String.{compare}
use orchestrator_state_machi.Prelude.{
  ℕ, zero, suc, String, Bool, true, false, ◌&&◌, ◌||◌, not, Option, none, some, List, [], ◌∷◌, ◌++◌,
  if◌then◌else◌, contains, keep, text_eq, length, is_empty,
}

-- PRIMARY_STATE_LABELS
abbrev pub primary_state_labels : List String
primary_state_labels =
    "needs:orchestrator" ∷ "orchestrator:running" ∷ "orchestrator:failed" ∷ "orchestrator:done"
    ∷ "orchestrator:dead" ∷ []

-- HUMAN_LABEL and ERROR_CLASS_FSM_INVALID
abbrev pub human_label : String
human_label = "needs:human"

abbrev pub error_class_fsm_invalid : String
error_class_fsm_invalid = "fsm_invalid"

pub data Action : Type 0 where
  unchanged normalized escalated : Action

pub record InvariantResult : Type 0 where
  pub normalized_labels : List String
  pub valid : Bool
  pub action : Action
  pub violations : List String
  pub error_class : Option String

-- `s.add(x)`, `s.discard(x)`
unfoldable pub add : String → List String → List String
add x s = if contains s x then s else x ∷ s

unfoldable pub discard : String → List String → List String
discard x s = keep (λ y. not (text_eq x y)) s

-- `_active_state_labels`
unfoldable pub active_state_labels : List String → List String
active_state_labels s = keep (contains s) primary_state_labels

abbrev pub discard_all : List String → List String → List String
discard_all [] s = s
discard_all (x ∷ xs) s = discard_all xs (discard x s)

-- `_escalate_to_human_required`
unfoldable pub escalate_to_human_required : List String → List String
escalate_to_human_required s =
    add human_label
      (add "orchestrator:dead" (discard human_label (discard_all primary_state_labels s)))

-- `sorted`, by code points.
unfoldable pub insert_sorted : String → List String → List String
insert_sorted x [] = x ∷ []
insert_sorted x (y ∷ ys) =
    let rest = insert_sorted x ys in elim (compare x y) [ Ordering.gt ↦ y ∷ rest | _ ↦ x ∷ y ∷ ys ]

unfoldable pub sorted : List String → List String
unfolding insert_sorted
sorted [] = []
sorted (x ∷ xs) = insert_sorted x (sorted xs)

-- `_ordered_labels`
unfoldable pub ordered_labels : List String → List String
unfolding sorted
ordered_labels s =
    keep (contains s) (primary_state_labels ++ (human_label ∷ []))
    ++ sorted (keep (λ l. not (contains primary_state_labels l) && not (text_eq human_label l)) s)

-- `set(a) == set(b)`
abbrev pub subset : List String → List String → Bool
subset [] ys = true
subset (x ∷ xs) ys = contains ys x && subset xs ys

abbrev pub same_set : List String → List String → Bool
same_set xs ys = subset xs ys && subset ys xs

-- What the function has established on the way.
pub record Draft : Type 0 where
  pub label_set : List String
  pub action : Action
  pub violations : List String
  pub error_class : Option String

-- More than one state label.
unfoldable pub resolve_multiple : List String → List String → Draft
resolve_multiple s state_labels =
    if same_set state_labels ("needs:orchestrator" ∷ "orchestrator:running" ∷ [])
    then (record {
      label_set = discard "needs:orchestrator" s;
      action = normalized;
      violations = "multiple state labels normalized: queued+running" ∷ [];
      error_class = none;
    })
    else if same_set state_labels ("orchestrator:failed" ∷ "orchestrator:dead" ∷ [])
    then (record {
      label_set = discard "orchestrator:failed" s;
      action = normalized;
      violations = "multiple state labels normalized: failed+dead" ∷ [];
      error_class = none;
    })
    else (record {
      label_set = escalate_to_human_required s;
      action = escalated;
      violations = "ambiguous multiple state labels" ∷ [];
      error_class = some error_class_fsm_invalid;
    })

-- The count of the state labels decides.
unfoldable pub resolve_states : List String → List String → Draft
resolve_states s [] = record {
  label_set = add "needs:orchestrator" s;
  action = normalized;
  violations = "missing primary state label" ∷ [];
  error_class = none;
}
resolve_states s (x ∷ []) = record {
  label_set = s;
  action = unchanged;
  violations = [];
  error_class = none;
}
resolve_states s (x ∷ y ∷ more) = resolve_multiple s (x ∷ y ∷ more)

-- `state_label not in {"orchestrator:failed", "orchestrator:dead"}`, for the first state label.
abbrev pub not_failed_or_dead : List String → Bool
not_failed_or_dead [] = true
not_failed_or_dead (x ∷ xs) = not (contains ("orchestrator:failed" ∷ "orchestrator:dead" ∷ []) x)

-- needs:human beside another state.
unfoldable pub resolve_human : Draft → Draft
resolve_human d =
    if contains d.label_set human_label && not_failed_or_dead (active_state_labels d.label_set)
    then (record {
      label_set = escalate_to_human_required d.label_set;
      action = escalated;
      violations = d.violations ++ ("needs:human invalid coexistence" ∷ []);
      error_class = some error_class_fsm_invalid;
    })
    else d

-- `validate_and_normalize_labels` on the set of labels that `_coerce_labels` gives.
unfoldable pub check_label_set : List String → InvariantResult
check_label_set label_set =
    let d = resolve_human (resolve_states label_set (active_state_labels label_set)) in
    record {
      normalized_labels = ordered_labels d.label_set;
      valid = is_empty d.violations;
      action = d.action;
      violations = d.violations;
      error_class = d.error_class;
    }
