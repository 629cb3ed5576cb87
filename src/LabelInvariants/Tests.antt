-- ===== src/LabelInvariants/Tests.antt =====
-- src/watcher/label_invariants.py: runs, and instances of the theorems.
use orchestrator_state_machi.Prelude.{String, true, List, [], ◌∷◌, ◌≡◌, ◌↔◌, refl, contains, none}
use orchestrator_state_machi.LabelInvariants.{
  check_label_set, unchanged, normalized, resolve_human, resolve_states, active_state_labels,
  resolve_multiple, escalate_to_human_required, ordered_labels, add, discard, sorted, insert_sorted,
}
use orchestrator_state_machi.LabelInvariants.Coerce.{
  validate_and_normalize_labels, coerce_labels, text_labels,
}
use orchestrator_state_machi.LabelInvariants.Flags.{IsConsistent}
use orchestrator_state_machi.LabelInvariants.Consistent.{
  check_label_set-IsConsistent, check_label_set_other, check_label_set-valid,
}
use orchestrator_state_machi.Prelude.Json.{str}

abbrev queued_and_running : List String
queued_and_running = "bug" ∷ "orchestrator:running" ∷ "needs:orchestrator" ∷ []

ambiguous_test :
    (validate_and_normalize_labels
      (str "Orchestrator:Done, needs:orchestrator zeta alpha")).normalized_labels
    ≡ "orchestrator:dead" ∷ "needs:human" ∷ "alpha" ∷ "zeta" ∷ []
unfolding validate_and_normalize_labels coerce_labels text_labels check_label_set resolve_human
    resolve_states resolve_multiple escalate_to_human_required ordered_labels add discard sorted
    insert_sorted active_state_labels
ambiguous_test = refl

running_wins_test : (check_label_set queued_and_running).action ≡ normalized
unfolding check_label_set resolve_human resolve_states resolve_multiple add discard
    active_state_labels
running_wins_test = refl

check_label_set-IsConsistent_example :
    IsConsistent (check_label_set queued_and_running).normalized_labels
check_label_set-IsConsistent_example = check_label_set-IsConsistent queued_and_running

check_label_set_other_example :
    contains (check_label_set queued_and_running).normalized_labels "bug"
    ≡ contains queued_and_running "bug"
check_label_set_other_example = check_label_set_other "bug" (refl, refl) queued_and_running

check_label_set-valid_example :
    (((check_label_set queued_and_running).valid ≡ true) ↔ IsConsistent queued_and_running)
    × (IsConsistent queued_and_running
        → ((check_label_set queued_and_running).action ≡ unchanged)
          × ((check_label_set queued_and_running).error_class ≡ none)
          × ((y : String)
              → contains (check_label_set queued_and_running).normalized_labels y
                ≡ contains queued_and_running y))
check_label_set-valid_example = check_label_set-valid queued_and_running
