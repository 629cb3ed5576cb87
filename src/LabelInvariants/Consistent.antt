-- ===== src/LabelInvariants/Consistent.antt =====
-- src/watcher/label_invariants.py: whatever the labels were, the normalized ones meet the
-- invariants, and labels of no state are kept.
use orchestrator_state_machi.Prelude.{
  String, true, false, ◌&&◌, List, [], ◌∷◌, ◌≡◌, ◌↔◌, subst, refl, arith, contains, text_eq, eq_iff,
  length, none, ap, ◌∙◌, is_empty,
}
use orchestrator_state_machi.LabelInvariants.{
  add, discard, active_state_labels, primary_state_labels, human_label, not_failed_or_dead, Draft,
  escalate_to_human_required, unchanged, resolve_multiple, resolve_states, resolve_human,
  check_label_set,
}
use orchestrator_state_machi.LabelInvariants.Sets.{
  contains-escalate_to_human_required, contains-add, contains-discard,
}
use orchestrator_state_machi.LabelInvariants.Flags.{
  IsConsistent, contains-ordered_labels, resolve_human-IsConsistent, resolve_states-HasOneState,
  ordered_labels-IsConsistent,
}

-- Whatever set of labels comes in, the normalized labels hold exactly one state label, and hold
-- needs:human only beside orchestrator:failed or orchestrator:dead.
pub check_label_set-IsConsistent :
    (s : List String) → IsConsistent (check_label_set s).normalized_labels
unfolding check_label_set
check_label_set-IsConsistent s = ordered_labels-IsConsistent _ (
    resolve_human-IsConsistent (resolve_states s (active_state_labels s))
      (resolve_states-HasOneState s))

-- A label that is no state label and not needs:human.
abbrev pub IsOther : String → Type 0
IsOther y = (contains primary_state_labels y ≡ false) × (text_eq human_label y ≡ false)

module _ (y : String) (o : IsOther y) where
  add_other :
      (x : String) (s : List String)
      → contains primary_state_labels x ≡ true
      → contains (add x s) y ≡ contains s y
  add_other x s p = rw contains-add (ground (arith, eq_iff x y))

  discard_other :
      (x : String) (s : List String)
      → contains primary_state_labels x ≡ true
      → contains (discard x s) y ≡ contains s y
  discard_other x s p = rw contains-discard (ground (arith, eq_iff x y))

  escalate_other : (s : List String) → contains (escalate_to_human_required s) y ≡ contains s y
  escalate_other s = rw contains-escalate_to_human_required (ground arith)

  resolve_states_other :
      (s ls : List String) → contains (resolve_states s ls).label_set y ≡ contains s y
  unfolding resolve_states resolve_multiple
  resolve_states_other s [] = add_other "needs:orchestrator" s refl
  resolve_states_other s (x ∷ []) = refl
  resolve_states_other s (x ∷ z ∷ more) = ground (
    arith,
    discard_other "needs:orchestrator" s refl,
    discard_other "orchestrator:failed" s refl,
    escalate_other s,
  )

  resolve_human_other :
      (d : Draft) → contains (resolve_human d).label_set y ≡ contains d.label_set y
  unfolding resolve_human
  resolve_human_other d = ground (arith, escalate_other d.label_set)

  -- A label that is neither a state label nor needs:human is among the normalized labels exactly if
  -- it was there before.
  pub check_label_set_other :
      (s : List String) → contains (check_label_set s).normalized_labels y ≡ contains s y
  unfolding check_label_set
  check_label_set_other s =
      contains-ordered_labels _ y
      ∙ resolve_human_other (resolve_states s (active_state_labels s))
      ∙ resolve_states_other s (active_state_labels s)

-- A set that meets the invariants is left as it is.
consistent_draft :
    (s : List String)
    → IsConsistent s
    → resolve_human (resolve_states s (active_state_labels s))
      ≡ record { label_set = s; action = unchanged; violations = []; error_class = none }
unfolding resolve_human resolve_states
consistent_draft s c = from_list (active_state_labels s) refl
  where
    kept : Draft
    kept = record { label_set = s; action = unchanged; violations = []; error_class = none }

    quiet : (contains s human_label && not_failed_or_dead (active_state_labels s)) ≡ false
    quiet = ground (arith, c.human_allowed)

    from_list :
        (l : List String)
        → active_state_labels s ≡ l
        → resolve_human (resolve_states s (active_state_labels s)) ≡ kept
    from_list [] e = absurd (omega (arith, ap length e, c.one_state))
    from_list (x ∷ []) e = rw (e, resolve_states) (rw quiet)
    from_list (x ∷ y ∷ more) e = absurd (omega (arith, ap length e, c.one_state))

-- Nothing to report means that nothing was changed.
silent_draft :
    (s l : List String)
    → is_empty (resolve_human (resolve_states s l)).violations ≡ true
    → (resolve_human (resolve_states s l)).label_set ≡ s
unfolding resolve_human resolve_states resolve_multiple
silent_draft s [] h = ground arith
silent_draft s (x ∷ []) h = ground arith
silent_draft s (x ∷ y ∷ more) h = ground arith

-- A set of labels is reported valid exactly if it meets the invariants, and then nothing was changed:
-- the action is `unchanged`, there is no error class, and the same labels come out.
pub check_label_set-valid :
    (s : List String)
    → (((check_label_set s).valid ≡ true) ↔ IsConsistent s)
      × (IsConsistent s
          → ((check_label_set s).action ≡ unchanged)
            × ((check_label_set s).error_class ≡ none)
            × ((y : String) → contains (check_label_set s).normalized_labels y ≡ contains s y))
unfolding check_label_set
check_label_set-valid s = (
  (
    λ h. subst IsConsistent (silent_draft s (active_state_labels s) h) (
        resolve_human-IsConsistent (resolve_states s (active_state_labels s))
          (resolve_states-HasOneState s)),
    λ c. ap (λ d. is_empty d.violations) (consistent_draft s c),
  ),
  λ c. (
    ap (λ d. d.action) (consistent_draft s c),
    ap (λ d. d.error_class) (consistent_draft s c),
    λ y. contains-ordered_labels _ y ∙ ap (λ d. contains d.label_set y) (consistent_draft s c),
  ),
)
