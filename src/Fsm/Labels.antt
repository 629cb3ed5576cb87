-- ===== src/Fsm/Labels.antt =====
-- src/watcher/fsm.py: the labels that a transition adds and removes, against the labels of its states.
use orchestrator_state_machi.Prelude.{
  String, Bool, true, false, ◌&&◌, ◌||◌, not, List, [], ◌∷◌, ◌≡◌, refl, contains, All, Result, ok,
  raise, Bool-cases, inl, inr,
}
use orchestrator_state_machi.Prelude.Int.{leb_ℤ}
use orchestrator_state_machi.ErrorClassifier.{
  ErrorClassifierError, ErrorClassification, classify_error,
}
use orchestrator_state_machi.Fsm.{
  FsmState, queued, running, retry_wait, done, human_required, FsmEvent, claim_ready,
  command_succeeded, command_failed, cooldown_expired, force_human, TransitionArgs,
  TransitionResult, FsmTransitionError, invalid_error_class, execute_transition, on_claim_ready,
  on_command_succeeded, on_command_failed, on_classified_failure, on_cooldown_expired, truthy,
  given,
}

-- The labels of a handoff in a state, of the six that the watcher uses.
abbrev pub labels_of : FsmState → List String
labels_of queued = "needs:orchestrator" ∷ []
labels_of running = "orchestrator:running" ∷ []
labels_of retry_wait = "orchestrator:failed" ∷ []
labels_of done = "orchestrator:done" ∷ []
labels_of human_required = "orchestrator:dead" ∷ "needs:human" ∷ []

abbrev pub watcher_labels : List String
watcher_labels =
    "needs:orchestrator" ∷ "orchestrator:running" ∷ "orchestrator:failed" ∷ "orchestrator:done"
    ∷ "orchestrator:dead" ∷ "needs:human" ∷ []

-- Whether a label is there once a transition has removed and added its labels.
abbrev pub is_labelled : TransitionResult → String → Bool
is_labelled r l =
    (contains (labels_of r.from_state) l && not (contains r.remove_labels l))
    || contains r.add_labels l

-- A transition, if there is one, turns the labels of its first state into those of its last.
abbrev pub Relabels : Result FsmTransitionError TransitionResult → Type 0
Relabels (raise e) = Unit
Relabels (ok r) = All (λ l. is_labelled r l ≡ contains (labels_of r.to_state) l) watcher_labels

-- Neither a forced escalation nor a failure that is reported while a retry waits.
abbrev pub is_regular : FsmState → FsmEvent → Bool
is_regular s force_human = false
is_regular retry_wait command_failed = false
is_regular _ _ = true

on_classified_failure-Relabels :
    (a : TransitionArgs) (c : ErrorClassification) → Relabels (on_classified_failure running a c)
unfolding on_classified_failure
on_classified_failure-Relabels a c =
    elim (Bool-cases (leb_ℤ a.max_retries a.retry_count || not c.retryable)) [
      | inl final ↦ rw final (refl, (refl, (refl, (refl, (refl, (refl, tt))))))
      | inr open_ ↦ elim (Bool-cases (given a.next_retry_at)) [
        | inl at ↦ rw (open_, at) (refl, (refl, (refl, (refl, (refl, (refl, tt))))))
        | inr never ↦ rw (open_, never) tt
      ]
    ]

-- Every regular transition that `execute_transition` accepts removes and adds labels such that, of
-- the six labels of the watcher, a handoff with those of the first state has those of the last.
pub execute_transition-Relabels :
    (s : FsmState) (e : FsmEvent) (a : TransitionArgs)
    → is_regular s e ≡ true
    → Relabels (execute_transition s e a)
unfolding execute_transition on_claim_ready on_command_succeeded on_command_failed
    on_cooldown_expired
execute_transition-Relabels queued claim_ready a h =
    elim (Bool-cases (not a.lock_acquired || not a.claim_succeeded)) [
      | inl refused ↦ rw refused tt
      | inr claimed ↦ rw claimed (refl, (refl, (refl, (refl, (refl, (refl, tt))))))
    ]
execute_transition-Relabels running command_succeeded a h =
    (refl, (refl, (refl, (refl, (refl, (refl, tt))))))
execute_transition-Relabels running command_failed a h = elim (Bool-cases (truthy a.error_class)) [
  | inl t ↦ rw t (classified (classify_error a.error_class))
  | inr f ↦ rw f tt
]
  where
    classified :
        (m : Result ErrorClassifierError ErrorClassification)
        → Relabels (elim m [
          | raise exc ↦ raise (invalid_error_class exc)
          | ok c ↦ on_classified_failure running a c
        ])
    classified (raise exc) = tt
    classified (ok c) = on_classified_failure-Relabels a c
execute_transition-Relabels retry_wait cooldown_expired a h =
    elim (Bool-cases (not a.lock_acquired || not a.claim_succeeded)) [
      | inl refused ↦ rw refused tt
      | inr claimed ↦ rw claimed (refl, (refl, (refl, (refl, (refl, (refl, tt))))))
    ]
execute_transition-Relabels retry_wait command_failed a h = cc
execute_transition-Relabels s force_human a h = cc
execute_transition-Relabels _ _ a h = tt
