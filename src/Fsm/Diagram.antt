-- ===== src/Fsm/Diagram.antt =====
-- src/watcher/fsm.py against the transition diagram of the specification: an event is accepted
-- exactly where the diagram has an edge whose conditions hold.
use orchestrator_state_machi.Prelude.{
  true, false, ◌≡◌, ◌≢◌, ◌↔◌, ◌⊎◌, refl, arith, Result, ok, raise, subst, ok_injective, sym, ◌∙◌,
}
use orchestrator_state_machi.Prelude.Int.{◌≤ℤ◌, ◌<ℤ◌}
use orchestrator_state_machi.ErrorClassifier.{
  ErrorClassification, ErrorClassifierError, classify_error,
}
use orchestrator_state_machi.Fsm.{
  FsmState, queued, running, retry_wait, done, human_required, FsmEvent, claim_ready,
  command_succeeded, command_failed, cooldown_expired, force_human, TransitionArgs,
  TransitionResult, FsmTransitionError, truthy, given, execute_transition, on_command_failed,
  on_classified_failure,
}

-- A command can fail while it runs, and while its retry waits.
pub data CanFail : FsmState → Type 0 where
  while_running : CanFail running
  while_waiting : CanFail retry_wait

-- The failure counts as final: the retries are used up, or the error class is not retriable.
abbrev pub IsFinal : TransitionArgs → ErrorClassification → Type 0
IsFinal a c = (a.max_retries ≤ℤ a.retry_count) ⊎ (c.retryable ≡ false)

-- The edges, with their conditions on the arguments of the event.
pub data Edge (a : TransitionArgs) : FsmState → FsmEvent → FsmState → Type 0 where
  claim : a.lock_acquired ≡ true → a.claim_succeeded ≡ true → Edge a queued claim_ready running
  succeed : Edge a running command_succeeded done
  retry :
      (c : ErrorClassification)
      → truthy a.error_class ≡ true
      → classify_error a.error_class ≡ ok c
      → a.retry_count <ℤ a.max_retries
      → c.retryable ≡ true
      → given a.next_retry_at ≡ true
      → Edge a running command_failed retry_wait
  give_up :
      {s : FsmState} (c : ErrorClassification)
      → CanFail s
      → truthy a.error_class ≡ true
      → classify_error a.error_class ≡ ok c
      → IsFinal a c
      → Edge a s command_failed human_required
  resume :
      a.lock_acquired ≡ true → a.claim_succeeded ≡ true → Edge a retry_wait cooldown_expired running
  force : {s : FsmState} → s ≢ done → Edge a s force_human human_required

ruleset edges = (claim, succeed, retry, give_up, resume, force, while_running, while_waiting)

failure-Edge :
    (s : FsmState) (a : TransitionArgs) (c : ErrorClassification) {r : TransitionResult}
    → CanFail s
    → truthy a.error_class ≡ true
    → classify_error a.error_class ≡ ok c
    → on_classified_failure s a c ≡ ok r
    → Edge a s command_failed r.to_state
unfolding on_classified_failure
failure-Edge s a c while_running t k h = grind (arith, edges)
failure-Edge s a c while_waiting t k h = grind (arith, edges)

-- What a failure that is accepted went through.
classified :
    (s : FsmState) (a : TransitionArgs) {r : TransitionResult}
    → on_command_failed s a ≡ ok r
    → (truthy a.error_class ≡ true)
      × (c : ErrorClassification) × (classify_error a.error_class ≡ ok c)
      × (on_classified_failure s a c ≡ ok r)
unfolding on_command_failed
classified s a {r} h = from_cases (classify_error a.error_class) refl
  where
    from_cases :
        (m : Result ErrorClassifierError ErrorClassification)
        → classify_error a.error_class ≡ m
        → (truthy a.error_class ≡ true)
          × (c : ErrorClassification) × (classify_error a.error_class ≡ ok c)
          × (on_classified_failure s a c ≡ ok r)
    from_cases (ok c) k = (ground arith, c, k, ground arith)
    from_cases (raise x) k = absurd (ground arith)

pub accepted-Edge :
    (s : FsmState) (e : FsmEvent) (a : TransitionArgs) {r : TransitionResult}
    → execute_transition s e a ≡ ok r
    → Edge a s e r.to_state
unfolding execute_transition
accepted-Edge queued claim_ready a h = grind (arith, edges)
accepted-Edge running command_failed a h =
    let (t, c, k, f) = classified running a h in failure-Edge running a c while_running t k f
accepted-Edge retry_wait command_failed a h =
    let (t, c, k, f) = classified retry_wait a h in failure-Edge retry_wait a c while_waiting t k f
accepted-Edge s cooldown_expired a h = grind (arith, edges)
accepted-Edge s force_human a h = grind (arith, edges)
accepted-Edge _ _ a h = grind (arith, edges)

-- A call that returns a transition from the one state to the other.
Returns : Result FsmTransitionError TransitionResult → FsmState → FsmState → Type 0
Returns (raise _) s t = ⊥
Returns (ok r) s t = (r.from_state ≡ s) × (r.to_state ≡ t)

Returns-ok :
    (m : Result FsmTransitionError TransitionResult) {s t : FsmState}
    → Returns m s t
    → (r : TransitionResult) × (m ≡ ok r) × (r.from_state ≡ s) × (r.to_state ≡ t)
unfolding Returns
Returns-ok (raise e) h = absurd h
Returns-ok (ok r) h = (r, refl, h.0, h.1)

Edge-Returns :
    (s : FsmState) (e : FsmEvent) (a : TransitionArgs) {t : FsmState}
    → Edge a s e t
    → Returns (execute_transition s e a) s t
unfolding execute_transition Returns
Edge-Returns s e a (claim l k) = rw (l, k) (refl, refl)
Edge-Returns s e a succeed = (refl, refl)
Edge-Returns s e a (retry c t k l q n) = ground arith
Edge-Returns s e a (give_up c while_running t k l) = ground arith
Edge-Returns s e a (give_up c while_waiting t k l) = ground arith
Edge-Returns s e a (resume l k) = rw (l, k) (refl, refl)
Edge-Returns s e a (force n) = ground arith

-- `execute_transition` returns a transition from its state to the state `t` exactly if the diagram
-- has an edge for the event from the one to the other whose conditions hold of the arguments: the
-- lock and the claim, the error class, the retry counters and the retry time.
pub execute_transition_iff :
    (s : FsmState) (e : FsmEvent) (a : TransitionArgs) (t : FsmState)
    → ((r : TransitionResult) × (execute_transition s e a ≡ ok r)
        × (r.from_state ≡ s)
        × (r.to_state ≡ t))
      ↔ Edge a s e t
execute_transition_iff s e a t = (
  λ (r, h, from, to). subst (Edge a s e) to (accepted-Edge s e a h),
  λ k. Returns-ok (execute_transition s e a) (Edge-Returns s e a k),
)

-- A transition starts in the state that the call was given.
pub from_state-execute_transition :
    (s : FsmState) (e : FsmEvent) (a : TransitionArgs) {r : TransitionResult}
    → execute_transition s e a ≡ ok r
    → r.from_state ≡ s
from_state-execute_transition s e a {r} h =
    let (r', h', from, _) = (execute_transition_iff s e a r.to_state).1 (accepted-Edge s e a h) in
    subst (λ x. x.from_state ≡ s) (ok_injective (sym h' ∙ h)) from
