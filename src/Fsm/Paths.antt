-- ===== src/Fsm/Paths.antt =====
-- src/watcher/fsm.py over sequences of calls: which states can follow which.
use orchestrator_state_machi.Prelude.{◌≡◌, ◌≢◌, ◌↔◌, refl, ok, subst}
use orchestrator_state_machi.Fsm.{
  FsmState, queued, running, retry_wait, done, human_required, FsmEvent, claim_ready,
  command_succeeded, cooldown_expired, TransitionArgs, TransitionResult, default_args,
  execute_transition,
}
use orchestrator_state_machi.Fsm.Diagram.{
  Edge, claim, succeed, retry, give_up, resume, force, while_running, while_waiting, accepted-Edge,
  execute_transition_iff,
}

-- The states that accepted transitions lead to, one after the other.
pub data Reaches (s : FsmState) : FsmState → Type 0 where
  here : Reaches s s
  next :
      {t u : FsmState}
      → Reaches s t
      → (e : FsmEvent) (a : TransitionArgs) (r : TransitionResult) → execute_transition t e a ≡ ok r
      → r.to_state ≡ u
      → Reaches s u

-- No edge leaves DONE, and only edges to itself leave HUMAN_REQUIRED.
Edge-done : {a : TransitionArgs} {s t : FsmState} {e : FsmEvent} → Edge a s e t → s ≢ done
Edge-done (claim l k) = λ h. cc
Edge-done succeed = λ h. cc
Edge-done (retry c t k l q n) = λ h. cc
Edge-done (give_up c while_running t k l) = λ h. cc
Edge-done (give_up c while_waiting t k l) = λ h. cc
Edge-done (resume l k) = λ h. cc
Edge-done (force n) = n

Edge-human_required :
    {a : TransitionArgs} {s t : FsmState} {e : FsmEvent}
    → Edge a s e t
    → s ≡ human_required
    → t ≡ human_required
Edge-human_required (claim l k) = λ h. cc
Edge-human_required succeed = λ h. cc
Edge-human_required (retry c t k l q n) = λ h. cc
Edge-human_required (give_up c f t k l) = λ h. refl
Edge-human_required (resume l k) = λ h. cc
Edge-human_required (force n) = λ h. refl

step-Edge :
    (t : FsmState) (e : FsmEvent) (a : TransitionArgs) (r : TransitionResult) {u : FsmState}
    → execute_transition t e a ≡ ok r
    → r.to_state ≡ u
    → Edge a t e u
step-Edge t e a r h to = subst (Edge a t e) to (accepted-Edge t e a h)

-- Once a handoff is DONE, or is HUMAN_REQUIRED, no sequence of accepted transitions takes it to
-- another state.
pub Reaches-terminal :
    {s t : FsmState}
    → Reaches s t
    → (s ≡ done → t ≡ done) × (s ≡ human_required → t ≡ human_required)
Reaches-terminal here = (λ h. h, λ h. h)
Reaches-terminal (next {t} p e a r h to) =
    let k = step-Edge t e a r h to in
    let (d, m) = Reaches-terminal p in
    (λ x. absurd (Edge-done k (d x)), λ x. Edge-human_required k (m x))

by-Edge :
    {s t u : FsmState} (e : FsmEvent) (a : TransitionArgs)
    → Reaches s t
    → Edge a t e u
    → Reaches s u
by-Edge {t = t} {u = u} e a p k =
    let (r, h, _, to) = (execute_transition_iff t e a u).1 k in next p e a r h to

running-done : {s : FsmState} → Reaches s running → Reaches s done
running-done p = by-Edge command_succeeded default_args p succeed

Reaches-done : (s : FsmState) → s ≢ human_required → Reaches s done
Reaches-done queued n = running-done (by-Edge claim_ready default_args here (claim refl refl))
Reaches-done running n = running-done here
Reaches-done retry_wait n =
    running-done (by-Edge cooldown_expired default_args here (resume refl refl))
Reaches-done done n = here
Reaches-done human_required n = absurd (n refl)

-- A handoff can still be completed exactly as long as it is not HUMAN_REQUIRED.
pub Reaches-done_iff : (s : FsmState) → Reaches s done ↔ (s ≢ human_required)
Reaches-done_iff s = (λ p h. cc ((Reaches-terminal p).1 h), Reaches-done s)
