-- ===== src/WorkerAdapter/Resume.antt =====
-- src/watcher/worker_adapter.py: when an origin goes on.
use orchestrator_state_machi.Prelude.{
  String, Bool, true, false, not, ◌&&◌, List, [], ◌∷◌, ◌≡◌, refl, if◌then◌else◌,
}
use orchestrator_state_machi.Prelude.Text.{is_blank}
use orchestrator_state_machi.WorkerAdapter.{OriginResumeContext, decision, evaluate_origin_resume}

-- One action for an origin that can resume; and else none, but the removal of a dependency on a bug
-- that is closed.
abbrev pub next_actions : Bool → Bool → Bool → Bool → List String
next_actions closed present blocked busy =
    if closed && not present && not busy
    then (if blocked then "set_origin_in_progress" else "ensure_origin_active") ∷ []
    else if closed && present
    then "remove_origin_bug_dependency" ∷ []
    else []

resume_cases :
    (origin_id bug_id : String) (closed present blocked busy : Bool)
    → is_blank origin_id ≡ false
    → is_blank bug_id ≡ false
    → (reason : String) × (evaluate_origin_resume (record {
      origin_id = origin_id;
      bug_id = bug_id;
      bug_closed = closed;
      dependency_present = present;
      origin_blocked = blocked;
      origin_in_progress = busy;
    })
        ≡ decision
            (closed && not present && not busy)
            reason
            (next_actions closed present blocked busy))
unfolding evaluate_origin_resume
resume_cases o b false present blocked busy origin bug = ("bug_not_closed", rw (origin, bug) refl)
resume_cases o b true true blocked busy origin bug =
    ("origin_dependency_still_present", rw (origin, bug) refl)
resume_cases o b true false blocked true origin bug =
    ("origin_already_in_progress", rw (origin, bug) refl)
resume_cases o b true false true false origin bug = ("resume_ready", rw (origin, bug) refl)
resume_cases o b true false false false origin bug = ("resume_ready", rw (origin, bug) refl)

-- A context with both identifiers gets a decision: the origin can resume exactly when its bug is
-- closed, the dependency on it is gone and the origin is not in progress already; then there is one
-- action, and else there is none but to remove a dependency on a closed bug.
pub evaluate_origin_resume-can_resume :
    (context : OriginResumeContext)
    → is_blank context.origin_id ≡ false
    → is_blank context.bug_id ≡ false
    → let free =
        context.bug_closed && not context.dependency_present && not context.origin_in_progress in
      (reason : String) × (evaluate_origin_resume context
        ≡ decision free reason (
            next_actions context.bug_closed context.dependency_present context.origin_blocked
              context.origin_in_progress))
evaluate_origin_resume-can_resume context origin bug =
    resume_cases context.origin_id context.bug_id context.bug_closed context.dependency_present
      context.origin_blocked context.origin_in_progress origin bug
