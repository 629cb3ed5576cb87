-- ===== src/WorkerAdapter.antt =====
-- src/watcher/worker_adapter.py: the handoff block that a worker writes, and the test whether the
-- origin of a bug goes on. RoundTrip has the proof that the parser reads the block.
mod Block
mod Resume
mod RoundTrip
mod Tests
use orchestrator_state_machi.Prelude.{
  String, Bool, true, false, ◌||◌, List, [], ◌∷◌, append, if◌then◌else◌, Result, ok, raise, not,
}
use orchestrator_state_machi.Prelude.Text.{is_blank}
use orchestrator_state_machi.Prelude.Decimal.{show_ℤ}
use orchestrator_state_machi.HandoffParser.{HandoffPayload}

-- `'true' if flag else 'false'`
unfoldable pub show_flag : Bool → String
show_flag true = "true"
show_flag false = "false"

-- `f"  {key}: {value}"`
unfoldable pub field_line : String → String → String
field_line key value =
    String.◌∷◌ " " (String.◌∷◌ " " (append key (String.◌∷◌ ":" (String.◌∷◌ " " value))))

-- A line, its newline and the text that follows.
abbrev pub with_line : String → String → String
with_line line text = append line (String.◌∷◌ "\n" text)

-- `emit_worker_handoff_block`, on a payload.
unfoldable pub emit_worker_handoff_block : HandoffPayload → String
unfolding field_line show_ℤ show_flag
emit_worker_handoff_block payload = with_line "handoff:" (
    with_line (field_line "origin_id" payload.origin_id) (
      with_line (field_line "bug_id" payload.bug_id) (
        with_line (field_line "error_signature" payload.error_signature) (
          with_line (field_line "expected_minutes" (show_ℤ payload.expected_minutes)) (
            with_line (field_line "estimated_loc" (show_ℤ payload.estimated_loc)) (
              with_line
                (field_line "touches_api_or_schema" (show_flag payload.touches_api_or_schema))
                (with_line
                  (field_line "touches_security_or_auth"
                    (show_flag payload.touches_security_or_auth))
                  (with_line
                    (field_line "quick_test_available" (show_flag payload.quick_test_available))
                    String.[]))))))))

pub record OriginResumeContext : Type 0 where
  pub origin_id : String
  pub bug_id : String
  pub bug_closed : Bool
  pub dependency_present : Bool
  pub origin_blocked : Bool
  pub origin_in_progress : Bool

pub record OriginResumeDecision : Type 0 where
  pub can_resume : Bool
  pub reason : String
  pub actions : List String

abbrev pub decision : Bool → String → List String → Result String OriginResumeDecision
decision can_resume reason actions =
    ok (record { can_resume = can_resume; reason = reason; actions = actions })

-- `evaluate_origin_resume`, which raises a WorkerAdapterError's message.
unfoldable pub evaluate_origin_resume : OriginResumeContext → Result String OriginResumeDecision
evaluate_origin_resume context =
    if is_blank context.origin_id || is_blank context.bug_id
    then raise "origin_id and bug_id are required"
    else if not context.bug_closed
    then decision false "bug_not_closed" []
    else if context.dependency_present
    then decision false "origin_dependency_still_present" ("remove_origin_bug_dependency" ∷ [])
    else if context.origin_in_progress
    then decision false "origin_already_in_progress" []
    else if context.origin_blocked
    then decision true "resume_ready" ("set_origin_in_progress" ∷ [])
    else decision true "resume_ready" ("ensure_origin_active" ∷ [])
