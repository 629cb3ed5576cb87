-- ===== src/WorkerAdapter/Tests.antt =====
-- Runs of src/watcher/worker_adapter.py.
use orchestrator_state_machi.Prelude.{true, false, [], ◌∷◌, String, ◌≡◌, refl, ok, arith}
use orchestrator_state_machi.Prelude.Int.{pos}
use orchestrator_state_machi.HandoffParser.{HandoffPayload, parse_handoff_block}
use orchestrator_state_machi.HandoffParser.Payloads.{IsHandoff}
use orchestrator_state_machi.WorkerAdapter.{
  OriginResumeContext, evaluate_origin_resume, emit_worker_handoff_block, decision,
}
use orchestrator_state_machi.WorkerAdapter.Resume.{evaluate_origin_resume-can_resume}
use orchestrator_state_machi.WorkerAdapter.RoundTrip.{parse_handoff_block-emit_worker_handoff_block}

abbrev payload : HandoffPayload
payload = record {
  origin_id = "or-1";
  bug_id = "bd-22.a";
  error_signature = "abc:defg_1";
  expected_minutes = pos 480;
  estimated_loc = pos 1;
  touches_api_or_schema = true;
  touches_security_or_auth = false;
  quick_test_available = true;
}

payload-IsHandoff : IsHandoff payload
payload-IsHandoff = record {
  origin_id = (refl, refl, omega arith, omega arith);
  bug_id = (refl, refl, omega arith, omega arith);
  error_signature = (refl, omega arith, omega arith);
  minutes = (omega arith, omega arith);
  loc = (omega arith, omega arith);
}

emit_test :
    emit_worker_handoff_block payload
    ≡ "handoff:\n  origin_id: or-1\n  bug_id: bd-22.a\n  error_signature: abc:defg_1\n  expected_minutes: 480\n  estimated_loc: 1\n  touches_api_or_schema: true\n  touches_security_or_auth: false\n  quick_test_available: true\n"
unfolding emit_worker_handoff_block
emit_test = refl

parse_handoff_block-emit_worker_handoff_block_example :
    parse_handoff_block (emit_worker_handoff_block payload) ≡ ok payload
parse_handoff_block-emit_worker_handoff_block_example =
    parse_handoff_block-emit_worker_handoff_block payload payload-IsHandoff

abbrev context : OriginResumeContext
context = record {
  origin_id = "or-1";
  bug_id = "bd-2";
  bug_closed = true;
  dependency_present = false;
  origin_blocked = true;
  origin_in_progress = false;
}

evaluate_origin_resume-can_resume_example :
    (reason : String) × (evaluate_origin_resume context
      ≡ decision true reason ("set_origin_in_progress" ∷ []))
evaluate_origin_resume-can_resume_example = evaluate_origin_resume-can_resume context refl refl
