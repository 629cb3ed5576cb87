-- ===== src/NotificationTransport/Tests.antt =====
-- Runs of src/watcher/notification_transport.py.
use orchestrator_state_machi.Prelude.{true, [], ◌∷◌, ◌≡◌, refl, raise}
use orchestrator_state_machi.Prelude.Int.{pos}
use orchestrator_state_machi.Prelude.Json.{dict, end, null}
use orchestrator_state_machi.Prelude.Decimal.{show_ℤ}
use orchestrator_state_machi.NotificationTransport.{
  NotificationMessage, validate_message, object_of, render_bead_note, send_bead_native, send_all,
}

abbrev message : NotificationMessage
message = record {
  handoff_key = "h";
  bug_id = "bd-1";
  priority = pos 4;
  error_class = "timeout";
  summary = "late";
  queued = true;
  metadata = dict end;
}

note_test :
    render_bead_note message "{}"
    ≡ "escalation:\n  handoff_key: h\n  bug_id: bd-1\n  priority: P4\n  error_class: timeout\n  queued: true\n  summary: \"late\"\n  metadata: {}\n"
unfolding render_bead_note show_ℤ
note_test = refl

object_test :
    send_all (send_bead_native (λ d. "{}") ∷ []) (record message { metadata = null })
    ≡ raise "metadata must be an object"
unfolding send_all send_bead_native validate_message object_of
object_test = refl

priority_test :
    validate_message (record message { priority = pos 5 }) ≡ raise "priority must be in range 0..4"
unfolding validate_message
priority_test = refl
