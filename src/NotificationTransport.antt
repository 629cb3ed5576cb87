-- ===== src/NotificationTransport.antt =====
-- src/watcher/notification_transport.py: the message of an escalation, and its delivery over several
-- transports. A transport other than the one of the module is a parameter (what `send` returns), and so
-- is `json.dumps`. Fanout has the theorem.
mod Fanout
mod Tests
use orchestrator_state_machi.Prelude.{
  String, Bool, true, false, ◌||◌, List, [], ◌∷◌, append, if◌then◌else◌, Result, ok, raise,
  raise_if, ◌>>=◌, ◌>>◌,
}
use orchestrator_state_machi.Prelude.Int.{ℤ, pos, ltb_ℤ}
use orchestrator_state_machi.Prelude.Text.{is_blank}
use orchestrator_state_machi.Prelude.Json.{Value, dict, Fields}
use orchestrator_state_machi.Prelude.Decimal.{show_ℤ}

pub record NotificationMessage : Type 0 where
  pub handoff_key : String
  pub bug_id : String
  pub priority : ℤ
  pub error_class : String
  pub summary : String
  pub queued : Bool
  pub metadata : Value

pub record TransportReceipt : Type 0 where
  pub transport : String
  pub delivered : Bool
  pub destination : String
  pub labels : List String
  pub note : String

-- NotificationTransportError, by its message.
abbrev pub Sent : Type 0 → Type 0
Sent A = Result String A

abbrev pub Transport : Type 0
Transport = NotificationMessage → Sent TransportReceipt

-- The object of a value, `isinstance(metadata, dict)`.
unfoldable pub object_of : Value → Sent Fields
object_of (dict d) = ok d
object_of _ = raise "metadata must be an object"

-- `_validate_message`, with the object of the metadata.
unfoldable pub validate_message : NotificationMessage → Sent Fields
validate_message message =
    raise_if (is_blank message.handoff_key) "handoff_key is required"
    >> raise_if (is_blank message.bug_id) "bug_id is required"
    >> raise_if (ltb_ℤ message.priority (pos 0) || ltb_ℤ (pos 4) message.priority)
        "priority must be in range 0..4"
    >> raise_if (is_blank message.error_class) "error_class is required"
    >> raise_if (is_blank message.summary) "summary is required"
    >> object_of message.metadata

-- `_render_bead_note`, for the text of the metadata.
unfoldable pub render_bead_note : NotificationMessage → String → String
render_bead_note message metadata_json = append "escalation:\n  handoff_key: " (
    append message.handoff_key (
      append "\n  bug_id: " (
        append message.bug_id (
          append "\n  priority: P" (
            append (show_ℤ message.priority) (
              append "\n  error_class: " (
                append message.error_class (
                  append "\n  queued: " (
                    append (if message.queued then "true" else "false") (
                      append "\n  summary: \"" (
                        append message.summary
                          (append "\"\n  metadata: " (append metadata_json "\n")))))))))))))

-- `BeadNativeTransport.send`
unfoldable pub send_bead_native : (Fields → String) → Transport
send_bead_native dumps message = validate_message message >>= λ metadata. ok (record {
  transport = "bead-native";
  delivered = true;
  destination = "bead:labels+notes";
  labels = "needs:human" ∷ (if message.queued then "notify:queued" else "notify:immediate") ∷ [];
  note = render_bead_note message (dumps metadata);
})

-- `FanoutTransport.__init__`
unfoldable pub fanout : List Transport → Sent (List Transport)
fanout [] = raise "fanout transport requires at least one transport"
fanout (t ∷ ts) = ok (t ∷ ts)

-- `FanoutTransport.send_all`: the first exception ends it.
unfoldable pub send_all : List Transport → NotificationMessage → Sent (List TransportReceipt)
send_all [] message = ok []
send_all (send ∷ transports) message =
    send message >>= λ receipt. send_all transports message >>= λ receipts. ok (receipt ∷ receipts)
