-- ===== src/PollLoop/Tests.antt =====
-- Runs of src/watcher/poll_loop.py.
use orchestrator_state_machi.Prelude.{ℕ, true, List, [], ◌∷◌, String, ◌≡◌, refl, some, ok, arith}
use orchestrator_state_machi.Prelude.Int.{pos}
use orchestrator_state_machi.Prelude.Sort.{sort, text_before}
use orchestrator_state_machi.PollLoop.{
  BeadSnapshot, item_before, key_before, select_eligible_queued, poll_loop,
}
use orchestrator_state_machi.PollLoop.Selection.{IsSelection, select_eligible_queued-IsSelection}
use orchestrator_state_machi.PollLoop.Cycles.{events, poll_loop_ends}

abbrev bead : String → ℕ → String → BeadSnapshot
bead id priority labels = record {
  bead_id = id;
  priority = pos priority;
  updated_at = "2026-02-01T00:00:00Z";
  labels = "needs:orchestrator" ∷ labels ∷ [];
  notes_text =
      "handoff:\n  origin_id: or-1\n  bug_id: bd-22\n  error_signature: abc:defg\n  expected_minutes: 30\n  estimated_loc: 100\n  touches_api_or_schema: true\n  touches_security_or_auth: false\n  quick_test_available: true\n";
}

abbrev snapshots : List BeadSnapshot
snapshots = bead "b" 2 "" ∷ bead "c" 1 "" ∷ bead "a" 1 "needs:human" ∷ bead "a" 2 "" ∷ []

sort_test :
    sort item_before (bead "b" 2 "" ∷ bead "c" 1 "" ∷ bead "a" 2 "" ∷ [])
    ≡ bead "c" 1 "" ∷ bead "a" 2 "" ∷ bead "b" 2 "" ∷ []
unfolding sort item_before key_before text_before
sort_test = refl

select_eligible_queued-IsSelection_example :
    IsSelection snapshots (pos 1) (select_eligible_queued snapshots (pos 1))
select_eligible_queued-IsSelection_example = select_eligible_queued-IsSelection snapshots (pos 1)

poll_loop_ends_example :
    poll_loop (λ n. snapshots) (pos 15) (pos 20) (some (pos 2)) 5
    ≡ ok (events (λ n. snapshots) (pos 15) (pos 20) 1 0, true)
poll_loop_ends_example =
    poll_loop_ends (λ n. snapshots) (pos 15) (pos 20) 1 5 (omega arith) (omega arith)
