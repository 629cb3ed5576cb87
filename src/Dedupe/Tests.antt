-- ===== src/Dedupe/Tests.antt =====
-- src/watcher/dedupe_store.py: runs, and an instance of the theorem.
use orchestrator_state_machi.Prelude.{
  ◌+◌, ◌*◌, ◌<◌, String, true, false, ◌≡◌, ◌↔◌, refl, none, [], ◌∷◌, ok,
}
use orchestrator_state_machi.Prelude.Dict.{lookup, insert}
use orchestrator_state_machi.Time.Example.{zeros_calendar}
use orchestrator_state_machi.Dedupe.{
  DedupeDecision, Store, evaluate_and_record, evaluate_locked, aware_now, build_dedupe_key,
  read_entries, write_entries, prune_expired, decide,
}
use orchestrator_state_machi.Dedupe.Window.{evaluate, evaluate_and_record_again}

-- A hash that keeps its text.
abbrev plain : String → String
plain s = s

-- Different incidents have one key when their parts hold a colon.
same_key : build_dedupe_key plain "a:b" "c" "timeout" ≡ build_dedupe_key plain "a" "b:c" "timeout"
unfolding build_dedupe_key
same_key = refl

abbrev first : DedupeDecision
first = record {
  dedupe_key = "a:b:timeout";
  suppressed = false;
  reason = "outside_window_or_first_seen";
  remaining_seconds = 0;
}

let_in :
    evaluate zeros_calendar plain "a" "b" "timeout" 10 3 none
    ≡ ok (first, write_entries zeros_calendar (("a:b:timeout", 3) ∷ []))
unfolding evaluate_and_record evaluate_locked aware_now build_dedupe_key read_entries prune_expired
    decide lookup insert
let_in = refl

evaluate_and_record_again_example :
    (d' : DedupeDecision) × (store'' : Store) × (evaluate zeros_calendar plain "a" "b" "timeout" 10
        9
        (write_entries zeros_calendar (("a:b:timeout", 3) ∷ []))
      ≡ ok (d', store''))
    × ((d'.suppressed ≡ true) ↔ (9 < 3 + 10 * 60000000))
evaluate_and_record_again_example =
    evaluate_and_record_again zeros_calendar plain "a" "b" "timeout" 10 3 9 none let_in refl
