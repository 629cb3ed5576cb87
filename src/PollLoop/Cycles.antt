-- ===== src/PollLoop/Cycles.antt =====
-- src/watcher/poll_loop.py: when the loop ends.
use orchestrator_state_machi.Prelude.{
  ℕ, zero, suc, ◌+◌, ◌<◌, true, false, List, [], ◌∷◌, ◌≡◌, refl, none, some, ok, arith,
}
use orchestrator_state_machi.Prelude.Int.{ℤ, pos, ◌<ℤ◌, leb_ℤ}
use orchestrator_state_machi.PollLoop.{
  BeadSnapshot, Event, yielded, slept, enough, poll_once, poll_rounds, poll_loop,
}

module _ (fetch_snapshots : ℕ → List BeadSnapshot) (poll_seconds limit : ℤ) where
  -- A list is yielded, and so often `more`, after a pause, the next one.
  unfoldable pub events : ℕ → ℕ → List Event
  events zero call = yielded (poll_once fetch_snapshots limit call) ∷ []
  events (suc more) call =
      yielded (poll_once fetch_snapshots limit call) ∷ slept poll_seconds ∷ events more (suc call)

  poll_rounds_end :
      (more fuel call m : ℕ)
      → more < fuel
      → m ≡ suc (call + more)
      → poll_rounds fetch_snapshots poll_seconds limit (some (pos m)) fuel call
        ≡ (events more call, true)
  unfolding poll_rounds events
  poll_rounds_end more zero call m h e = absurd (omega arith)
  poll_rounds_end zero (suc fuel) call m h e =
      let ended : enough (some (pos m)) (suc call) ≡ true = ground arith in rw ended refl
  poll_rounds_end (suc more) (suc fuel) call m h e =
      let on : enough (some (pos m)) (suc call) ≡ false = ground arith in
      rw (on, poll_rounds_end more fuel (suc call) m (omega arith) (omega arith)) refl

  -- With a positive number of seconds and of rounds, the loop ends by itself: it yields a selection of the
  -- beads in each round and sleeps between two.
  pub poll_loop_ends :
      (more fuel : ℕ)
      → pos 0 <ℤ poll_seconds
      → more < fuel
      → poll_loop fetch_snapshots poll_seconds limit (some (pos (suc more))) fuel
        ≡ ok (events more 0, true)
  unfolding poll_loop
  poll_loop_ends more fuel positive h =
      let seconds : leb_ℤ poll_seconds (pos 0) ≡ false = ground (arith, positive) in
      let cycles : enough (some (pos (suc more))) 0 ≡ false = ground arith in
      rw (seconds, cycles, poll_rounds_end more fuel 0 (suc more) h (omega arith)) refl

  -- Without `max_cycles` the loop has not ended, however long it runs.
  pub poll_rounds_go_on :
      (fuel call : ℕ) → (poll_rounds fetch_snapshots poll_seconds limit none fuel call).1 ≡ false
  unfolding poll_rounds
  poll_rounds_go_on zero call = refl
  poll_rounds_go_on (suc fuel) call = poll_rounds_go_on fuel (suc call)
