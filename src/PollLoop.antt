-- ===== src/PollLoop.antt =====
-- src/watcher/poll_loop.py: the choice of the beads to work on, and the loop that polls. Selection and
-- Cycles have the proofs about each.
mod Selection
mod Cycles
mod Tests
use orchestrator_state_machi.Prelude.{
  ℕ, zero, suc, ◌+◌, String, Bool, true, false, not, ◌&&◌, List, [], ◌∷◌, keep, take, contains,
  if◌then◌else◌, text_eq, leb, Option, none, some, Result, ok, raise, raise_if, ◌>>◌,
}
use orchestrator_state_machi.Prelude.Int.{ℤ, pos, ltb_ℤ, leb_ℤ, pos_part}
use orchestrator_state_machi.Prelude.Sort.{sort, text_before, pair_before}
use orchestrator_state_machi.HandoffParser.{parse_handoff_block}

pub record BeadSnapshot : Type 0 where
  pub bead_id : String
  pub priority : ℤ
  pub updated_at : String
  pub labels : List String
  pub notes_text : String

-- `except HandoffValidationError: return False`
abbrev pub succeeded : {E A : Type 0} → Result E A → Bool
succeeded (ok a) = true
succeeded (raise e) = false

-- `is_eligible_queued`
unfoldable pub is_eligible_queued : BeadSnapshot → Bool
is_eligible_queued snapshot =
    if not (contains snapshot.labels "needs:orchestrator")
    then false
    else if contains snapshot.labels "orchestrator:running"
    then false
    else if contains snapshot.labels "needs:human"
    then false
    else if contains snapshot.labels "orchestrator:done"
    then false
    else succeeded (parse_handoff_block snapshot.notes_text)

-- The key `(item.priority, item.updated_at, item.bead_id)`, and the order of two of them.
abbrev pub sort_key : BeadSnapshot → ℤ × (String × String)
sort_key item = (item.priority, (item.updated_at, item.bead_id))

abbrev pub int_eq : ℤ → ℤ → Bool
int_eq a b = leb_ℤ a b && leb_ℤ b a

unfoldable pub key_before : ℤ × (String × String) → ℤ × (String × String) → Bool
key_before = pair_before int_eq ltb_ℤ (pair_before text_eq text_before text_before)

unfoldable pub item_before : BeadSnapshot → BeadSnapshot → Bool
item_before a b = key_before (sort_key a) (sort_key b)

-- `select_eligible_queued`
unfoldable pub select_eligible_queued : List BeadSnapshot → ℤ → List BeadSnapshot
select_eligible_queued snapshots limit =
    if leb_ℤ limit (pos 0)
    then []
    else take (pos_part limit) (sort item_before (keep is_eligible_queued snapshots))

-- What the loop does: a list it yields, or a call of `sleep_fn`.
pub data Event : Type 0 where
  yielded : List BeadSnapshot → Event
  slept : ℤ → Event

-- `max_cycles is not None and cycles >= max_cycles`
abbrev pub enough : Option ℤ → ℕ → Bool
enough none cycles = false
enough (some max_cycles) cycles = leb_ℤ max_cycles (pos cycles)

-- `poll_once`, at the n-th call. `fetch_snapshots` stands for the beads: what each call of it returns.
unfoldable pub poll_once : (ℕ → List BeadSnapshot) → ℤ → ℕ → List BeadSnapshot
poll_once fetch_snapshots limit n = select_eligible_queued (fetch_snapshots n) limit

module _ (fetch_snapshots : ℕ → List BeadSnapshot) (poll_seconds limit : ℤ)
    (max_cycles : Option ℤ) where
  -- The loop, after `cycles` rounds and for `fuel` more at most; the flag tells whether it ended.
  unfoldable pub poll_rounds : ℕ → ℕ → List Event × Bool
  poll_rounds zero cycles = ([], false)
  poll_rounds (suc fuel) cycles =
      let rest = poll_rounds fuel (suc cycles) in
      if enough max_cycles (suc cycles)
      then (yielded (poll_once fetch_snapshots limit cycles) ∷ [], true)
      else (yielded (poll_once fetch_snapshots limit cycles) ∷ slept poll_seconds ∷ rest.0, rest.1)

  -- `poll_loop`, which raises a ValueError's message.
  unfoldable pub poll_loop : ℕ → Result String (List Event × Bool)
  poll_loop fuel =
      raise_if (leb_ℤ poll_seconds (pos 0)) "poll_seconds must be > 0"
      >> raise_if (enough max_cycles 0) "max_cycles must be > 0 when set"
      >> ok (poll_rounds fuel 0)
