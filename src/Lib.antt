-- ===== src/Lib.antt =====
-- The watcher of the orchestrator: handoffs that are claimed, run, retried and handed to a
-- human. Each part of src/watcher has a module here that states its data as data types and
-- records, its functions as functions, and its exceptions as values (Result of
-- Prelude/Results.antt, with one constructor for each message).
--
-- How the parts meet. A handoff has labels (label_invariants.py) and a stored record
-- (state_store.py). An owner takes a lease (lease_lock.py) and moves the handoff through the
-- states of fsm.py. A command reports its result in an envelope (command_adapter.py), whose
-- error is put into one of twelve classes (error_classifier.py). A failure is retried after a
-- cooldown (retry_cooldown.py) or given up (dead_letter.py); a run that shows no progress is
-- failed (stale_reconciler.py). Incidents that ask for a decision go through
-- policy_precedence.py, which reads whether they are duplicates (dedupe_store.py) and within
-- the budget of escalations (risk_budget_store.py). A worker writes a handoff block into the
-- notes of a bead (worker_adapter.py), which handoff_parser.py reads; poll_loop.py selects the
-- beads whose labels and block make them eligible. watcher_run_writer.py logs each run, and
-- notification_transport.py tells a human of an escalation. A repository's policy is merged
-- with the canonical one (policy_defaults.py), validated (policy_contract.py) and verified
-- (policy_verifier.py).
--
-- The files, by the part they model:
-- - ErrorClassifier: src/watcher/error_classifier.py. `classify_error` over an argument that is
--   absent, a text or a value of another type; Taxonomy has its theorems.
-- - Fsm: src/watcher/fsm.py. `execute_transition` with one function for each event; Diagram
--   relates it to the diagram of edges, Paths to what can be reached, Labels to the labels of
--   the states.
-- - Time: `_to_rfc3339`, `_from_rfc3339`, `parse_rfc3339_utc`, `format_rfc3339_utc` of
--   src/watcher/lease_lock.py, stale_reconciler.py, retry_cooldown.py and retry_scheduler.py.
--   Python's calendar is a parameter, the record Calendar with two laws; Example is a calendar
--   that meets them.
-- - StateStore: src/watcher/state_store.py. `load`, `save` and `update_atomic` on the object of
--   the file; Versions is about one write, Writers about several.
-- - LeaseLock: src/watcher/lease_lock.py. `acquire`, `heartbeat` and `release` on the content
--   of the lock file; Exclusion is about one call, Race about the calls of several owners.
-- - PolicyPrecedence: src/watcher/policy_precedence.py. One function for each stage of
--   `evaluate_policy_precedence`; Cases, Early and Outcomes say when each decision is taken.
-- - LabelInvariants: src/watcher/label_invariants.py. `validate_and_normalize_labels`, with
--   `_coerce_labels` in Coerce; Sets, Flags and Consistent have the theorems.
-- - RiskBudget: src/watcher/risk_budget_store.py. `load` and `evaluate_and_record` on the value
--   of the file; Budget has the theorems.
-- - Dedupe: src/watcher/dedupe_store.py. `evaluate_and_record` on the value of the file; Window
--   has the theorems.
-- - CommandAdapter: src/watcher/command_adapter.py. Parse is about `parse_command_envelope`,
--   Reconcile about `reconcile_command_envelope`.
-- - DeadLetter: src/watcher/dead_letter.py. Agreement compares it with the state machine.
-- - RetryCooldown: src/watcher/retry_cooldown.py. Gate has the theorems.
-- - RetryScheduler: src/watcher/retry_scheduler.py. `compute_retry_schedule`; Schedule has the
--   theorem.
-- - StaleReconciler: src/watcher/stale_reconciler.py. Stale has the theorem.
-- - PolicyContract: src/watcher/policy_contract.py. Values has the checks on single values,
--   Sections those on the sections, Policy the whole; Hours, Bounds and Accepted say what an
--   accepted policy satisfies.
-- - PolicyDefaults: src/watcher/policy_defaults.py. `inject_canonical_defaults` with
--   `_merge_node`; Merge is about the merge, Canonical about a second one.
-- - PolicyVerifier: src/watcher/policy_verifier.py. Settings, Reported and Verified have the
--   theorems; an OverflowError of the validation passes through all three parts of the policy.
-- - HandoffParser: src/watcher/handoff_parser.py. `parse_handoff_block` from the lines to the
--   payload, with the lines and the expressions in Text; Lines and Fields are about lines,
--   Stored about the mapping, Payloads about the payload.
-- - WorkerAdapter: src/watcher/worker_adapter.py. The block as a text; Block and RoundTrip show
--   that the parser reads it, Resume is about `evaluate_origin_resume`.
-- - PollLoop: src/watcher/poll_loop.py. Selection is about the beads selected, Cycles about the
--   loop.
-- - WatcherRunWriter: src/watcher/watcher_run_writer.py. Validation has `validate_watcher_run`,
--   the parent `append_watcher_run` on the lines of the log; Journal has the theorems.
-- - NotificationTransport: src/watcher/notification_transport.py. The message, the native
--   transport and the fanout; Fanout is about `send_all`.
-- - Prelude: the shared names, with integers, texts, JSON values, dictionaries, results, the
--   pieces of regular expressions, decimal numbers and sorting.
-- The module Tests of each part holds runs and instances of the theorems.
--
-- Conventions. A Python int is ℤ of Prelude/Int.antt, or a native number where the code has
-- checked that it is not negative; an instant is its microseconds in UTC, from an origin before
-- all of them. A float is an exact dyadic fraction, an infinity or NaN. `strip`, `split` and
-- `lower` work on code points; `lower` is exact where it yields an ASCII character. Recursion
-- is on the list, the text or the JSON value that is read, but for two functions on fuel:
-- `show_digits` of Prelude/Decimal.antt, whose fuel n + 1 is enough to print n, and
-- `poll_rounds` of PollLoop.antt, which has one round for each unit of fuel, so that max_cycles
-- units are enough; without max_cycles the loop never ends.
--
-- Not modelled: the text of JSON and the file system (a store is the value that its file holds,
-- and a write replaces it), `flock` (an operation under the lock is one step; lease_lock.py
-- takes none, so its reads and writes are separate steps in LeaseLock/Race.antt). Parameters
-- stand for the calendar, `zoneinfo` with `strftime`, sha1, the hash of a policy, `json.dumps`
-- of a message's metadata, the transports of a fanout, the float product of retry_scheduler.py
-- with its rounding and random.uniform, the beads that `fetch_snapshots` returns and
-- `float(text)`. The parts of src/watcher that no file above names are not modelled.
pub mod Prelude
pub mod ErrorClassifier
pub mod Fsm
pub mod Time
pub mod StateStore
pub mod WatcherRunWriter
pub mod WorkerAdapter
pub mod LeaseLock
pub mod PolicyPrecedence
pub mod LabelInvariants
pub mod RetryScheduler
pub mod RiskBudget
pub mod CommandAdapter
pub mod DeadLetter
pub mod RetryCooldown
pub mod Dedupe
pub mod StaleReconciler
pub mod HandoffParser
pub mod NotificationTransport
pub mod PolicyContract
pub mod PollLoop
pub mod PolicyDefaults
pub mod PolicyVerifier
