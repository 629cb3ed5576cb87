-- ===== src/StateStore/Tests.antt =====
-- Runs and instances for the state store.
use orchestrator_state_machi.Prelude.{
  ℕ, ◌≡◌, refl, true, false, Option, none, some, List, [], ◌∷◌, ok,
}
use orchestrator_state_machi.Prelude.Int.{ℤ, pos, ◌+ℤ◌}
use orchestrator_state_machi.Prelude.Dict.{lookup}
use orchestrator_state_machi.StateStore.{
  StateRecord, SaveResult, Store, record_from_payload, payload_from_record, load, save, version_of,
  as_optional,
}
use orchestrator_state_machi.StateStore.Versions.{
  Writes, stored, record_from_payload-payload_from_record, save-Writes,
}
use orchestrator_state_machi.StateStore.Writers.{save_all, save_lost_update, save_all-version}

abbrev running_record : StateRecord
running_record = record {
  state = "RUNNING";
  attempt = pos 0;
  last_transition_at = "2026-02-20T09:30:00Z";
  next_retry_at = none;
  last_error_class = none;
  owner_id = some "worker-a";
  version = pos 0;
}

abbrev done_record : StateRecord
done_record = record running_record { state = "DONE" }

abbrev one_key : Store
one_key = ("key", payload_from_record (record running_record { version = pos 4 })) ∷ []

reads : load "key" one_key ≡ ok (some (record running_record { version = pos 4 }))
unfolding load lookup payload_from_record as_optional
reads = refl

payload_example : record_from_payload (payload_from_record running_record) ≡ ok running_record
payload_example = record_from_payload-payload_from_record running_record

save-Writes_example :
    (out : SaveResult × Store) × (save "key" done_record (some (pos 4)) one_key ≡ ok out)
    × Writes "key"
        (some (pos 4))
        done_record
        (some (record running_record { version = pos 4 }))
        one_key
        out
save-Writes_example = save-Writes "key" (some (pos 4)) one_key reads done_record

abbrev finish : Option StateRecord → StateRecord
finish none = done_record
finish (some r) = record r { state = "DONE" }

save_lost_update_example :
    (first : SaveResult × Store) × (second : SaveResult × Store) × (save "key" done_record
        (some (pos 4))
        one_key
      ≡ ok first)
    × (first.0.saved ≡ true)
    × (save "key" running_record (some (pos 4)) first.1 ≡ ok second)
    × (second.0.saved ≡ false)
    × (second.1 ≡ first.1)
    × (second.0.current ≡ some (stored done_record (pos 4)))
save_lost_update_example = save_lost_update "key" one_key done_record running_record reads

abbrev calls : List (StateRecord × Option ℤ)
calls = (done_record, some (pos 4)) ∷ (running_record, some (pos 4)) ∷ (running_record, none) ∷ []

save_all-version_example :
    (n : ℕ) × (e : Store) × (after : Option StateRecord) × (save_all "key" calls one_key
      ≡ ok (n, e))
    × (load "key" e ≡ ok after)
    × (version_of after ≡ pos 4 +ℤ pos n)
save_all-version_example = save_all-version "key" calls one_key reads
