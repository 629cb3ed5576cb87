-- ===== src/StateStore/Versions.antt =====
-- src/watcher/state_store.py: what a write leaves to be read, and how the version counts.
use mathlib.Core.Option.{some-injective}
use orchestrator_state_machi.Prelude.{◌↔◌, ◌∙◌, arith, none}
use orchestrator_state_machi.Prelude.Int.{eq_of_parts}
use orchestrator_state_machi.Prelude.{
  String, true, false, ◌≡◌, ◌≢◌, refl, Option, none, some, ok, raise, Bool-cases, inl, inr, not,
  sym,
}
use orchestrator_state_machi.Prelude.Int.{ℤ, pos, ◌+ℤ◌}
use orchestrator_state_machi.Prelude.Dict.{lookup, insert, lookup-insert_self, lookup-insert_ne}
use orchestrator_state_machi.Prelude.Json.{Fields, end, field}
use orchestrator_state_machi.StateStore.{
  StateRecord, SaveResult, Store, record_from_payload, payload_from_record, load, existing, commit,
  save, update_atomic, version_of, is_stale, as_optional, optional, key_error,
}

as_optional-optional : (k : String) (o : Option String) → as_optional k (optional o) ≡ ok o
unfolding as_optional
as_optional-optional k none = refl
as_optional-optional k (some s) = refl

-- A record that is written as a payload is read back from it unchanged.
pub record_from_payload-payload_from_record :
    (r : StateRecord) → record_from_payload (payload_from_record r) ≡ ok r
unfolding record_from_payload payload_from_record
record_from_payload-payload_from_record r = simp as_optional-optional

-- The record that a write of `r` over the version `v` stores.
abbrev pub stored : StateRecord → ℤ → StateRecord
stored r v = record r { version = v +ℤ pos 1 }

-- What one write does, stated over reads alone: a conflict is an expected version that is another than
-- the stored one; the keys of a conflict stay as they are; otherwise
-- the key reads as the new record, with the next version, and every other key as before.
pub record Writes (k : String) (expected : Option ℤ) (candidate : StateRecord)
    (before : Option StateRecord) (d : Store) (out : SaveResult × Store) : Type 0 where
  pub conflict_exact : out.0.conflict ≡ is_stale expected (version_of before)
  pub conflict_iff :
      (out.0.conflict ≡ true) ↔ ((e : ℤ) × (expected ≡ some e) × (e ≢ version_of before))
  pub saved_exact : out.0.saved ≡ not out.0.conflict
  pub current_exact : out.0.current ≡ before
  pub on_conflict : out.0.conflict ≡ true → (out.1 ≡ d) × (out.0.version ≡ version_of before)
  pub on_success :
      out.0.conflict ≡ false
      → (load k out.1 ≡ ok (some (stored candidate (version_of before))))
        × (out.0.version ≡ version_of before +ℤ pos 1)
        × (out.0.record_saved ≡ some (stored candidate (version_of before)))
  pub others : (j : String) → k ≢ j → load j out.1 ≡ load j d

load-insert_self :
    (k : String) (r : StateRecord) (d : Store)
    → load k (insert k (payload_from_record r) d) ≡ ok (some r)
unfolding load
load-insert_self k r d =
    rw (lookup-insert_self k (payload_from_record r) d, load)
      (rw record_from_payload-payload_from_record)

load-insert_ne : (k j : String) (p : Fields) (d : Store) → k ≢ j → load j (insert k p d) ≡ load j d
unfolding load
load-insert_ne k j p d ne = rw (lookup-insert_ne k j p d ne, load)

is_stale_iff :
    (expected : Option ℤ) (v : ℤ)
    → (is_stale expected v ≡ true) ↔ ((e : ℤ) × (expected ≡ some e) × (e ≢ v))
is_stale_iff none v = (λ h. cc, λ (e, h, _). cc)
is_stale_iff (some e) v = (
  λ h. (e, refl, λ same. absurd (ground (arith, h, same))),
  λ (e₁, same, other). differs (λ h. other (some-injective _ _ (sym same) ∙ h)),
)
  where
    differs : e ≢ v → is_stale (some e) v ≡ true
    differs ne = elim (Bool-cases (is_stale (some e) v)) [
      | inl stale ↦ stale
      | inr fresh ↦ absurd (ne (eq_of_parts e v (ground (arith, fresh))))
    ]

commit-Writes :
    (k : String) (expected : Option ℤ) (f : Option StateRecord → StateRecord)
    (before : Option StateRecord) (d : Store)
    → Writes k expected (f before) before d (commit k expected f before d)
unfolding commit
commit-Writes k expected f before d = elim (Bool-cases (is_stale expected (version_of before))) [
  | inl stale ↦ rw stale (record {
    conflict_exact = sym stale;
    conflict_iff = (λ _. (is_stale_iff expected (version_of before)).0 stale, λ _. refl);
    saved_exact = refl;
    current_exact = refl;
    on_conflict = λ _. (refl, refl);
    on_success = λ h. cc;
    others = λ j ne. refl;
  })
  | inr fresh ↦ rw fresh (record {
    conflict_exact = sym fresh;
    conflict_iff = (λ h. cc, λ h. sym fresh ∙ (is_stale_iff expected (version_of before)).1 h);
    saved_exact = refl;
    current_exact = refl;
    on_conflict = λ h. cc;
    on_success = λ _. (load-insert_self k _ d, refl, refl);
    others = λ j ne. load-insert_ne k j _ d ne;
  })
]

-- `save` and `update_atomic` read what `load` reads.
existing-load :
    (k : String) (d : Store) {before : Option StateRecord}
    → load k d ≡ ok before
    → existing k d ≡ ok before
unfolding load existing
existing-load k d {before} h = from_cases (lookup k d) refl
  where
    from_cases : (m : Option Fields) → lookup k d ≡ m → existing k d ≡ ok before
    from_cases none e = rw (e, existing) (rw (e, load) at h)
    from_cases (some end) e =
        let absurd_read : raise (key_error "state") ≡ ok before = rw (e, load) at h in cc
    from_cases (some (field j v p)) e = rw (e, existing) (rw (e, load) at h)

module _ (k : String) (expected : Option ℤ) (d : Store) {before : Option StateRecord}
    (read : load k d ≡ ok before) where
  -- `save` over a key that can be read returns a result, and reports a conflict exactly if the
  -- expected version is given and is not the stored one (0 for a new key). A conflict leaves the
  -- store as it was and returns the stored record. Otherwise the key then reads as the new record
  -- with the stored version plus one. No other key changes.
  pub save-Writes :
      (r : StateRecord)
      → (out : SaveResult × Store) × (save k r expected d ≡ ok out)
        × Writes k expected r before d out
  unfolding save
  save-Writes r = (
    commit k expected (λ _. r) before d,
    rw (existing-load k d read),
    commit-Writes k expected (λ _. r) before d,
  )

  -- `update_atomic` does the same with the record that the update function makes of the stored one.
  pub update_atomic-Writes :
      (f : Option StateRecord → StateRecord)
      → (out : SaveResult × Store) × (update_atomic k expected f d ≡ ok out)
        × Writes k expected (f before) before d out
  unfolding update_atomic
  update_atomic-Writes f = (
    commit k expected f before d,
    rw (existing-load k d read),
    commit-Writes k expected f before d,
  )
