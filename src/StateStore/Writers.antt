-- ===== src/StateStore/Writers.antt =====
-- src/watcher/state_store.py under several writers: a write that expects a version that another
-- writer has replaced is refused, and the version counts the writes that were saved.
use orchestrator_state_machi.Prelude.{
  ℕ, suc, String, true, false, ◌≡◌, refl, arith, Option, some, List, [], ◌∷◌, Result, ok, ◌>>=◌,
  Bool-cases, inl, inr, ◌∙◌, if◌then◌else◌,
}
use orchestrator_state_machi.Prelude.Int.{ℤ, pos, ◌+ℤ◌, +ℤ_parts, int_laws}
use orchestrator_state_machi.StateStore.{
  StateRecord, SaveResult, PayloadError, Store, load, save, version_of, is_stale,
}
use orchestrator_state_machi.StateStore.Versions.{stored, save-Writes}

-- A version is not stale against itself, and is stale against the next one.
not_stale : (v : ℤ) → is_stale (some v) v ≡ false
not_stale v = ground arith

stale_next : (v : ℤ) → is_stale (some v) (v +ℤ pos 1) ≡ true
stale_next v = ground (arith, +ℤ_parts v (pos 1))

-- Two writers read the same version of a key. The first to save with it as the expected version is
-- saved; the second is then refused with a conflict, the store keeps the first writer's record, and
-- the second is shown that record.
pub save_lost_update :
    (k : String) (d : Store) {before : Option StateRecord} (r q : StateRecord)
    → load k d ≡ ok before
    → (first : SaveResult × Store) × (second : SaveResult × Store) × (save k r
          (some (version_of before))
          d
        ≡ ok first)
      × (first.0.saved ≡ true)
      × (save k q (some (version_of before)) first.1 ≡ ok second)
      × (second.0.saved ≡ false)
      × (second.1 ≡ first.1)
      × (second.0.current ≡ some (stored r (version_of before)))
save_lost_update k d {before} r q read =
    let v = version_of before in
    let (first, done, w) = save-Writes k (some v) d read r in
    let calm : first.0.conflict ≡ false = w.conflict_exact ∙ not_stale v in
    let (second, done', w') = save-Writes k (some v) first.1 (w.on_success calm).0 q in
    let clash : second.0.conflict ≡ true = w'.conflict_exact ∙ stale_next v in
    (
      first,
      second,
      done,
      rw (w.saved_exact, calm),
      done',
      rw (w'.saved_exact, clash),
      (w'.on_conflict clash).0,
      w'.current_exact,
    )

next_sum : (v : ℤ) (n : ℕ) → v +ℤ pos 1 +ℤ pos n ≡ v +ℤ pos (suc n)
next_sum v n = omega int_laws

-- A sequence of `save` calls on one key, with the number of them that were saved.
pub save_all : String → List (StateRecord × Option ℤ) → Store → Result PayloadError (ℕ × Store)
save_all k [] d = ok (0, d)
save_all k ((r, expected) ∷ calls) d = do
  (out, d') ← save k r expected d
  (n, e) ← save_all k calls d'
  ok (if out.saved then suc n else n, e)

-- No sequence of saves on a key that can be read raises, the key can be read after it, and its
-- version has grown by the number of saves that were not refused.
pub save_all-version :
    (k : String) (calls : List (StateRecord × Option ℤ)) (d : Store) {before : Option StateRecord}
    → load k d ≡ ok before
    → (n : ℕ) × (e : Store) × (after : Option StateRecord) × (save_all k calls d ≡ ok (n, e))
      × (load k e ≡ ok after)
      × (version_of after ≡ version_of before +ℤ pos n)
unfolding save_all
save_all-version k [] d {before} read = (0, d, before, refl, read, omega int_laws)
save_all-version k ((r, expected) ∷ calls) d {before} read =
    let (out, done, w) = save-Writes k expected d read r in
    elim (Bool-cases out.0.conflict) [
      | inl clash ↦
          let unchanged : load k out.1 ≡ ok before = rw (w.on_conflict clash).0 read in
          let (n, e, after, run, reads, count) = save_all-version k calls out.1 unchanged in
          (n, e, after, rw done (rw run (rw (w.saved_exact, clash))), reads, count)
      | inr calm ↦
          let (n, e, after, run, reads, count) =
            save_all-version k calls out.1 (w.on_success calm).0 in
          (
            suc n,
            e,
            after,
            rw done (rw run (rw (w.saved_exact, calm))),
            reads,
            count ∙ next_sum (version_of before) n,
          )
    ]
