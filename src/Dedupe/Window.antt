-- ===== src/Dedupe/Window.antt =====
-- src/watcher/dedupe_store.py: an incident that was let through is suppressed for the window.
use orchestrator_state_machi.Prelude.{
  ℕ, ◌+◌, ◌*◌, ◌<◌, String, Bool, true, false, Option, none, some, [], ◌∷◌, ◌≡◌, ◌↔◌, ◌⊎◌, refl,
  sym, ap, ◌∙◌, arith, text_eq_refl, text_eq, inl, inr, Bool-cases, if◌then◌else◌, Result, ok,
  ◌>>=◌, raise_if, leb, >>=-eq-ok, ok_injective,
}
use orchestrator_state_machi.Prelude.Dict.{Dict, lookup, insert}
use orchestrator_state_machi.Prelude.Json.{str, get}
use orchestrator_state_machi.Time.{Calendar, aware, rfc3339}
use orchestrator_state_machi.Time.RoundTrip.{parse_rfc3339_utc-rfc3339}
use orchestrator_state_machi.Dedupe.{
  DedupeDecision, DedupeStoreError, Store, build_dedupe_key, prune_expired, parse_timestamp,
  parse_entries, read_entries, entry_fields, write_entries, decide, evaluate_locked,
  evaluate_and_record, aware_now, raw_entries, window_not_positive,
}

module _ (cal : Calendar) where
  parse_timestamp-rfc3339 : (t : ℕ) → parse_timestamp cal (str (rfc3339 cal t)) ≡ ok t
  unfolding parse_timestamp
  parse_timestamp-rfc3339 t = rw (parse_rfc3339_utc-rfc3339 cal t, parse_timestamp)

  parse_entries-entry_fields : (m : Dict ℕ) → parse_entries cal (entry_fields cal m) ≡ ok m
  unfolding parse_entries entry_fields
  parse_entries-entry_fields [] = refl
  parse_entries-entry_fields ((k, t) ∷ m) =
      rw (parse_timestamp-rfc3339, parse_entries-entry_fields m)

  read_entries-write_entries : (m : Dict ℕ) → read_entries cal (write_entries cal m) ≡ ok m
  unfolding read_entries write_entries get raw_entries
  read_entries-write_entries m = parse_entries-entry_fields m

-- Whoever is left after the expired entries are dropped is younger than the window.
lookup-prune_expired :
    (k : String) (m : Dict ℕ) (now window : ℕ) {t : ℕ}
    → lookup k (prune_expired m now window) ≡ some t
    → now < t + window
unfolding lookup prune_expired
lookup-prune_expired k [] now window {t} h = cc
lookup-prune_expired k ((j, s) ∷ m) now window {t} h = elim (Bool-cases (leb (s + window) now)) [
  | inl old ↦ lookup-prune_expired k m now window (ground (arith, h, old))
  | inr fresh ↦ elim (Bool-cases (text_eq j k)) [
    | inl same ↦ ground (arith, h, fresh, same)
    | inr other ↦ lookup-prune_expired k m now window (ground (arith, h, fresh, other))
  ]
]

-- A new entry is dropped when it is as old as the window.
lookup-prune_insert :
    (k : String) (m : Dict ℕ) (now later window : ℕ)
    → lookup k m ≡ none
    → lookup k (prune_expired (insert k now m) later window)
      ≡ (if leb (now + window) later then none else some now)
unfolding lookup prune_expired insert
lookup-prune_insert k [] now later window h = ground (arith, text_eq_refl k)
lookup-prune_insert k ((j, s) ∷ m) now later window h =
    ground (arith, h, text_eq_refl k, lookup-prune_insert k m now later window (ground (arith, h)))

-- After expired entries are dropped, an incident is suppressed exactly if its key is still there.
decide_new :
    (m : Dict ℕ) (k : String) (now window : ℕ)
    → (decide (prune_expired m now window) k now window).0.suppressed ≡ false
    → (lookup k (prune_expired m now window) ≡ none)
      × ((decide (prune_expired m now window) k now window).1
          ≡ insert k now (prune_expired m now window))
unfolding decide
decide_new m k now window h = from_cases (lookup k (prune_expired m now window)) refl
  where
    from_cases :
        (o : Option ℕ)
        → lookup k (prune_expired m now window) ≡ o
        → (lookup k (prune_expired m now window) ≡ none)
          × ((decide (prune_expired m now window) k now window).1
              ≡ insert k now (prune_expired m now window))
    from_cases none e = (e, rw (e, decide))
    from_cases (some t) e = absurd (ground (arith, h, e, lookup-prune_expired k m now window e))

decide_age :
    (m : Dict ℕ) (k : String) (now later window : ℕ)
    → lookup k m ≡ none
    → ((decide (prune_expired (insert k now m) later window) k later window).0.suppressed ≡ true)
      ↔ (later < now + window)
unfolding decide
decide_age m k now later window h = from_cases (Bool-cases (leb (now + window) later))
  where
    found :
        lookup k (prune_expired (insert k now m) later window)
        ≡ (if leb (now + window) later then none else some now)
    found = lookup-prune_insert k m now later window h

    from_cases :
        (leb (now + window) later ≡ true) ⊎ (leb (now + window) later ≡ false)
        → ((decide (prune_expired (insert k now m) later window) k later window).0.suppressed
            ≡ true)
          ↔ (later < now + window)
    from_cases (inl old) = rw (found, old, decide) (ground (arith, old))
    from_cases (inr fresh) = rw (found, fresh, decide) (ground (arith, fresh))

module _ (cal : Calendar) (key : String) (window : ℕ) where
  finish : ℕ → Dict ℕ → Result DedupeStoreError (DedupeDecision × Store)
  finish now entries =
      let r = decide (prune_expired entries now window) key now window in
      ok (r.0, write_entries cal r.1)

  -- The evaluation of a store that was written.
  evaluate_written :
      (m : Dict ℕ) (later : ℕ)
      → evaluate_locked cal key later window (write_entries cal m) ≡ finish later m
  unfolding evaluate_locked finish
  evaluate_written m later = rw (read_entries-write_entries cal m)

  -- What is written after an incident that is let through.
  let_through :
      (now : ℕ) (store : Store) {d : DedupeDecision} {store' : Store}
      → evaluate_locked cal key now window store ≡ ok (d, store')
      → d.suppressed ≡ false
      → (m : Dict ℕ) × (lookup key m ≡ none) × (store' ≡ write_entries cal (insert key now m))
  unfolding evaluate_locked finish
  let_through now store {d} {store'} h s =
      let (entries, e, f) = >>=-eq-ok (read_entries cal store) (finish now) h in
      let new = decide_new entries key now window (ap (λ r. r.0.suppressed) (ok_injective f) ∙ s) in
      (
        prune_expired entries now window,
        new.0,
        sym (ap (λ r. r.1) (ok_injective f)) ∙ ap (write_entries cal) new.1,
      )

  again_locked :
      (now later : ℕ) (store : Store) {d : DedupeDecision} {store' : Store}
      → evaluate_locked cal key now window store ≡ ok (d, store')
      → d.suppressed ≡ false
      → (d' : DedupeDecision) × (store'' : Store) × (evaluate_locked cal key later window store'
          ≡ ok (d', store''))
        × ((d'.suppressed ≡ true) ↔ (later < now + window))
  unfolding finish
  again_locked now later store h s =
      let (m, absent, written) = let_through now store h s in
      let r = decide (prune_expired (insert key now m) later window) key later window in
      (
        r.0,
        write_entries cal r.1,
        ap (evaluate_locked cal key later window) written
            ∙ evaluate_written (insert key now m) later,
        decide_age m key now later window absent,
      )

not_raised : (b : Bool) {u : Unit {0}} → raise_if b window_not_positive ≡ ok u → b ≡ false
not_raised true h = cc
not_raised false h = refl

module _ (cal : Calendar) (sha1 : String → String) (origin_id error_signature error_class : String)
    (minutes : ℕ) where
  abbrev pub evaluate : ℕ → Store → Result DedupeStoreError (DedupeDecision × Store)
  evaluate now store =
      evaluate_and_record cal sha1 origin_id error_signature error_class (aware now) minutes store

  abbrev pub locked : ℕ → Store → String → Result DedupeStoreError (DedupeDecision × Store)
  locked now store key = evaluate_locked cal key now (minutes * 60000000) store

  -- What an evaluation that returns went through.
  passed :
      (now : ℕ) (store : Store) {out : DedupeDecision × Store}
      → evaluate now store ≡ ok out
      → (key : String) × (build_dedupe_key sha1 origin_id error_signature error_class ≡ ok key)
        × (leb minutes 0 ≡ false)
        × (locked now store key ≡ ok out)
  unfolding evaluate_and_record aware_now
  passed now store {out} h =
      let (u, e₀, h₀) =
        >>=-eq-ok (raise_if (leb minutes 0) window_not_positive)
          (λ _. build_dedupe_key sha1 origin_id error_signature error_class >>= locked now store)
          h in
      let (key, e₁, h₁) =
        >>=-eq-ok (build_dedupe_key sha1 origin_id error_signature error_class) (locked now store)
          h₀ in
      (key, e₁, not_raised (leb minutes 0) e₀, h₁)

  -- If an incident is let through, then a later (or earlier) incident with the same origin, signature
  -- and class is evaluated without an error on the store that this leaves, and it is suppressed exactly
  -- if its time is less than the window after the first.
  pub evaluate_and_record_again :
      (now later : ℕ) (store : Store) {d : DedupeDecision} {store' : Store}
      → evaluate now store ≡ ok (d, store')
      → d.suppressed ≡ false
      → (d' : DedupeDecision) × (store'' : Store) × (evaluate later store' ≡ ok (d', store''))
        × ((d'.suppressed ≡ true) ↔ (later < now + minutes * 60000000))
  unfolding evaluate_and_record aware_now
  evaluate_and_record_again now later store h s =
      let (key, k, z, l) = passed now store h in
      let (d', store'', found, young) =
        again_locked cal key (minutes * 60000000) now later store l s in
      (d', store'', rw (z, k) found, young)
