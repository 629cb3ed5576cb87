-- ===== src/LeaseLock/Exclusion.antt =====
-- src/watcher/lease_lock.py: while a lease runs, it belongs to one owner.
use orchestrator_state_machi.Prelude.{
  ℕ, ◌+◌, ◌*◌, ◌≤◌, ◌<◌, String, Bool, true, false, not, ◌≡◌, ◌≢◌, refl, ◌⊎◌, leb, if◌then◌else◌,
  arith, Option, none, some, text_eq, text_eq_refl, eq_iff, Result, ok, raise, Bool-cases, inl, inr,
  ap,
}
use orchestrator_state_machi.Time.{aware, Calendar, to_rfc3339, from_rfc3339}
use orchestrator_state_machi.Time.RoundTrip.{from_rfc3339-rfc3339}
use orchestrator_state_machi.LeaseLock.{
  LeaseRecord, LeaseError, lease_busy, lease_expired, heartbeat_by_another_owner,
  release_by_another_owner, Lock, is_stale, new_record, heartbeat, acquire, release, is_before,
  take_over, unreadable_timestamp,
}

is_before_cases :
    (m : Option ℕ) (now : ℕ)
    → ((e : LeaseError) × (is_before m (aware now) ≡ raise e))
      ⊎ ((b : Bool) × (is_before m (aware now) ≡ ok b))
unfolding is_before
is_before_cases none now = inl (unreadable_timestamp, refl)
is_before_cases (some t) now = inr (leb t now, refl)

module _ (cal : Calendar) where
  is_stale_cases :
      (r : LeaseRecord) (now : ℕ)
      → ((e : LeaseError) × (is_stale cal r (aware now) ≡ raise e))
        ⊎ ((b : Bool) × (is_stale cal r (aware now) ≡ ok b))
  unfolding is_stale
  is_stale_cases r now = is_before_cases (from_rfc3339 cal r.expires_at) now

  fresh_is_stale :
      (r : LeaseRecord) (now expiry : ℕ)
      → from_rfc3339 cal r.expires_at ≡ some expiry
      → now < expiry
      → is_stale cal r (aware now) ≡ ok false
  unfolding is_stale is_before
  fresh_is_stale r now expiry e lt = rw e (ap ok (ground arith))

  past_is_stale :
      (r : LeaseRecord) (now expiry : ℕ)
      → from_rfc3339 cal r.expires_at ≡ some expiry
      → expiry ≤ now
      → is_stale cal r (aware now) ≡ ok true
  unfolding is_stale is_before
  past_is_stale r now expiry e le = rw e (ap ok (ground arith))

  -- The lock is held by an owner until an instant.
  pub record IsHeld (owner : String) (expiry : ℕ) (lock : Lock) : Type 0 where
    pub holder : LeaseRecord
    pub held : lock ≡ some holder
    pub owned : holder.owner_id ≡ owner
    pub expires : from_rfc3339 cal holder.expires_at ≡ some expiry

  -- At no time can another owner release the lock.
  pub release_foreign :
      {holder other : String} {expiry : ℕ} {lock : Lock}
      → IsHeld holder expiry lock
      → holder ≢ other
      → release other lock ≡ (raise release_by_another_owner, lock)
  unfolding release
  release_foreign {holder} {other} h ne = rw h.held (rw (distinct, release))
    where
      distinct : text_eq h.holder.owner_id other ≡ false
      distinct = rw h.owned (ground (arith, eq_iff holder other))

  module _ (lease_seconds : ℕ) where
    -- A call that gave the lease to the owner from `now` on, and wrote what it returned.
    pub record Grants (owner : String) (now : ℕ) (out : Result LeaseError LeaseRecord × Lock)
        : Type 0 where
      pub granted : LeaseRecord
      pub returned : out ≡ (ok granted, some granted)
      pub owned : granted.owner_id ≡ owner
      pub expires : granted.expires_at ≡ to_rfc3339 cal (aware (now + lease_seconds * 1_000_000))

    pub Grants-IsHeld :
        {owner : String} {now : ℕ} {out : Result LeaseError LeaseRecord × Lock}
        → Grants owner now out
        → IsHeld owner (now + lease_seconds * 1_000_000) out.1
    unfolding to_rfc3339
    Grants-IsHeld {now = now} g = record {
      holder = g.granted;
      held = ap (λ x. x.1) g.returned;
      owned = g.owned;
      expires = rw (g.expires, from_rfc3339-rfc3339);
    }

    -- A call that raised, and left the lock as it was.
    abbrev pub Refuses : Lock → Result LeaseError LeaseRecord × Lock → Type 0
    Refuses lock out = (e : LeaseError) × (out ≡ (raise e, lock))

    pub take_over-Grants :
        (owner : String) (now : ℕ)
        → Grants owner now (take_over cal lease_seconds owner (aware now))
    unfolding take_over new_record
    take_over-Grants owner now = record {
      granted = new_record cal lease_seconds owner (aware now);
      returned = refl;
      owned = refl;
      expires = refl;
    }

    heartbeat_outcome :
        (owner : String) (now : ℕ) (lock : Lock)
        → Grants owner now (heartbeat cal lease_seconds owner (aware now) lock)
          ⊎ Refuses lock (heartbeat cal lease_seconds owner (aware now) lock)
    unfolding heartbeat
    heartbeat_outcome owner now none = inr (_, refl)
    heartbeat_outcome owner now (some r) = elim (Bool-cases (text_eq r.owner_id owner)) [
      | inr other ↦ rw other (inr (_, refl))
      | inl own ↦ rw own (elim (is_stale_cases r now) [
        | inl (e, bad) ↦ rw bad (inr (e, refl))
        | inr (b, good) ↦ rw good (by_age b)
      ])
    ]
      where
        refreshed : LeaseRecord
        refreshed = record {
          owner_id = owner;
          acquired_at = r.acquired_at;
          heartbeat_at = to_rfc3339 cal (aware now);
          expires_at = to_rfc3339 cal (aware (now + lease_seconds * 1_000_000));
        }

        by_age :
            (b : Bool)
            → Grants owner now
                (if b then (raise lease_expired, some r) else (ok refreshed, some refreshed))
              ⊎ Refuses
                  (some r)
                  (if b then (raise lease_expired, some r) else (ok refreshed, some refreshed))
        by_age true = inr (lease_expired, refl)
        by_age false =
            inl (record { granted = refreshed; returned = refl; owned = refl; expires = refl })

    -- `acquire` either gives the lease to its caller for the lease's seconds from now on and writes
    -- exactly the record that it returns, or raises and leaves the lock as it was.
    pub acquire_outcome :
        (owner : String) (now : ℕ) (lock : Lock)
        → Grants owner now (acquire cal lease_seconds owner (aware now) lock)
          ⊎ Refuses lock (acquire cal lease_seconds owner (aware now) lock)
    unfolding acquire
    acquire_outcome owner now none = inl (take_over-Grants owner now)
    acquire_outcome owner now (some r) = elim (Bool-cases (text_eq r.owner_id owner)) [
      | inl own ↦ rw own (heartbeat_outcome owner now (some r))
      | inr other ↦ rw other (elim (is_stale_cases r now) [
        | inl (e, bad) ↦ rw bad (inr (e, refl))
        | inr (b, good) ↦ rw good (by_age b)
      ])
    ]
      where
        by_age :
            (b : Bool)
            → Grants owner now (
                if not b
                then (raise lease_busy, some r)
                else take_over cal lease_seconds owner (aware now))
              ⊎ Refuses (some r) (
                  if not b
                  then (raise lease_busy, some r)
                  else take_over cal lease_seconds owner (aware now))
        by_age true = inl (take_over-Grants owner now)
        by_age false = inr (lease_busy, refl)

    -- While an owner holds an unexpired lease, every other owner's `acquire`, `heartbeat` and
    -- `release` raises its error and leaves the lock as it was.
    pub IsHeld-excludes :
        {holder other : String} {expiry : ℕ} {lock : Lock} (now : ℕ)
        → IsHeld holder expiry lock
        → holder ≢ other
        → now < expiry
        → (acquire cal lease_seconds other (aware now) lock ≡ (raise lease_busy, lock))
          × (heartbeat cal lease_seconds other (aware now) lock
              ≡ (raise heartbeat_by_another_owner, lock))
          × (release other lock ≡ (raise release_by_another_owner, lock))
    unfolding acquire heartbeat
    IsHeld-excludes {holder} {other} {expiry} {lock} now h ne lt =
        rw h.held (busy, foreign_heartbeat, foreign_release)
      where
        distinct : text_eq h.holder.owner_id other ≡ false
        distinct = rw h.owned (ground (arith, eq_iff holder other))

        not_yet : is_stale cal h.holder (aware now) ≡ ok false
        not_yet = fresh_is_stale h.holder now expiry h.expires lt

        busy :
            acquire cal lease_seconds other (aware now) (some h.holder)
            ≡ (raise lease_busy, some h.holder)
        busy = rw (distinct, acquire) (rw not_yet)

        foreign_heartbeat :
            heartbeat cal lease_seconds other (aware now) (some h.holder)
            ≡ (raise heartbeat_by_another_owner, some h.holder)
        foreign_heartbeat = rw (distinct, heartbeat)

        foreign_release :
            release other (some h.holder) ≡ (raise release_by_another_owner, some h.holder)
        foreign_release = rw h.held at (release_foreign h ne)

    -- Once a lease has expired, its own holder cannot take it again, since `acquire` renews what it
    -- owns and a renewal of an expired lease is refused; any other owner is given it.
    pub acquire_expired :
        {holder other : String} {expiry : ℕ} {lock : Lock} (now : ℕ)
        → IsHeld holder expiry lock
        → holder ≢ other
        → expiry ≤ now
        → (acquire cal lease_seconds holder (aware now) lock ≡ (raise lease_expired, lock))
          × Grants other now (acquire cal lease_seconds other (aware now) lock)
    unfolding acquire heartbeat
    acquire_expired {holder} {other} {expiry} {lock} now h ne le = rw h.held (renewal, replacement)
      where
        own : text_eq h.holder.owner_id holder ≡ true
        own = rw h.owned (text_eq_refl holder)

        distinct : text_eq h.holder.owner_id other ≡ false
        distinct = rw h.owned (ground (arith, eq_iff holder other))

        past : is_stale cal h.holder (aware now) ≡ ok true
        past = past_is_stale h.holder now expiry h.expires le

        renewal :
            acquire cal lease_seconds holder (aware now) (some h.holder)
            ≡ (raise lease_expired, some h.holder)
        renewal = rw (own, acquire) (rw past)

        replacement : Grants other now (acquire cal lease_seconds other (aware now) (some h.holder))
        replacement = rw (distinct, acquire) (rw past (take_over-Grants other now))
