-- ===== src/LeaseLock/Race.antt =====
-- src/watcher/lease_lock.py under several processes: calls of the methods one after the other, and
-- two processes inside `acquire` at once, which reads the file and later writes it with no lock
-- around the two.
use orchestrator_state_machi.Prelude.{
  ℕ, ◌<◌, String, ◌≡◌, ◌≢◌, refl, none, some, List, [], ◌∷◌, Result, ok, raise, All, ap,
}
use orchestrator_state_machi.Time.{aware, Calendar}
use orchestrator_state_machi.LeaseLock.{
  LeaseRecord, LeaseError, Lock, heartbeat, acquire, release, new_record, take_over,
}
use orchestrator_state_machi.LeaseLock.Exclusion.{IsHeld, release_foreign, IsHeld-excludes}

pub data Request : Type 0 where
  acquiring heartbeating : ℕ → Request
  releasing : Request

-- A request is made before an instant (a release looks at no clock).
abbrev pub Before : ℕ → Request → Type 0
Before expiry (acquiring now) = now < expiry
Before expiry (heartbeating now) = now < expiry
Before expiry releasing = Unit

-- A call by another owner than the holder, before the lease expires.
abbrev pub Foreign : String → ℕ → String × Request → Type 0
Foreign holder expiry (owner, r) = (holder ≢ owner) × Before expiry r

module _ (cal : Calendar) (lease_seconds : ℕ) where
  -- The lock after a call.
  unfoldable pub after : String × Request → Lock → Lock
  after (owner, acquiring now) lock = (acquire cal lease_seconds owner (aware now) lock).1
  after (owner, heartbeating now) lock = (heartbeat cal lease_seconds owner (aware now) lock).1
  after (owner, releasing) lock = (release owner lock).1

  unfoldable pub after_all : List (String × Request) → Lock → Lock
  after_all [] lock = lock
  after_all (c ∷ cs) lock = after_all cs (after c lock)

  after-Foreign :
      {holder : String} {expiry : ℕ} {lock : Lock} (c : String × Request)
      → IsHeld cal holder expiry lock
      → Foreign holder expiry c
      → after c lock ≡ lock
  unfolding after
  after-Foreign (owner, acquiring now) h (ne, lt) =
      ap (λ x. x.1) (IsHeld-excludes cal lease_seconds now h ne lt).0
  after-Foreign (owner, heartbeating now) h (ne, lt) =
      ap (λ x. x.1) (IsHeld-excludes cal lease_seconds now h ne lt).1
  after-Foreign (owner, releasing) h (ne, _) = ap (λ x. x.1) (release_foreign cal h ne)

  -- A lease that is held until an instant outlasts every sequence of calls that other owners make
  -- before that instant, in any order: the lock is still the same.
  pub after_all-Foreign :
      {holder : String} {expiry : ℕ} {lock : Lock} (cs : List (String × Request))
      → IsHeld cal holder expiry lock
      → All (Foreign holder expiry) cs
      → after_all cs lock ≡ lock
  unfolding after_all
  after_all-Foreign [] h fs = refl
  after_all-Foreign (c ∷ cs) h (f, fs) =
      rw (after-Foreign c h f, after_all) (after_all-Foreign cs h fs)

-- A process inside `acquire`: before it reads the file, after it (with what it saw), and returned.
pub data Process : Type 0 where
  starting : Process
  loaded : Lock → Process
  returned : Result LeaseError LeaseRecord → Process

-- Two processes and the lock file.
pub record World : Type 0 where
  pub file : Lock
  pub first : Process
  pub second : Process

-- Two processes about to call `acquire`, and no lock file.
abbrev pub start : World
start = record { file = none; first = starting; second = starting }

-- What the end of `acquire` leaves in the file: what it wrote, or what was there if it raised.
abbrev pub written : Result LeaseError LeaseRecord × Lock → Lock → Lock
written (ok r, lock) file = lock
written (raise e, lock) file = file

module _ (cal : Calendar) (lease_seconds : ℕ) (a b : String) (now : ℕ) where
  -- Either process reads the file, or goes on with what it read: the decision is that of
  -- `acquire` on the content seen.
  pub data Step : World → World → Type 0 where
    first_loads : (w : World) → w.first ≡ starting → Step w (record w { first = loaded w.file })
    second_loads : (w : World) → w.second ≡ starting → Step w (record w { second = loaded w.file })
    first_ends :
        (w : World) (seen : Lock)
        → w.first ≡ loaded seen
        → Step w (record w {
          file = written (acquire cal lease_seconds a (aware now) seen) w.file;
          first = returned (acquire cal lease_seconds a (aware now) seen).0;
        })
    second_ends :
        (w : World) (seen : Lock)
        → w.second ≡ loaded seen
        → Step w (record w {
          file = written (acquire cal lease_seconds b (aware now) seen) w.file;
          second = returned (acquire cal lease_seconds b (aware now) seen).0;
        })

  pub data Steps (w : World) : World → Type 0 where
    here : Steps w w
    then : {u v : World} → Steps w u → Step u v → Steps w v

  -- From an empty lock file there is an order of the steps of two `acquire` calls after which both
  -- have returned a lease on the same handoff, each to its own caller: the file holds the lease of
  -- the one that wrote last.
  pub race_both_acquire :
      (w : World) × Steps start w
      × (w.first ≡ returned (ok (new_record cal lease_seconds a (aware now))))
      × (w.second ≡ returned (ok (new_record cal lease_seconds b (aware now))))
      × (w.file ≡ some (new_record cal lease_seconds b (aware now)))
  unfolding acquire take_over
  race_both_acquire = (
    _,
    then
        (then (then (then here (first_loads start refl)) (second_loads _ refl))
          (first_ends _ none refl))
        (second_ends _ none refl),
    refl,
    refl,
    refl,
  )
