-- ===== src/RiskBudget/Budget.antt =====
-- src/watcher/risk_budget_store.py: the budget is kept, over any sequence of evaluations.
use orchestrator_state_machi.Prelude.{
  true, ◌≢◌, ℕ, ◌+◌, ◌≤◌, String, Bool, false, Option, none, some, List, [], ◌∷◌, ◌≡◌, refl, ap,
  ◌↔◌, ◌⊎◌, text_eq_refl, Result, ok, ◌>>=◌, raise_if, ◌||◌, >>=-eq-ok, ok_injective, arith, All,
  subst, ◌∙◌,
}
use orchestrator_state_machi.Prelude.Int.{ℤ, pos, ◌+ℤ◌, ◌≤ℤ◌, ◌<ℤ◌, ltb_ℤ, int_laws}
use orchestrator_state_machi.Prelude.Json.{dict}
use orchestrator_state_machi.StateStore.{text_field, int_field}
use orchestrator_state_machi.Time.{DateTime, aware}
use orchestrator_state_machi.RiskBudget.{
  bypass_critical, RiskBudgetState, RiskBudgetDecision, RiskBudgetStoreError, Decision, allow,
  Zones, Store, state_from_payload, payload_from_state, read_payload, read_current, load,
  roll_forward_state, evaluate_state, aware_now, find_zone, evaluate_locked, evaluate_and_record,
  negative_limits,
}

state_from_payload-payload_from_state :
    (s : RiskBudgetState) → state_from_payload (payload_from_state s) ≡ ok s
unfolding state_from_payload payload_from_state text_field int_field
state_from_payload-payload_from_state s = refl

load-written : (s : RiskBudgetState) → load (some (dict (payload_from_state s))) ≡ ok (some s)
unfolding load read_payload
load-written s = rw state_from_payload-payload_from_state

pub read_current-written :
    (s : RiskBudgetState) → read_current (some (dict (payload_from_state s))) ≡ ok (some s)
unfolding read_current read_payload state_from_payload payload_from_state text_field int_field
read_current-written s = refl

-- The state that the decision is about.
abbrev pub shown : RiskBudgetDecision → String → RiskBudgetState
shown d timezone_name = record {
  timezone = timezone_name;
  day_bucket = d.day_bucket;
  hour_bucket = d.hour_bucket;
  noncritical_day_count = d.noncritical_day_count;
  noncritical_hour_count = d.noncritical_hour_count;
}

evaluate_state-shown :
    (s : RiskBudgetState) (critical : Bool) (per_day per_hour : ℤ)
    → (evaluate_state s critical per_day per_hour).1
      ≡ shown (evaluate_state s critical per_day per_hour).0 s.timezone
unfolding evaluate_state
evaluate_state-shown s critical per_day per_hour = ground arith

-- After an evaluation that returns a decision, `load` gives the state with the zone asked for and
-- the buckets and counts of that decision.
pub load-evaluate_and_record :
    (zones : Zones) (now : DateTime) (name : String) (critical : Bool) (per_day per_hour : ℤ)
    (store : Store) {d : RiskBudgetDecision} {store' : Store}
    → evaluate_and_record zones now name critical per_day per_hour store ≡ ok (d, store')
    → load store' ≡ ok (some (shown d name))
unfolding evaluate_and_record evaluate_locked roll_forward_state
load-evaluate_and_record zones now name critical per_day per_hour store {d} {store'} h =
    let (g, e₀, h₀) =
      >>=-eq-ok (raise_if (ltb_ℤ per_day (pos 0) || ltb_ℤ per_hour (pos 0)) negative_limits)
        (λ _. aware_now now >>= λ t. find_zone zones name >>= λ tz. locked (tz t)) h in
    let (t, e₁, h₁) =
      >>=-eq-ok (aware_now now) (λ t. find_zone zones name >>= λ tz. locked (tz t)) h₀ in
    let (tz, e₂, h₂) = >>=-eq-ok (find_zone zones name) (λ tz. locked (tz t)) h₁ in
    under_lock (tz t) h₂
  where
    locked : String × String → Result RiskBudgetStoreError (RiskBudgetDecision × Store)
    locked b = evaluate_locked name critical per_day per_hour b store

    rolled_zone :
        (c : Option RiskBudgetState) (day hour : String)
        → (roll_forward_state c name day hour).timezone ≡ name
    rolled_zone none day hour = refl
    rolled_zone (some c) day hour = refl

    written :
        (s : RiskBudgetState)
        → s.timezone ≡ name
        → ◌≡◌ {A = RiskBudgetDecision × Store}
            (
              (evaluate_state s critical per_day per_hour).0,
              some (dict (payload_from_state (evaluate_state s critical per_day per_hour).1)),
            )
            (d, store')
        → load store' ≡ ok (some (shown d name))
    written s z e =
        subst (λ r. load r.1 ≡ ok (some (shown r.0 name))) e
          (load-written (evaluate_state s critical per_day per_hour).1
            ∙ ap (λ x. ok (some x))
                (evaluate_state-shown s critical per_day per_hour
                  ∙ ap (shown (evaluate_state s critical per_day per_hour).0) z))

    finish :
        (b : String × String)
        → Option RiskBudgetState
        → Result RiskBudgetStoreError (RiskBudgetDecision × Store)
    finish b c =
        let r = evaluate_state (roll_forward_state c name b.0 b.1) critical per_day per_hour in
        ok (r.0, some (dict (payload_from_state r.1)))

    under_lock :
        (b : String × String) → locked b ≡ ok (d, store') → load store' ≡ ok (some (shown d name))
    under_lock b h₂ =
        let (c, e₃, h₃) = >>=-eq-ok (read_current store) (finish b) h₂ in
        written (roll_forward_state c name b.0 b.1) (rolled_zone c b.0 b.1) (ok_injective h₃)

-- The decision is `allow` exactly if the incident is not critical and both counts are below their
-- limits, and `bypass_critical` exactly if the incident is critical. If it is `allow`, both counts
-- grow by one and the rest stays; if not, the state is written back as it is. The counts of the
-- decision are those written.
pub evaluate_state_allow :
    (s : RiskBudgetState) (critical : Bool) (per_day per_hour : ℤ)
    → let (d, after) = evaluate_state s critical per_day per_hour in
      ((d.decision ≡ allow) ↔ (
        (critical ≡ false)
        × (s.noncritical_day_count <ℤ per_day)
        × (s.noncritical_hour_count <ℤ per_hour)))
      × ((d.decision ≡ bypass_critical) ↔ (critical ≡ true))
      × (((d.decision ≡ allow)
            × (after ≡ record s {
              noncritical_day_count = s.noncritical_day_count +ℤ pos 1;
              noncritical_hour_count = s.noncritical_hour_count +ℤ pos 1;
            }))
          ⊎ ((d.decision ≢ allow) × (after ≡ s)))
      × (d.noncritical_day_count ≡ after.noncritical_day_count)
      × (d.noncritical_hour_count ≡ after.noncritical_hour_count)
unfolding evaluate_state
evaluate_state_allow s critical per_day per_hour = ground arith

not_negative : (n : ℕ) → ltb_ℤ (pos n) (pos 0) ≡ false
not_negative n = ground arith

sum_bound :
    (a b : ℤ) (x n limit : ℕ)
    → b ≡ a +ℤ pos x
    → b +ℤ pos n ≤ℤ pos limit
    → a +ℤ pos (x + n) ≤ℤ pos limit
unfolding ◌+ℤ◌
sum_bound a b x n limit e h = ground arith

bound_of : (n : ℕ) {limit : ℕ} → pos 0 +ℤ pos n ≤ℤ pos limit → n ≤ limit
unfolding ◌+ℤ◌
bound_of n h = ground arith

module _ (zones : Zones) (name : String) (day_of : ℕ → String × String)
    (known : zones name ≡ some day_of) (per_day per_hour : ℕ) where
  -- `evaluate_and_record` for each of the incidents, an instant and whether it is critical, one after
  -- the other, with the number of those allowed.
  abbrev pub allowed_one : Decision → ℕ
  allowed_one allow = 1
  allowed_one _ = 0

  abbrev pub evaluate_all : List (ℕ × Bool) → Store → Result RiskBudgetStoreError (ℕ × Store)
  evaluate_all [] store = ok (0, store)
  evaluate_all ((t, critical) ∷ more) store =
      evaluate_and_record zones (aware t) name critical (pos per_day) (pos per_hour) store >>= λ r.
      evaluate_all more r.1 >>= λ rest. ok (allowed_one (r.0.decision) + rest.0, rest.1)

  zone_found : find_zone zones name ≡ ok day_of
  unfolding find_zone
  zone_found = rw (known, find_zone)

  evaluate_known :
      (t : ℕ) (critical : Bool) (store : Store) (c : Option RiskBudgetState)
      → read_current store ≡ ok c
      → evaluate_and_record zones (aware t) name critical (pos per_day) (pos per_hour) store
        ≡ ok (
          (evaluate_state
              (roll_forward_state c name (day_of t).0 (day_of t).1)
              critical
              (pos per_day)
              (pos per_hour)).0,
          some (
              dict (
                payload_from_state
                  (evaluate_state
                    (roll_forward_state c name (day_of t).0 (day_of t).1)
                    critical
                    (pos per_day)
                    (pos per_hour)).1)),
        )
  unfolding evaluate_and_record evaluate_locked aware_now
  evaluate_known t critical store c e =
      rw (not_negative per_day, not_negative per_hour, zone_found, e)

  -- What a stored state has already spent of the budget of a day.
  abbrev pub spent : Option RiskBudgetState → String → ℤ
  spent c day = (roll_forward_state c name day "").noncritical_day_count

  spent_rolled :
      (c : Option RiskBudgetState) (day hour : String)
      → spent c day ≡ (roll_forward_state c name day hour).noncritical_day_count
  unfolding roll_forward_state
  spent_rolled none day hour = refl
  spent_rolled (some c) day hour = refl

  -- What an incident leads to, from a state.
  abbrev after : Option RiskBudgetState → ℕ → Bool → RiskBudgetDecision × RiskBudgetState
  after c t critical =
      evaluate_state (roll_forward_state c name (day_of t).0 (day_of t).1) critical (pos per_day)
        (pos per_hour)

  -- A day's spending after an incident of that day.
  abbrev Kept : Option RiskBudgetState → ℕ → Bool → String → Type 0
  Kept c t critical day =
      spent c day ≤ℤ pos per_day
      → (spent (some (after c t critical).1) day ≤ℤ pos per_day)
        × (spent (some (after c t critical).1) day
            ≡ spent c day +ℤ pos (allowed_one (after c t critical).0.decision))

  spent-Kept_own :
      (c : Option RiskBudgetState) (t : ℕ) (critical : Bool) → Kept c t critical (day_of t).0
  unfolding evaluate_state roll_forward_state ◌+ℤ◌
  spent-Kept_own none t critical h = ground (arith, text_eq_refl name, text_eq_refl (day_of t).0)
  spent-Kept_own (some c) t critical h =
      ground (arith, text_eq_refl name, text_eq_refl (day_of t).0)

  spent-Kept :
      (c : Option RiskBudgetState) (t : ℕ) (critical : Bool) (day : String)
      → (day_of t).0 ≡ day
      → Kept c t critical day
  spent-Kept c t critical day p = subst (Kept c t critical) p (spent-Kept_own c t critical)

  -- Every instant falls on this day.
  abbrev pub OnDay : String → List (ℕ × Bool) → Type 0
  OnDay day rs = All (λ r. (day_of r.0).0 ≡ day) rs

  within_budget :
      (day : String) (rs : List (ℕ × Bool)) (store : Store) (c : Option RiskBudgetState)
      → OnDay day rs
      → read_current store ≡ ok c
      → spent c day ≤ℤ pos per_day
      → (n : ℕ) × (store' : Store) × (evaluate_all rs store ≡ ok (n, store'))
        × (spent c day +ℤ pos n ≤ℤ pos per_day)
  within_budget day [] store c o e h = (0, store, refl, grind int_laws)
  within_budget day ((t, critical) ∷ rs) store c o e h =
      let k = spent-Kept c t critical day o.0 h in
      let rest =
        within_budget day rs (some (dict (payload_from_state (after c t critical).1)))
          (some (after c t critical).1) o.1 (read_current-written (after c t critical).1) k.0 in
      (
        allowed_one (after c t critical).0.decision + rest.0,
        rest.1,
        rw (evaluate_known t critical store c e, rest.2),
        sum_bound (spent c day) (spent (some (after c t critical).1) day)
            (allowed_one (after c t critical).0.decision) rest.0 per_day k.1 rest.3,
      )

  -- Any sequence of incidents of one day, critical ones among them, is evaluated without an error when
  -- the store is missing or empty at first, and at most `per_day` of them are allowed.
  pub allowed_le_per_day :
      (day : String) (rs : List (ℕ × Bool))
      → OnDay day rs
      → (n : ℕ) × (store : Store) × (evaluate_all rs none ≡ ok (n, store)) × (n ≤ per_day)
  unfolding read_current read_payload roll_forward_state
  allowed_le_per_day day rs o =
      let (n, store, e, h) = within_budget day rs none none o refl (ground arith) in
      (n, store, e, bound_of n h)
