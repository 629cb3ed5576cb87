-- ===== src/PolicyContract/Hours.antt =====
-- src/watcher/policy_contract.py: the weekdays, the times of day and the zone that pass.
use orchestrator_state_machi.Prelude.{
  ◌<◌, String, true, false, List, [], ◌∷◌, ◌++◌, ◌≡◌, refl, inl, inr, arith, Bool-cases, All,
  contains, contains-append, is_empty, eq_iff,
}
use orchestrator_state_machi.Prelude.Text.{is_space, is_blank, strip}
use orchestrator_state_machi.Prelude.Json.{Value, str, list, Items, nil, cons}
use orchestrator_state_machi.PolicyContract.Values.{
  weekday_values, time_matches, hhmm_to_minutes, first_part, zone_matches, validate_timezone,
  parse_weekdays, validate_weekdays, validate_hhmm,
}
use orchestrator_state_machi.PolicyContract.Bounds.{All-snoc, is_empty-snoc}

-- No text stands twice in the list.
abbrev pub Distinct : List String → Type 0
Distinct [] = Unit
Distinct (x ∷ xs) = (contains xs x ≡ false) × Distinct xs

Distinct-snoc :
    (xs : List String) (v : String)
    → Distinct xs
    → contains xs v ≡ false
    → Distinct (xs ++ (v ∷ []))
Distinct-snoc [] v d n = (refl, tt)
Distinct-snoc (x ∷ xs) v d n = (
  rw contains-append (ground (arith, d.0, n, eq_iff x v, eq_iff v x)),
  Distinct-snoc xs v d.1 (ground (arith, n)),
)

-- Known weekdays, one at least, and none of them twice.
pub record IsWeekdays (ws : List String) : Type 0 where
  pub some_ : is_empty ws ≡ false
  pub known : All (λ w. contains weekday_values w ≡ true) ws
  pub distinct : Distinct ws

parse_weekdays-IsWeekdays :
    (ws : List String) (xs : Items)
    → (parse_weekdays ws xs).1 ≡ []
    → IsWeekdays ws
    → IsWeekdays (parse_weekdays ws xs).0
unfolding parse_weekdays
parse_weekdays-IsWeekdays ws nil h p = p
parse_weekdays-IsWeekdays ws (cons (str v) xs) h p = elim (Bool-cases (contains weekday_values v)) [
  | inl known ↦ elim (Bool-cases (contains ws v)) [
    | inl twice ↦ absurd (ground (arith, h, known, twice))
    | inr new ↦
        rw (known, new)
          (parse_weekdays-IsWeekdays (ws ++ (v ∷ [])) xs (rw (known, new) at h) (record {
            some_ = is_empty-snoc ws v;
            known = All-snoc (λ w. contains weekday_values w ≡ true) ws p.known known;
            distinct = Distinct-snoc ws v p.distinct new;
          }))
  ]
  | inr unknown ↦ absurd (ground (arith, h, unknown))
]
parse_weekdays-IsWeekdays ws (cons _ xs) h p = absurd (ground arith)

pub validate_weekdays-IsWeekdays :
    (v : Value) → (validate_weekdays v).1 ≡ [] → IsWeekdays (validate_weekdays v).0
unfolding validate_weekdays parse_weekdays
validate_weekdays-IsWeekdays (list (cons (str v) xs)) h =
    elim (Bool-cases (contains weekday_values v)) [
      | inl known ↦ rw known (
          parse_weekdays-IsWeekdays (v ∷ []) xs (rw known at h)
            (record { some_ = refl; known = (known, tt); distinct = (refl, tt) }))
      | inr unknown ↦ absurd (ground (arith, h, unknown))
    ]
validate_weekdays-IsWeekdays _ h = absurd (ground arith)

pub validate_hhmm-time_matches :
    (v : Value) (f : String)
    → (validate_hhmm v f).1 ≡ []
    → time_matches (validate_hhmm v f).0 ≡ true
unfolding validate_hhmm
validate_hhmm-time_matches (str s) f h = elim (Bool-cases (time_matches (strip is_space s))) [
  | inl m ↦ rw m m
  | inr n ↦ absurd (ground (arith, h, n))
]
validate_hhmm-time_matches _ f h = absurd (ground arith)

-- A time of day is before midnight, and is not empty.
pub hhmm_to_minutes-lt :
    (s : String) → time_matches s ≡ true → (hhmm_to_minutes s < 1440) × (is_blank s ≡ false)
unfolding time_matches hhmm_to_minutes
hhmm_to_minutes-lt (String.◌∷◌ a (String.◌∷◌ b (String.◌∷◌ c (String.◌∷◌ d (String.◌∷◌ e s))))) h =
    ground arith
hhmm_to_minutes-lt _ h = absurd (ground arith)

pub validate_timezone-zone_matches :
    (v : Value)
    → (validate_timezone v).1 ≡ []
    → zone_matches (first_part false) (validate_timezone v).0 ≡ true
unfolding validate_timezone
validate_timezone-zone_matches (str s) h = elim (Bool-cases (is_blank (strip is_space s))) [
  | inl b ↦ absurd (ground (arith, h, b))
  | inr nb ↦ elim (Bool-cases (zone_matches (first_part false) (strip is_space s))) [
    | inl m ↦ rw (nb, m) m
    | inr n ↦ absurd (ground (arith, h, nb, n))
  ]
]
validate_timezone-zone_matches _ h = absurd (ground arith)
