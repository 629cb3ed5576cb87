-- ===== src/PolicyContract/Bounds.antt =====
-- src/watcher/policy_contract.py: what a policy that passes satisfies.
use orchestrator_state_machi.Prelude.{
  Checked, invalid, ok, raise-ne-ok, ok_injective, subst, ap, ◌∙◌, Bool-cases, inl, inr,
}
use orchestrator_state_machi.Prelude.Json.{
  Float, finite, null, bool, int, float, str, list, dict, float_overflows,
}
use orchestrator_state_machi.PolicyContract.Values.{check_range, zero_float}
use orchestrator_state_machi.Prelude.{
  ℕ, String, false, List, [], ◌∷◌, ◌++◌, ◌≡◌, refl, inl, inr, arith, Bool-cases, All, is_empty,
}
use orchestrator_state_machi.Prelude.Int.{ℤ, pos, ltb_ℤ, ◌≤ℤ◌}
use orchestrator_state_machi.Prelude.Json.{finite, Value, int, float, list, Items, nil, cons}
use orchestrator_state_machi.PolicyContract.Values.{
  validate_int_min, validate_int_range, parse_positive, validate_int_list_min_one, out_of_range,
  validate_numeric_range,
}

-- The checks on single values report nothing only for values like these.
pub int_min_bound :
    (v : Value) (f : String) (m : ℤ)
    → (validate_int_min v f m).1 ≡ []
    → m ≤ℤ (validate_int_min v f m).0
unfolding validate_int_min
int_min_bound (int n) f m h = ground arith
int_min_bound _ f m h = cc

pub int_range_bounds :
    (v : Value) (f : String) (m n : ℤ)
    → (validate_int_range v f m n).1 ≡ []
    → (m ≤ℤ (validate_int_range v f m n).0) × ((validate_int_range v f m n).0 ≤ℤ n)
unfolding validate_int_range
int_range_bounds (int k) f m n h = ground arith
int_range_bounds _ f m n h = absurd (ground arith)

check_range_bounds :
    (x : Float) (f : String) (m n : ℕ)
    → (check_range x f m n).1 ≡ []
    → out_of_range (check_range x f m n).0 m n ≡ false
unfolding check_range
check_range_bounds x f m n h = elim (Bool-cases (out_of_range x m n)) [
  | inl out ↦ absurd (ground (arith, h, out))
  | inr fine ↦ rw fine fine
]

invalid_bounds :
    (f : String) (m n : ℕ) {r : Checked Float}
    → invalid f zero_float ≡ r
    → r.1 ≡ []
    → out_of_range r.0 m n ≡ false
invalid_bounds f m n e h = absurd (ground (arith, ap (λ c. c.1) e ∙ h))

pub numeric_range_bounds :
    (v : Value) (f : String) (m n : ℕ) {r : Checked Float}
    → validate_numeric_range v f m n ≡ ok r
    → r.1 ≡ []
    → out_of_range r.0 m n ≡ false
unfolding validate_numeric_range
numeric_range_bounds (int k) f m n e = elim (Bool-cases (float_overflows k)) [
  | inl large ↦ absurd (raise-ne-ok (rw large at e))
  | inr small ↦
      subst (λ r. r.1 ≡ [] → out_of_range r.0 m n ≡ false) (ok_injective (rw small at e))
        (check_range_bounds (finite k 0) f m n)
]
numeric_range_bounds (float x) f m n e =
    subst (λ r. r.1 ≡ [] → out_of_range r.0 m n ≡ false) (ok_injective e)
      (check_range_bounds x f m n)
numeric_range_bounds null f m n e = invalid_bounds f m n (ok_injective e)
numeric_range_bounds (bool b) f m n e = invalid_bounds f m n (ok_injective e)
numeric_range_bounds (str s) f m n e = invalid_bounds f m n (ok_injective e)
numeric_range_bounds (list xs) f m n e = invalid_bounds f m n (ok_injective e)
numeric_range_bounds (dict d) f m n e = invalid_bounds f m n (ok_injective e)

-- A list of numbers with one at least, each of them positive.
pub record IsPositive (ns : List ℤ) : Type 0 where
  pub some_ : is_empty ns ≡ false
  pub each : All (λ n. pos 1 ≤ℤ n) ns

pub All-snoc {κ} :
    {A : Type 0} (P : A → Type κ) (xs : List A) {x : A} → All P xs → P x → All P (xs ++ (x ∷ []))
All-snoc P [] h p = (p, tt)
All-snoc P (y ∷ ys) h p = (h.0, All-snoc P ys h.1 p)

pub is_empty-snoc : {A : Type 0} (xs : List A) (x : A) → is_empty (xs ++ (x ∷ [])) ≡ false
is_empty-snoc [] x = refl
is_empty-snoc (y ∷ ys) x = refl

parse_positive_each :
    (f : String) (ns : List ℤ) (xs : Items)
    → (parse_positive f ns xs).1 ≡ []
    → IsPositive ns
    → IsPositive (parse_positive f ns xs).0
unfolding parse_positive
parse_positive_each f ns nil h p = p
parse_positive_each f ns (cons (int n) xs) h p = elim (Bool-cases (ltb_ℤ n (pos 1))) [
  | inl low ↦ absurd (ground (arith, h, low))
  | inr fine ↦ rw fine (
      parse_positive_each f (ns ++ (n ∷ [])) xs (rw fine at h) (record {
        some_ = is_empty-snoc ns n;
        each = All-snoc (λ k. pos 1 ≤ℤ k) ns p.each (ground (arith, fine));
      }))
]
parse_positive_each f ns (cons _ xs) h p = absurd (ground arith)

pub int_list-IsPositive :
    (v : Value) (f : String)
    → (validate_int_list_min_one v f).1 ≡ []
    → IsPositive (validate_int_list_min_one v f).0
unfolding validate_int_list_min_one parse_positive
int_list-IsPositive (list (cons (int n) xs)) f h = elim (Bool-cases (ltb_ℤ n (pos 1))) [
  | inl low ↦ absurd (ground (arith, h, low))
  | inr fine ↦ rw fine (
      parse_positive_each f (n ∷ []) xs (rw fine at h)
        (record { some_ = refl; each = (ground (arith, fine), tt) }))
]
int_list-IsPositive _ f h = absurd (ground arith)
