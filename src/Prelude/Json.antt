-- ===== src/Prelude/Json.antt =====
-- What `json.loads` gives, and what a parameter `Any` of the watcher holds: the values of JSON.
use Prim.Native.Nat.{ℕ, ◌*◌, ◌^◌, ◌+◌, ◌-◌}
use Prim.Native.String.{String}
use mathlib.Core.Bool.{Bool, true, false}
use mathlib.Core.Option.{Option, none, some}
use orchestrator_state_machi.Prelude.Tests.{text_eq, if◌then◌else◌, ltb, leb}
use orchestrator_state_machi.Prelude.Int.{ℤ, pos_part, neg_part}

-- A Python float. A finite one is a dyadic fraction, num / 2 ^ exp, and so it is held exactly; one
-- number has several such forms, and the comparisons do not tell them apart.
pub data Float : Type 0 where
  nan inf neg_inf : Float
  finite : ℤ → ℕ → Float

-- num / 2 ^ exp < n / 2 ^ k, for a fraction that is not negative on the right.
abbrev pub lt_fraction : Float → ℕ → ℕ → Bool
lt_fraction nan n k = false
lt_fraction inf n k = false
lt_fraction neg_inf n k = true
lt_fraction (finite num exp) n k = ltb (pos_part num * 2 ^ k) (n * 2 ^ exp + neg_part num * 2 ^ k)

-- n / 2 ^ k < num / 2 ^ exp.
abbrev pub gt_fraction : Float → ℕ → ℕ → Bool
gt_fraction nan n k = false
gt_fraction inf n k = true
gt_fraction neg_inf n k = false
gt_fraction (finite num exp) n k = ltb (n * 2 ^ exp + neg_part num * 2 ^ k) (pos_part num * 2 ^ k)

-- n / 2 ^ k ≤ num / 2 ^ exp.
abbrev pub ge_fraction : Float → ℕ → ℕ → Bool
ge_fraction nan n k = false
ge_fraction inf n k = true
ge_fraction neg_inf n k = false
ge_fraction (finite num exp) n k = leb (n * 2 ^ exp + neg_part num * 2 ^ k) (pos_part num * 2 ^ k)

-- `float(n)` raises OverflowError, from half a step above the largest float.
abbrev pub float_overflows : ℤ → Bool
float_overflows n = leb (2 ^ 1024 - 2 ^ 970) (pos_part n + neg_part n)

mutual
  pub data Value : Type 0 where
    null : Value
    bool : Bool → Value
    int : ℤ → Value
    float : Float → Value
    str : String → Value
    list : Items → Value
    dict : Fields → Value

  pub data Items : Type 0 where
    nil : Items
    cons : Value → Items → Items

  -- The entries of an object, with one entry for each key.
  pub data Fields : Type 0 where
    end : Fields
    field : String → Value → Fields → Fields

-- `d.get(k)`, with `none` for a key that is not there.
unfoldable pub get : String → Fields → Option Value
get k end = none
get k (field j v d) = if text_eq j k then some v else get k d

-- `not d`
abbrev pub is_empty_dict : Fields → Bool
is_empty_dict end = true
is_empty_dict (field j v d) = false

-- `d.get(k)`, with `None` for a key that is not there.
abbrev pub value_of : String → Fields → Value
value_of k d = elim (get k d) [ none ↦ null | some v ↦ v ]

-- `k in d`
abbrev pub has_key : String → Fields → Bool
has_key k d = elim (get k d) [ none ↦ false | some v ↦ true ]
