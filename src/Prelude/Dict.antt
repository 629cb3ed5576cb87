-- ===== src/Prelude/Dict.antt =====
-- A Python dictionary with text keys, in insertion order: an association list with one entry for
-- each key. `insert` is `d[k] = v`, which keeps the place of a key that is present.
use Prim.Native.String.{String}
use mathlib.Core.Path.{◌≡◌, refl, subst}
use mathlib.Core.List.{List, [], ◌∷◌}
use mathlib.Core.Option.{Option, none, some, none-ne-some, some-injective}
use mathlib.Core.Logic.{◌≢◌, inl, inr}
use native.Mathlib.Omega.{arith}
use text.Mathlib.TextEquality.{eq_iff}
use orchestrator_state_machi.Prelude.Tests.{text_eq, if◌then◌else◌, text_eq_refl, Bool-cases}
use orchestrator_state_machi.Prelude.Lists.{All}

abbrev pub Dict {ℓ} : Type ℓ → Type ℓ
Dict V = List (String × V)

module _ {ℓ} {V : Type ℓ} where
  unfoldable pub lookup : String → Dict V → Option V
  lookup k [] = none
  lookup k ((j, v) ∷ m) = if text_eq j k then some v else lookup k m

  unfoldable pub insert : String → V → Dict V → Dict V
  insert k v [] = (k, v) ∷ []
  insert k v ((j, w) ∷ m) = if text_eq j k then (k, v) ∷ m else (j, w) ∷ insert k v m

  -- After `d[at] = new`, a key is looked up as before, unless it is `at`.
  pub lookup-insert :
      (at other : String) (new : V) (d : Dict V)
      → lookup other (insert at new d) ≡ (if text_eq at other then some new else lookup other d)
  unfolding insert lookup
  lookup-insert at other new [] = refl
  lookup-insert at other new ((key, old) ∷ rest) =
      let below = lookup-insert at other new rest in
      ground (arith, below, eq_iff key other, eq_iff key at, eq_iff at other)

  pub lookup-insert_self : (k : String) (v : V) (m : Dict V) → lookup k (insert k v m) ≡ some v
  lookup-insert_self k v m = rw (lookup-insert, text_eq_refl)

  pub lookup-insert_ne :
      (k j : String) (v : V) (m : Dict V) → k ≢ j → lookup j (insert k v m) ≡ lookup j m
  lookup-insert_ne k j v m ne = ground (arith, lookup-insert k j v m, eq_iff k j)

-- What holds of every value.
module _ {ℓ κ} {V : Type ℓ} (P : V → Type κ) where
  abbrev pub AllValues : Dict V → Type κ
  AllValues d = All (λ entry. P (entry.1)) d

  pub insert-AllValues :
      (k : String) (v : V) (d : Dict V) → P v → AllValues d → AllValues (insert k v d)
  unfolding insert
  insert-AllValues k v [] h hs = (h, tt)
  insert-AllValues k v ((j, w) ∷ d) h hs = elim (Bool-cases (text_eq j k)) [
    | inl here ↦ rw here (h, hs.1)
    | inr there ↦ rw there (hs.0, insert-AllValues k v d h hs.1)
  ]

  pub lookup-AllValues : (k : String) (v : V) (d : Dict V) → AllValues d → lookup k d ≡ some v → P v
  unfolding lookup
  lookup-AllValues k v [] hs e = absurd (none-ne-some v e)
  lookup-AllValues k v ((j, w) ∷ d) hs e = elim (Bool-cases (text_eq j k)) [
    | inl here ↦ subst P (some-injective _ _ (rw here at e)) hs.0
    | inr there ↦ lookup-AllValues k v d hs.1 (rw there at e)
  ]
