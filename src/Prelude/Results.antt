-- ===== src/Prelude/Results.antt =====
-- What a Python call gives: a value, or an exception of the module's own type.
use mathlib.Core.Path.{◌≡◌, refl, ap}
use mathlib.Core.Logic.{◌≢◌}
use mathlib.Core.Bool.{Bool, true, false}
use mathlib.Core.List.{List, [], ◌∷◌, ◌++◌}
use Prim.Native.String.{String, ◌++◌ as append}

pub data Result (E A : Type 0) : Type 0 where
  ok : A → Result E A
  raise : E → Result E A

infixl 5 ◌>>=◌ ◌>>◌
abbrev pub ◌>>=◌ : {E A B : Type 0} → Result E A → (A → Result E B) → Result E B
ok a >>= f = f a
raise e >>= f = raise e

abbrev pub ◌>>◌ : {E B : Type 0} → Result E (Unit {0}) → Result E B → Result E B
m >> k = m >>= λ _. k

-- `if test: raise e`
abbrev pub raise_if : {E : Type 0} → Bool → E → Result E (Unit {0})
raise_if true e = raise e
raise_if false e = ok tt

-- `except E as exc: raise F(exc) from exc`
abbrev pub rethrow : {E F A : Type 0} → (E → F) → Result E A → Result F A
rethrow f (ok a) = ok a
rethrow f (raise e) = raise (f e)

-- A chain that returns `out` went through a first value.
pub >>=-eq-ok :
    {E A B : Type 0} (first : Result E A) (next : A → Result E B) {out : B}
    → first >>= next ≡ ok out
    → (v : A) × (first ≡ ok v) × (next v ≡ ok out)
>>=-eq-ok (raise exc) next h = cc
>>=-eq-ok (ok v) next returned = (v, refl, returned)

pub raise-ne-ok : {E A : Type 0} {e : E} {a : A} → raise e ≢ ok a
raise-ne-ok h = cc

pub ok_injective : {E A : Type 0} {a b : A} → ◌≡◌ {A = Result E A} (ok a) (ok b) → a ≡ b
ok_injective h = cc

-- A value, and the texts that the check appended to the list `errors` of its caller.
abbrev pub Checked : Type 0 → Type 0
Checked A = A × List String

abbrev pub valid : {A : Type 0} → A → Checked A
valid a = (a, [])

-- `errors.append(f"{field_name} invalid")`, with the value that stands in.
abbrev pub invalid : {A : Type 0} → String → A → Checked A
invalid field_name a = (a, append field_name " invalid" ∷ [])

-- `if errors: raise SomeError(errors)`; the exception is its list of errors.
abbrev pub raise_errors : {A : Type 0} → Checked A → Result (List String) A
raise_errors (a, []) = ok a
raise_errors (a, e ∷ es) = raise (e ∷ es)

pub raise_errors-ok :
    {A : Type 0} (c : Checked A) {a : A} → raise_errors c ≡ ok a → (c.1 ≡ []) × (c.0 ≡ a)
raise_errors-ok (a, []) h = (refl, ok_injective h)
raise_errors-ok (a, e ∷ es) h = cc

-- Two checks report nothing only if neither does.
pub append_nil_left : (xs ys : List String) → xs ++ ys ≡ [] → xs ≡ []
append_nil_left [] ys h = refl
append_nil_left (x ∷ xs) ys h = cc

pub append_nil_right : (xs ys : List String) → xs ++ ys ≡ [] → ys ≡ []
append_nil_right [] ys h = h
append_nil_right (x ∷ xs) ys h = cc

-- An exception that is wrapped does not hide a value.
pub rethrow-ok :
    {E F A : Type 0} (f : E → F) (r : Result E A) {a : A} → rethrow f r ≡ ok a → r ≡ ok a
rethrow-ok f (ok a) h = ap ok (ok_injective h)
rethrow-ok f (raise e) h = absurd (raise-ne-ok h)
