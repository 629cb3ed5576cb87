-- ===== src/Prelude/Regex.antt =====
-- Pieces of Python's regular expressions, as `match` reads them.
use Prim.Native.Char.{Char, code}
use Prim.Native.Nat.{ℕ, zero, suc, ◌-◌}
use Prim.Native.String.{String}
use mathlib.Core.Path.{◌≡◌, refl}
use mathlib.Core.Bool.{Bool, true, false, ◌&&◌, not}
use native.Mathlib.Omega.{arith}
use orchestrator_state_machi.Prelude.Tests.{◌==◌, if◌then◌else◌}
use orchestrator_state_machi.Prelude.Text.{is_blank, between}

-- `$`: the end of the text, or its last newline.
unfoldable pub at_end : String → Bool
at_end String.[] = true
at_end (String.◌∷◌ c s) = code c == b'\n' && is_blank s

abbrev pub is_digit : Char → Bool
is_digit c = between b'0' b'9' (code c)

abbrev pub is_lower : Char → Bool
is_lower c = between b'a' b'z' (code c)

-- `[class]{lo,hi}$`, for a class without the newline.
unfoldable pub repeat_matches : (Char → Bool) → ℕ → ℕ → String → Bool
unfolding at_end
repeat_matches p lo hi String.[] = lo == 0
repeat_matches p lo zero (String.◌∷◌ c s) = lo == 0 && at_end (String.◌∷◌ c s)
repeat_matches p lo (suc hi) (String.◌∷◌ c s) =
    let rest = repeat_matches p (lo - 1) hi s in
    if p c then rest else lo == 0 && at_end (String.◌∷◌ c s)

repeat_test : repeat_matches is_digit 2 3 "12" ≡ true
unfolding repeat_matches
repeat_test = refl

too_long_test : repeat_matches is_digit 2 3 "1234" ≡ false
unfolding repeat_matches
too_long_test = refl

newline_test : repeat_matches is_digit 2 3 "123\n" ≡ true
unfolding repeat_matches
newline_test = refl

abbrev pub not_newline : Char → Bool
not_newline c = not (code c == b'\n')

pub at_end_other : (c : Char) (s : String) → not_newline c ≡ true → at_end (String.◌∷◌ c s) ≡ false
unfolding at_end
at_end_other c s h = ground arith
