-- ===== src/Prelude/Chars.antt =====
-- What the text methods keep: every character is still of a class that the text's characters are of.
use Prim.Native.Char.{Char}
use Prim.Native.Nat.{ℕ, zero, suc, ◌-◌, ◌≤◌}
use Prim.Native.String.{String}
use mathlib.Core.Path.{◌≡◌, refl}
use mathlib.Core.Bool.{Bool, true, false, ◌&&◌}
use mathlib.Core.Logic.{◌↔◌}
use native.Mathlib.Omega.{arith}
use orchestrator_state_machi.Prelude.Text.{lstrip, rstrip, strip, all_chars}
use orchestrator_state_machi.Prelude.Regex.{repeat_matches, not_newline}

abbrev pub text_length : String → ℕ
text_length String.[] = 0
text_length (String.◌∷◌ c s) = suc (text_length s)

-- Every character is of the class `q`.
abbrev pub Chars : (Char → Bool) → String → Type 0
Chars q s = all_chars q s ≡ true

pub &&-true-left : (a b : Bool) → (a && b) ≡ true → a ≡ true
&&-true-left true b h = refl
&&-true-left false b h = h

pub &&-true-right : (a b : Bool) → (a && b) ≡ true → b ≡ true
&&-true-right true b h = h
&&-true-right false b h = absurd (ground (arith, h))

-- A wider class.
pub Chars-mono :
    (p q : Char → Bool)
    → ((c : Char) → p c ≡ true → q c ≡ true)
    → (s : String) → Chars p s
    → Chars q s
Chars-mono p q wider String.[] h = refl
Chars-mono p q wider (String.◌∷◌ c s) h =
    rw (wider c (&&-true-left _ _ h)) (Chars-mono p q wider s (&&-true-right _ _ h))

module _ (q : Char → Bool) where
  pub lstrip-Chars : (p : Char → Bool) (s : String) → Chars q s → Chars q (lstrip p s)
  unfolding lstrip
  lstrip-Chars p String.[] h = h
  lstrip-Chars p (String.◌∷◌ c s) h = ground (arith, lstrip-Chars p s)

  pub rstrip-Chars : (p : Char → Bool) (s : String) → Chars q s → Chars q (rstrip p s)
  unfolding rstrip
  rstrip-Chars p String.[] h = h
  rstrip-Chars p (String.◌∷◌ c s) h = ground (arith, rstrip-Chars p s)

  pub strip-Chars : (p : Char → Bool) (s : String) → Chars q s → Chars q (strip p s)
  unfolding strip
  strip-Chars p s h = rstrip-Chars p (lstrip p s) (lstrip-Chars p s h)

-- On a text with no newline, `[class]{lo,hi}$` is what it looks like.
pub repeat_matches_iff :
    (p : Char → Bool) (lo hi : ℕ) (s : String)
    → Chars not_newline s
    → lo ≤ hi
    → (repeat_matches p lo hi s ≡ true)
      ↔ ((all_chars p s ≡ true) × (lo ≤ text_length s) × (text_length s ≤ hi))
unfolding repeat_matches
repeat_matches_iff p lo hi String.[] h le = ground arith
repeat_matches_iff p lo zero (String.◌∷◌ c s) h le = ground (arith, h)
repeat_matches_iff p lo (suc hi) (String.◌∷◌ c s) h le =
    ground (arith, repeat_matches_iff p (lo - 1) hi s)
