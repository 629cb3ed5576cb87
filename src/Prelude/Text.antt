-- ===== src/Prelude/Text.antt =====
-- Python's text methods, over the native `String` as a list of characters.
use Prim.Native.Char.{Char, code}
use Prim.Native.Nat.{ℕ, ◌-◌}
use Prim.Native.String.{String, char_at, ◌++◌}
use Prim.Native.String.append
use mathlib.Core.Path.{◌≡◌, refl}
use mathlib.Core.Bool.{Bool, true, false, ◌&&◌, ◌||◌, not}
use native.Mathlib.Omega.{arith}
use orchestrator_state_machi.Prelude.Tests.{leb, ◌==◌, if◌then◌else◌}

-- `c in range(lo, hi + 1)`, of code points.
abbrev pub between : ℕ → ℕ → ℕ → Bool
between lo hi n = leb lo n && leb n hi

-- `str.isspace`, which `strip`, `split` and `\s` use too: the white space of Unicode.
unfoldable pub is_space : Char → Bool
is_space c =
    let n = code c in
    between 9 13 n
    || between 28 32 n
    || n == 133
    || n == 160
    || n == 5760
    || between 8192 8202 n
    || between 8232 8233 n
    || n == 8239
    || n == 8287
    || n == 12288

-- `not s`
abbrev pub is_blank : String → Bool
is_blank String.[] = true
is_blank (String.◌∷◌ c s) = false

unfoldable pub lstrip : (Char → Bool) → String → String
lstrip p String.[] = String.[]
lstrip p (String.◌∷◌ c s) = let rest = lstrip p s in if p c then rest else String.◌∷◌ c s

unfoldable pub rstrip : (Char → Bool) → String → String
rstrip p String.[] = String.[]
rstrip p (String.◌∷◌ c s) =
    let rest = rstrip p s in if p c && is_blank rest then String.[] else String.◌∷◌ c rest

-- `s.strip()` at `is_space`, and `s.strip(x)` for a set of characters.
unfoldable pub strip : (Char → Bool) → String → String
unfolding lstrip rstrip
strip p s = rstrip p (lstrip p s)

-- `str.lower`, for the letters whose lower case has an ASCII character in it: A to Z, U+0130
-- (i and U+0307) and U+212A (k). Other characters are left as they are: the program compares
-- lower-case texts with ASCII constants only.
unfoldable pub lower_char : Char → String → String
lower_char c rest =
    let n = code c in
    if between 65 90 n
    then String.◌∷◌ (char_at "abcdefghijklmnopqrstuvwxyz" (n - 65)) rest
    else if n == 304
    then String.◌∷◌ "i" (String.◌∷◌ "̇" rest)
    else if n == 8490
    then String.◌∷◌ "k" rest
    else String.◌∷◌ c rest

unfoldable pub lower : String → String
unfolding lower_char
lower String.[] = String.[]
lower (String.◌∷◌ c s) = lower_char c (lower s)

-- `s.replace(a, b)` for single characters.
unfoldable pub replace_char : ℕ → Char → String → String
replace_char a b String.[] = String.[]
replace_char a b (String.◌∷◌ c s) = String.◌∷◌ (if code c == a then b else c) (replace_char a b s)

-- `re.sub("x+", "_", s)` for a class `x` of characters: each run becomes one `_`.
unfoldable pub squeeze : (Char → Bool) → Bool → String → String
squeeze p in_run String.[] = String.[]
squeeze p in_run (String.◌∷◌ c s) =
    let rest = squeeze p (p c) s in
    if p c then (if in_run then rest else String.◌∷◌ "_" rest) else String.◌∷◌ c rest

-- `re.sub("[^x]+", "", s)`: the characters of the class alone.
unfoldable pub only : (Char → Bool) → String → String
only p String.[] = String.[]
only p (String.◌∷◌ c s) = let rest = only p s in if p c then String.◌∷◌ c rest else rest

-- Every character is of the class.
abbrev pub all_chars : (Char → Bool) → String → Bool
all_chars p String.[] = true
all_chars p (String.◌∷◌ c s) = p c && all_chars p s

strip_test : strip is_space "  ab c\t " ≡ "ab c"
unfolding strip is_space
strip_test = refl

lower_test : lower "Ab-C" ≡ "ab-c"
unfolding lower
lower_test = refl

-- `s.startswith(p)`
abbrev pub starts : String → String → Bool
starts String.[] s = true
starts (String.◌∷◌ p ps) String.[] = false
starts (String.◌∷◌ p ps) (String.◌∷◌ c s) = code p == code c && starts ps s

-- `s.endswith(x)` for one character.
abbrev pub ends_with : ℕ → String → Bool
ends_with x String.[] = false
ends_with x (String.◌∷◌ c s) = let rest = ends_with x s in if is_blank s then code c == x else rest

-- A text of such characters is left alone by `strip`.
pub lstrip_fixed :
    (p : Char → Bool) (c : Char) (s : String)
    → p c ≡ false
    → lstrip p (String.◌∷◌ c s) ≡ String.◌∷◌ c s
unfolding lstrip
lstrip_fixed p c s h = rw h

pub rstrip_fixed :
    (p : Char → Bool) (s : String) → all_chars (λ c. not (p c)) s ≡ true → rstrip p s ≡ s
unfolding rstrip
rstrip_fixed p String.[] h = refl
rstrip_fixed p (String.◌∷◌ c s) h = ground (arith, rstrip_fixed p s)

pub strip_fixed :
    (p : Char → Bool) (s : String) → all_chars (λ c. not (p c)) s ≡ true → strip p s ≡ s
unfolding strip
strip_fixed p String.[] h = refl
strip_fixed p (String.◌∷◌ c s) h =
    rw (lstrip_fixed p c s (ground arith)) (rstrip_fixed p (String.◌∷◌ c s) h)

pub all_chars-append :
    (p : Char → Bool) (s t : String)
    → all_chars p s ≡ true
    → all_chars p t ≡ true
    → all_chars p (s ++ t) ≡ true
all_chars-append p String.[] t h k = rw (append.nil t) k
all_chars-append p (String.◌∷◌ c s) t h k =
    rw (append.cons c s t) (ground (arith, all_chars-append p s t (ground arith) k))
