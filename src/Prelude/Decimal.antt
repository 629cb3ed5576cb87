-- ===== src/Prelude/Decimal.antt =====
-- Python's `int(text)` and `str(n)`.
use Prim.Native.Char.{Char, code}
use Prim.Native.Nat.{ℕ, zero, suc, ◌+◌, ◌-◌, ◌*◌, ◌/◌, ◌%◌, ◌<◌}
use Prim.Native.String.{String}
use mathlib.Core.Path.{◌≡◌, refl, ap, ◌∙◌}
use mathlib.Core.Logic.{inl, inr}
use mathlib.Core.List.{List, [], ◌∷◌}
use mathlib.Core.Bool.{Bool, true, false, ◌&&◌, not}
use mathlib.Core.Option.{Option, none, some, map as map_option}
use native.Mathlib.Omega.{arith}
use orchestrator_state_machi.Prelude.Tests.{ltb, ◌==◌, if◌then◌else◌, Bool-cases}
use orchestrator_state_machi.Prelude.Int.{ℤ, pos, negsuc}
use orchestrator_state_machi.Prelude.Text.{
  is_space, is_blank, strip, between, all_chars, strip_fixed,
}
use orchestrator_state_machi.Prelude.Regex.{is_digit}

-- The zeros of the decimal digits of Unicode, each followed by the other nine.
abbrev decimal_zeros : List ℕ
decimal_zeros =
    0x30 ∷ 0x660 ∷ 0x6f0 ∷ 0x7c0 ∷ 0x966 ∷ 0x9e6 ∷ 0xa66 ∷ 0xae6 ∷ 0xb66 ∷ 0xbe6 ∷ 0xc66 ∷ 0xce6
    ∷ 0xd66 ∷ 0xde6 ∷ 0xe50 ∷ 0xed0 ∷ 0xf20 ∷ 0x1040 ∷ 0x1090 ∷ 0x17e0 ∷ 0x1810 ∷ 0x1946 ∷ 0x19d0
    ∷ 0x1a80 ∷ 0x1a90 ∷ 0x1b50 ∷ 0x1bb0 ∷ 0x1c40 ∷ 0x1c50 ∷ 0xa620 ∷ 0xa8d0 ∷ 0xa900 ∷ 0xa9d0
    ∷ 0xa9f0 ∷ 0xaa50 ∷ 0xabf0 ∷ 0xff10 ∷ 0x104a0 ∷ 0x10d30 ∷ 0x11066 ∷ 0x110f0 ∷ 0x11136 ∷ 0x111d0
    ∷ 0x112f0 ∷ 0x11450 ∷ 0x114d0 ∷ 0x11650 ∷ 0x116c0 ∷ 0x11730 ∷ 0x118e0 ∷ 0x11950 ∷ 0x11c50
    ∷ 0x11d50 ∷ 0x11da0 ∷ 0x11f50 ∷ 0x16a60 ∷ 0x16ac0 ∷ 0x16b50 ∷ 0x1d7ce ∷ 0x1d7d8 ∷ 0x1d7e2
    ∷ 0x1d7ec ∷ 0x1d7f6 ∷ 0x1e140 ∷ 0x1e2f0 ∷ 0x1e4f0 ∷ 0x1e950 ∷ 0x1fbf0 ∷ []

other_digit : List ℕ → ℕ → Option ℕ
other_digit [] n = none
other_digit (z ∷ zs) n =
    let rest = other_digit zs n in if between z (z + 9) n then some (n - z) else rest

-- The value of a decimal digit.
unfoldable pub digit_value : Char → Option ℕ
unfolding other_digit
digit_value c = if is_digit c then some (code c - 48) else other_digit decimal_zeros (code c)

-- The digits of a number, with single underscores between them; the flag tells whether a digit stood
-- just before.
unfoldable pub read_digits : Bool → ℕ → String → Option ℕ
read_digits after_digit n String.[] = if after_digit then some n else none
read_digits after_digit n (String.◌∷◌ c s) = elim (digit_value c) [
  | some d ↦ read_digits true (n * 10 + d) s
  | none ↦ let rest = read_digits false n s in if code c == b'_' && after_digit then rest else none
]

abbrev pub negated : ℕ → ℤ
negated zero = pos 0
negated (suc n) = negsuc n

-- The number behind the sign.
unfoldable pub read_signed : String → Option ℤ
read_signed String.[] = none
read_signed (String.◌∷◌ c s) =
    if code c == b'-'
    then map_option negated (read_digits false 0 s)
    else if code c == b'+'
    then map_option pos (read_digits false 0 s)
    else map_option pos (read_digits false 0 (String.◌∷◌ c s))

-- `int(s)`, with `none` for ValueError.
unfoldable pub read_int : String → Option ℤ
read_int s = read_signed (strip is_space s)

-- The digit of a number below ten.
unfoldable pub digit_char : ℕ → Char
digit_char zero = "0"
digit_char (suc zero) = "1"
digit_char (suc (suc zero)) = "2"
digit_char (suc (suc (suc zero))) = "3"
digit_char (suc (suc (suc (suc zero)))) = "4"
digit_char (suc (suc (suc (suc (suc zero))))) = "5"
digit_char (suc (suc (suc (suc (suc (suc zero)))))) = "6"
digit_char (suc (suc (suc (suc (suc (suc (suc zero))))))) = "7"
digit_char (suc (suc (suc (suc (suc (suc (suc (suc zero)))))))) = "8"
digit_char _ = "9"

-- The digits of a number before those in `out`, on fuel.
unfoldable pub show_digits : ℕ → ℕ → String → String
unfolding digit_char
show_digits zero n out = out
show_digits (suc fuel) n out =
    let rest = show_digits fuel (n / 10) (String.◌∷◌ (digit_char (n % 10)) out) in
    if ltb n 10 then String.◌∷◌ (digit_char n) out else rest

-- `str(n)`
unfoldable pub show_ℕ : ℕ → String
unfolding show_digits
show_ℕ n = show_digits (suc n) n String.[]

unfoldable pub show_ℤ : ℤ → String
unfolding show_ℕ
show_ℤ (pos n) = show_ℕ n
show_ℤ (negsuc n) = String.◌∷◌ "-" (show_ℕ (suc n))

read_test : read_int " -1_204 " ≡ some (negsuc 1203)
unfolding read_int strip is_space read_signed read_digits digit_value
read_test = refl

devanagari_test : read_int "१२" ≡ some (pos 12)
unfolding read_int strip is_space read_signed read_digits digit_value
devanagari_test = refl

show_test : show_ℤ (pos 480) ≡ "480"
unfolding show_ℤ
show_test = refl

-- A digit that is printed is read as itself, and nothing is printed that is no digit.
digit_char-is_digit :
    (n : ℕ) → n < 10 → (is_digit (digit_char n) ≡ true) × (code (digit_char n) ≡ 48 + n)
unfolding digit_char
digit_char-is_digit zero h = (refl, refl)
digit_char-is_digit (suc zero) h = (refl, refl)
digit_char-is_digit (suc (suc zero)) h = (refl, refl)
digit_char-is_digit (suc (suc (suc zero))) h = (refl, refl)
digit_char-is_digit (suc (suc (suc (suc zero)))) h = (refl, refl)
digit_char-is_digit (suc (suc (suc (suc (suc zero))))) h = (refl, refl)
digit_char-is_digit (suc (suc (suc (suc (suc (suc zero)))))) h = (refl, refl)
digit_char-is_digit (suc (suc (suc (suc (suc (suc (suc zero))))))) h = (refl, refl)
digit_char-is_digit (suc (suc (suc (suc (suc (suc (suc (suc zero)))))))) h = (refl, refl)
digit_char-is_digit (suc (suc (suc (suc (suc (suc (suc (suc (suc zero))))))))) h = (refl, refl)
digit_char-is_digit (suc (suc (suc (suc (suc (suc (suc (suc (suc (suc n)))))))))) h =
    absurd (omega arith)

digit_value-digit_char : (n : ℕ) → n < 10 → digit_value (digit_char n) ≡ some n
unfolding digit_value
digit_value-digit_char n h = let (d, e) = digit_char-is_digit n h in rw (d, e) (ground arith)

read_digits-digit :
    (b : Bool) (n d : ℕ) (c : Char) (s : String)
    → digit_value c ≡ some d
    → read_digits b n (String.◌∷◌ c s) ≡ read_digits true (n * 10 + d) s
unfolding read_digits
read_digits-digit b n d c s e = rw (read_digits, e) refl

-- The digits printed are read before the others.
read_digits-show_digits :
    (fuel n : ℕ) (out : String) (b : Bool)
    → n < fuel
    → read_digits b 0 (show_digits fuel n out) ≡ read_digits true n out
unfolding show_digits
read_digits-show_digits zero n out b h = absurd (omega arith)
read_digits-show_digits (suc fuel) n out b h = elim (Bool-cases (ltb n 10)) [
  | inl last ↦ rw last (
      read_digits-digit b 0 n (digit_char n) out (digit_value-digit_char n (ground (arith, last)))
      ∙ ap (λ k. read_digits true k out) (omega arith))
  | inr more ↦ rw more (
      read_digits-show_digits fuel (n / 10) (String.◌∷◌ (digit_char (n % 10)) out) b
        (ground (arith, more))
      ∙ read_digits-digit true (n / 10) (n % 10) (digit_char (n % 10)) out
          (digit_value-digit_char (n % 10) (omega arith))
      ∙ ap (λ k. read_digits true k out) (omega arith))
]

pub show_digits-all :
    (fuel n : ℕ) (out : String)
    → all_chars is_digit out ≡ true
    → all_chars is_digit (show_digits fuel n out) ≡ true
unfolding show_digits
show_digits-all zero n out h = h
show_digits-all (suc fuel) n out h = elim (Bool-cases (ltb n 10)) [
  | inl last ↦ rw (last, (digit_char-is_digit n (ground (arith, last))).0) h
  | inr more ↦ rw more (
      show_digits-all fuel (n / 10) (String.◌∷◌ (digit_char (n % 10)) out)
        (rw ((digit_char-is_digit (n % 10) (omega arith)).0) h))
]

pub show_ℕ-digits : (n : ℕ) → all_chars is_digit (show_ℕ n) ≡ true
unfolding show_ℕ
show_ℕ-digits n = show_digits-all (suc n) n String.[] refl

-- Digits are neither white space nor signs.
digit_no_space :
    (s : String) → all_chars is_digit s ≡ true → all_chars (λ c. not (is_space c)) s ≡ true
unfolding is_space
digit_no_space String.[] h = refl
digit_no_space (String.◌∷◌ c s) h = ground (arith, digit_no_space s)

read_signed-digits :
    (s : String)
    → all_chars is_digit s ≡ true
    → is_blank s ≡ false
    → read_signed s ≡ map_option pos (read_digits false 0 s)
unfolding read_signed
read_signed-digits String.[] h b = cc
read_signed-digits (String.◌∷◌ c s) h b =
    let minus : (code c == b'-') ≡ false = ground (arith, h) in
    let plus : (code c == b'+') ≡ false = ground (arith, h) in rw (minus, plus) refl

show_digits-some :
    (fuel n : ℕ) (c : Char) (out : String)
    → is_blank (show_digits fuel n (String.◌∷◌ c out)) ≡ false
unfolding show_digits
show_digits-some zero n c out = refl
show_digits-some (suc fuel) n c out = elim (Bool-cases (ltb n 10)) [
  | inl last ↦ rw last
  | inr more ↦ rw more (show_digits-some fuel (n / 10) (digit_char (n % 10)) (String.◌∷◌ c out))
]

pub show_ℕ-some : (n : ℕ) → is_blank (show_ℕ n) ≡ false
unfolding show_ℕ show_digits
show_ℕ-some n = elim (Bool-cases (ltb n 10)) [
  | inl last ↦ rw last
  | inr more ↦ rw more (show_digits-some n (n / 10) (digit_char (n % 10)) String.[])
]

read_digits-show_ℕ : (n : ℕ) → read_digits false 0 (show_ℕ n) ≡ some n
unfolding show_ℕ read_digits
read_digits-show_ℕ n = read_digits-show_digits (suc n) n String.[] false (omega arith)

-- A number that `str` prints, `int` reads.
pub read_int-show_ℕ : (n : ℕ) → read_int (show_ℕ n) ≡ some (pos n)
unfolding read_int
read_int-show_ℕ n =
    rw
      (
        strip_fixed is_space (show_ℕ n) (digit_no_space _ (show_ℕ-digits n)),
        read_signed-digits (show_ℕ n) (show_ℕ-digits n) (show_ℕ-some n),
      )
      (ap (map_option pos) (read_digits-show_ℕ n))
