-- ===== src/HandoffParser/Fields.antt =====
-- src/watcher/handoff_parser.py: what the loop reads from a line.
use Prim.Native.Char.{Char, code}
use Prim.Native.String.append
use orchestrator_state_machi.Prelude.{
  String, Bool, true, false, not, ◌&&◌, ◌||◌, append, ◌≡◌, refl, ap, ◌∙◌, ◌==◌, some, arith,
}
use orchestrator_state_machi.Prelude.Text.{
  is_space, is_blank, strip, lstrip, rstrip, lstrip_fixed, strip_fixed,
}
use orchestrator_state_machi.Prelude.Dict.{insert}
use orchestrator_state_machi.Prelude.Chars.{Chars}
use orchestrator_state_machi.HandoffParser.{Scan, store_value, read_field, read_line}
use orchestrator_state_machi.HandoffParser.Text.{
  is_key_char, match_key, match_field_line, strip_quotes,
}

-- A text that is no white space and no quotation mark in any place.
abbrev pub is_plain : Char → Bool
is_plain c = not (is_space c) && not (code c == b'\'' || code c == b'"')

pub plain_no_space : (s : String) → Chars is_plain s → Chars (λ c. not (is_space c)) s
plain_no_space String.[] h = refl
plain_no_space (String.◌∷◌ c s) h = ground (arith, plain_no_space s)

key_no_space : (c : Char) → is_key_char c ≡ true → is_space c ≡ false
unfolding is_space
key_no_space c h = ground arith

match_key-key :
    (key text : String) (c : Char) (some_ : Bool)
    → Chars is_key_char (String.◌∷◌ c key)
    → match_key some_ (append (String.◌∷◌ c key) (String.◌∷◌ ":" text))
      ≡ some (String.◌∷◌ c key, text)
unfolding match_key
match_key-key String.[] text c some_ h =
    let here : is_key_char c ≡ true = ground (arith, h) in
    rw (append.cons c String.[] (String.◌∷◌ ":" text), append.nil (String.◌∷◌ ":" text), here) refl
match_key-key (String.◌∷◌ d key) text c some_ h =
    let here : is_key_char c ≡ true = ground (arith, h) in
    rw
      (
        append.cons c (String.◌∷◌ d key) (String.◌∷◌ ":" text),
        here,
        match_key-key key text d true (ground (arith, h)),
      )
      refl

-- A line `  key: value` whose value is plain is matched, and its value is stored.
abbrev pub plain_line : String → String → String
plain_line key value =
    String.◌∷◌ " " (String.◌∷◌ " " (append key (String.◌∷◌ ":" (String.◌∷◌ " " value))))

lstrip-key :
    (c : Char) (key rest : String)
    → Chars is_key_char (String.◌∷◌ c key)
    → lstrip is_space (append (String.◌∷◌ c key) rest) ≡ append (String.◌∷◌ c key) rest
lstrip-key c key rest h =
    rw (append.cons c key rest)
      (lstrip_fixed is_space c (append key rest) (key_no_space c (ground (arith, h))))

match_field_line-found :
    (s key text : String)
    → match_key false (lstrip is_space s) ≡ some (key, text)
    → match_field_line (String.◌∷◌ " " (String.◌∷◌ " " s)) ≡ some (key, strip is_space text)
unfolding match_field_line is_space
match_field_line-found s key text found = rw found refl

strip-plain :
    (value : String) → Chars is_plain value → strip is_space (String.◌∷◌ " " value) ≡ value
unfolding strip lstrip is_space
strip-plain value plain = strip_fixed is_space value (plain_no_space value plain)

match_field_line-plain :
    (c : Char) (key value : String)
    → Chars is_key_char (String.◌∷◌ c key)
    → Chars is_plain value
    → match_field_line (plain_line (String.◌∷◌ c key) value) ≡ some (String.◌∷◌ c key, value)
match_field_line-plain c key value h plain =
    let rest = String.◌∷◌ " " value in
    let found = match_key-key key rest c false h in
    match_field_line-found (append (String.◌∷◌ c key) (String.◌∷◌ ":" rest)) (String.◌∷◌ c key) rest
      (ap (match_key false) (lstrip-key c key (String.◌∷◌ ":" rest) h) ∙ found)
    ∙ ap (λ text. some (String.◌∷◌ c key, text)) (strip-plain value plain)

strip_quotes-plain : (value : String) → Chars is_plain value → strip_quotes value ≡ value
unfolding strip_quotes
strip_quotes-plain String.[] h = refl
strip_quotes-plain (String.◌∷◌ c s) h = ground (arith, h)

-- A line that begins with two spaces and a key is not blank.
rstrip-some :
    (c : Char) (s : String)
    → is_space c ≡ false
    → is_blank (rstrip is_space (String.◌∷◌ c s)) ≡ false
unfolding rstrip
rstrip-some c s h = rw h refl

strip-line :
    (c : Char) (key rest : String)
    → Chars is_key_char (String.◌∷◌ c key)
    → is_blank (strip is_space (String.◌∷◌ " " (String.◌∷◌ " " (append (String.◌∷◌ c key) rest))))
      ≡ false
unfolding strip lstrip is_space
strip-line c key rest h =
    rw (lstrip-key c key rest h, append.cons c key rest)
      (rstrip-some c (append key rest) (key_no_space c (ground (arith, h))))

store_value-given :
    (scan : Scan) (key value : String)
    → is_blank value ≡ false
    → store_value scan key value
      ≡ record scan { mapping = insert key value scan.mapping; consumed = true }
unfolding store_value
store_value-given scan key value given = rw given refl

pub read_field-found :
    (scan : Scan) (line key text : String)
    → match_field_line line ≡ some (key, text)
    → read_field scan line ≡ store_value scan key (strip_quotes (strip is_space text))
unfolding read_field
read_field-found scan line key text found = rw (read_field, found) refl

read_field-stored :
    (scan : Scan) (line key value : String)
    → match_field_line line ≡ some (key, value)
    → strip_quotes (strip is_space value) ≡ value
    → is_blank value ≡ false
    → read_field scan line
      ≡ record scan { mapping = insert key value scan.mapping; consumed = true }
read_field-stored scan line key value found same given =
    read_field-found scan line key value found
    ∙ ap (store_value scan key) same
    ∙ store_value-given scan key value given

pub read_line-plain :
    (scan : Scan) (c : Char) (key value : String)
    → Chars is_key_char (String.◌∷◌ c key)
    → Chars is_plain value
    → is_blank value ≡ false
    → read_line scan (plain_line (String.◌∷◌ c key) value)
      ≡ some
          (record scan { mapping = insert (String.◌∷◌ c key) value scan.mapping; consumed = true })
unfolding read_line
read_line-plain scan c key value h plain given =
    rw
      (
        strip-line c key (String.◌∷◌ ":" (String.◌∷◌ " " value)) h,
        read_field-stored scan (plain_line (String.◌∷◌ c key) value) (String.◌∷◌ c key) value
            (match_field_line-plain c key value h plain)
            (ap strip_quotes (strip_fixed is_space value (plain_no_space value plain))
              ∙ strip_quotes-plain value plain)
            given,
      )
      refl
