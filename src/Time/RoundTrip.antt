-- ===== src/Time/RoundTrip.antt =====
-- The timestamps that the watcher writes are read back as the instants that they were made from.
use Prim.Native.Char.{Char, code}
use Prim.Native.String.{String, ◌++◌}
use Prim.Native.String.append
use orchestrator_state_machi.Prelude.{ℕ, true, false, ◌≡◌, refl, arith, some, ok, ap, ◌==◌, not}
use orchestrator_state_machi.Prelude.Text.{
  is_space, is_blank, strip, ends_with, all_chars, strip_fixed, all_chars-append,
}
use orchestrator_state_machi.Time.{
  Calendar, aware, is_plain, z_to_offset, offset_to_z, rfc3339, from_rfc3339, parse_rfc3339_utc,
}

plain_char :
    (c : Char)
    → is_plain c ≡ true
    → ((b'+' == code c) ≡ false) × ((code c == b'Z') ≡ false) × (is_space c ≡ false)
plain_char c h = (ground arith, ground arith, ground arith)

offset_to_z-append :
    (s : String) → all_chars is_plain s ≡ true → offset_to_z 0 (s ++ "+00:00") ≡ s ++ "Z"
unfolding offset_to_z
offset_to_z-append String.[] h = refl
offset_to_z-append (String.◌∷◌ c s) h =
    let (plus, _, _) = plain_char c (ground arith) in
    rw (append.cons c s "+00:00", append.cons c s "Z")
      (rw (plus, offset_to_z) (ap (String.◌∷◌ c) (offset_to_z-append s (ground arith))))

z_to_offset-append :
    (s : String) → all_chars is_plain s ≡ true → z_to_offset (s ++ "Z") ≡ s ++ "+00:00"
unfolding z_to_offset
z_to_offset-append String.[] h = refl
z_to_offset-append (String.◌∷◌ c s) h =
    let (_, z, _) = plain_char c (ground arith) in
    rw (append.cons c s "Z", append.cons c s "+00:00")
      (rw z (ap (String.◌∷◌ c) (z_to_offset-append s (ground arith))))

-- What a written timestamp looks like to `strip` and `endswith`.
pub not_blank-append : (s : String) → is_blank (s ++ "Z") ≡ false
not_blank-append String.[] = refl
not_blank-append (String.◌∷◌ c s) = rw (append.cons c s "Z")

ends_with-append : (s : String) → ends_with b'Z' (s ++ "Z") ≡ true
ends_with-append String.[] = refl
ends_with-append (String.◌∷◌ c s) =
    rw (append.cons c s "Z") (rw (not_blank-append s) (ends_with-append s))

no_space : (s : String) → all_chars is_plain s ≡ true → all_chars (λ c. not (is_space c)) s ≡ true
no_space String.[] h = refl
no_space (String.◌∷◌ c s) h = ground (arith, no_space s)

module _ (cal : Calendar) where
  pub rfc3339-eq : (t : ℕ) → rfc3339 cal t ≡ cal.stamp t ++ "Z"
  unfolding rfc3339
  rfc3339-eq t = offset_to_z-append (cal.stamp t) (cal.stamp_plain t)

  reading : (t : ℕ) → cal.fromisoformat (z_to_offset (cal.stamp t ++ "Z")) ≡ some (aware t)
  reading t = rw (z_to_offset-append (cal.stamp t) (cal.stamp_plain t)) (cal.fromisoformat-stamp t)

  -- A timestamp written by `_to_rfc3339` is read by `_from_rfc3339` as the same instant.
  pub from_rfc3339-rfc3339 : (t : ℕ) → from_rfc3339 cal (rfc3339 cal t) ≡ some t
  unfolding from_rfc3339
  from_rfc3339-rfc3339 t = rw rfc3339-eq (rw (reading t, from_rfc3339))

  -- `strip` leaves a written timestamp as it is.
  strip-rfc3339 : (t : ℕ) → strip is_space (cal.stamp t ++ "Z") ≡ cal.stamp t ++ "Z"
  unfolding is_space
  strip-rfc3339 t = strip_fixed is_space (cal.stamp t ++ "Z") (
      all_chars-append (λ c. not (is_space c)) (cal.stamp t) "Z"
        (no_space (cal.stamp t) (cal.stamp_plain t)) refl)

  -- `parse_rfc3339_utc` reads it as the same instant too, and refuses it never.
  pub parse_rfc3339_utc-rfc3339 : (t : ℕ) → parse_rfc3339_utc cal (rfc3339 cal t) ≡ ok t
  unfolding parse_rfc3339_utc
  parse_rfc3339_utc-rfc3339 t = rw rfc3339-eq (
      rw strip-rfc3339
        (rw (not_blank-append (cal.stamp t)) (rw (ends_with-append (cal.stamp t)) (rw reading))))
