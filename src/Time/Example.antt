-- ===== src/Time/Example.antt =====
-- A calendar that meets the laws of `Calendar`: an instant is written as so many zeros.
use Prim.Native.Char.{code}
use Prim.Native.String.{String, ◌++◌}
use Prim.Native.String.append
use orchestrator_state_machi.Prelude.{ℕ, zero, suc, true, ◌≡◌, refl, some, ap, ◌==◌, if◌then◌else◌}
use orchestrator_state_machi.Prelude.Text.{is_space, all_chars}
use orchestrator_state_machi.Time.{aware, Calendar, is_plain}

abbrev pub zeros : ℕ → String
zeros zero = String.[]
zeros (suc n) = String.◌∷◌ "0" (zeros n)

abbrev pub count_zeros : String → ℕ
count_zeros String.[] = 0
count_zeros (String.◌∷◌ c s) = let rest = count_zeros s in if code c == b'0' then suc rest else 0

pub zeros_plain : (n : ℕ) → all_chars is_plain (zeros n) ≡ true
unfolding is_space
zeros_plain zero = refl
zeros_plain (suc n) = zeros_plain n

pub count_zeros-zeros : (n : ℕ) → some (aware (count_zeros (zeros n ++ "+00:00"))) ≡ some (aware n)
count_zeros-zeros n = ap (λ k. some (aware k)) (count n)
  where
    count : (m : ℕ) → count_zeros (zeros m ++ "+00:00") ≡ m
    count zero = refl
    count (suc m) = rw (append.cons "0" (zeros m) "+00:00") (ap suc (count m))

abbrev pub zeros_calendar : Calendar
zeros_calendar = record {
  stamp = zeros;
  fromisoformat = λ s. some (aware (count_zeros s));
  local_to_utc = λ t. t;
  stamp_plain = zeros_plain;
  fromisoformat-stamp = count_zeros-zeros;
}
