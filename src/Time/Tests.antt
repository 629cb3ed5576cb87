-- ===== src/Time/Tests.antt =====
-- Runs and instances for the timestamps.
use orchestrator_state_machi.Prelude.{◌≡◌, refl, ok}
use orchestrator_state_machi.Time.{z_to_offset, offset_to_z, rfc3339, parse_rfc3339_utc}
use orchestrator_state_machi.Time.Example.{zeros_calendar}
use orchestrator_state_machi.Time.RoundTrip.{parse_rfc3339_utc-rfc3339}

written_with_z : offset_to_z 0 "2026-02-20T09:30:00+00:00" ≡ "2026-02-20T09:30:00Z"
unfolding offset_to_z
written_with_z = refl

read_with_offset : z_to_offset "2026-02-20T09:30:00Z" ≡ "2026-02-20T09:30:00+00:00"
unfolding z_to_offset
read_with_offset = refl

parse_rfc3339_utc-rfc3339_example :
    parse_rfc3339_utc zeros_calendar (rfc3339 zeros_calendar 3) ≡ ok 3
parse_rfc3339_utc-rfc3339_example = parse_rfc3339_utc-rfc3339 zeros_calendar 3
