-- ===== src/Timestamp/Examples.antt =====
-- Runs of the theorems on file times at concrete inputs.
use sora_transport.Prelude.{ℕ, ◌≡◌, ◌⊎◌, refl, inr, none, arith}
use sora_transport.Prelude.Int.{ℤ, pos}
use sora_transport.Timestamp.{filetime_to_timestamp, timestamp_to_filetime, maybe_set_timestamp}
use sora_transport.Timestamp.RoundTrip.{
  restore, restored, whole_second, timestamp_to_filetime-filetime_to_timestamp, restored_ticks,
}

timestamp_to_filetime-filetime_to_timestamp_example :
    timestamp_to_filetime (filetime_to_timestamp (pos 12345)) ≡ 12345
timestamp_to_filetime-filetime_to_timestamp_example =
    timestamp_to_filetime-filetime_to_timestamp 12345 (omega arith)

-- An archive entry without an extended header.
abbrev seconds_only : ℤ → ℤ → ℤ × ℤ
seconds_only sec nsec = (sec, pos 0)

-- A part of a second after the first second of 1970.
abbrev later : ℕ
later = 116444736012345678

restored_ticks_example :
    (restore seconds_only (maybe_set_timestamp none (pos later)) ≡ restored later)
    ⊎ (restore seconds_only (maybe_set_timestamp none (pos later)) ≡ restored (whole_second later))
restored_ticks_example =
    restored_ticks seconds_only later (λ sec nsec. (refl, inr refl)) (omega arith) (omega arith)
