-- ===== src/Timestamp/RoundTrip.antt =====
-- A file time packed on one side is restored on the other.
use sora_transport.Prelude.{
  ℕ, ◌^◌, ◌<◌, ◌≡◌, ◌&&◌, ◌==◌, ◌%◌, ◌-◌, ◌⊎◌, inl, inr, ap, ◌∙◌, refl, sym, if◌then◌else◌, Option,
  none, some, arith,
}
use sora_transport.Prelude.Int.{ℤ, pos}
use mathlib.Core.Option
use sora_transport.Timestamp.{
  is_zero, windows_to_unix_epoch_offset_100ns, FileTimestamp, filetime_to_timestamp,
  timestamp_to_filetime, maybe_set_timestamp, to_file_timestamp,
}

-- The way of the time of a last write: the packer sets it on an archive entry, the archive library
-- carries the seconds and the nanoseconds to the entry that the unpacker reads.
pub restore : (ℤ → ℤ → ℤ × ℤ) → Option FileTimestamp → Option ℕ
restore carry none = none
restore carry (some ts) =
    let (sec, nsec) = carry ts.seconds ts.nanoseconds in
    Option.map timestamp_to_filetime (to_file_timestamp sec nsec)

-- The restricted pax format keeps the second of a last write. It keeps the part of the second
-- only in an entry that has an extended header for another reason.
abbrev pub Carries : (ℤ → ℤ → ℤ × ℤ) → Type 0
Carries carry =
    (sec nsec : ℤ)
    → ((carry sec nsec).0 ≡ sec) × (((carry sec nsec).1 ≡ nsec) ⊎ ((carry sec nsec).1 ≡ pos 0))

-- Every tick count that a file can have comes back exactly, before 1970 too.
pub timestamp_to_filetime-filetime_to_timestamp :
    (ticks : ℕ) → ticks < 2 ^ 63 → timestamp_to_filetime (filetime_to_timestamp (pos ticks)) ≡ ticks
unfolding timestamp_to_filetime filetime_to_timestamp
timestamp_to_filetime-filetime_to_timestamp ticks h = ground arith

filetime_to_timestamp_zero :
    (ticks : ℕ)
    → let ts = filetime_to_timestamp (pos ticks) in
      is_zero ts.seconds && is_zero ts.nanoseconds ≡ (ticks == windows_to_unix_epoch_offset_100ns)
unfolding filetime_to_timestamp
filetime_to_timestamp_zero ticks = ground arith

-- The whole second of a tick count.
abbrev pub whole_second : ℕ → ℕ
whole_second ticks = ticks - ticks % 10000000

whole_second_same :
    (ticks : ℕ)
    → ((filetime_to_timestamp (pos (whole_second ticks))).seconds
        ≡ (filetime_to_timestamp (pos ticks)).seconds)
      × ((filetime_to_timestamp (pos (whole_second ticks))).nanoseconds ≡ pos 0)
unfolding filetime_to_timestamp
whole_second_same ticks = (ground arith, ground arith)

-- What a file time is restored to: nothing where it is exactly the Unix epoch.
abbrev pub restored : ℕ → Option ℕ
restored ticks = if ticks == windows_to_unix_epoch_offset_100ns then none else some ticks

-- What the unpacker makes of seconds and nanoseconds.
abbrev taken : ℤ → ℤ → Option ℕ
taken sec nsec = Option.map timestamp_to_filetime (to_file_timestamp sec nsec)

taken-restored :
    (ticks : ℕ)
    → ticks < 2 ^ 63
    → taken
        (filetime_to_timestamp (pos ticks)).seconds
        (filetime_to_timestamp (pos ticks)).nanoseconds
      ≡ restored ticks
unfolding to_file_timestamp
taken-restored ticks h =
    ground
      (arith, filetime_to_timestamp_zero ticks, timestamp_to_filetime-filetime_to_timestamp ticks h)

carried-taken :
    (carry : ℤ → ℤ → ℤ × ℤ) (ts : FileTimestamp) (sec nsec : ℤ)
    → (carry ts.seconds ts.nanoseconds).0 ≡ sec
    → (carry ts.seconds ts.nanoseconds).1 ≡ nsec
    → restore carry (some ts) ≡ taken sec nsec
unfolding restore
carried-taken carry ts sec nsec e f = rw (e, f) refl

-- The time of a last write, a positive tick count below 2^63, set on an archive entry and read from
-- the one that arrives, where the archive keeps the second and keeps or drops the part of it: what
-- the receiver sets is the very tick count, or that of the whole second, but nothing where that is
-- exactly the Unix epoch.
pub restored_ticks :
    (carry : ℤ → ℤ → ℤ × ℤ) (ticks : ℕ)
    → Carries carry
    → 0 < ticks
    → ticks < 2 ^ 63
    → (restore carry (maybe_set_timestamp none (pos ticks)) ≡ restored ticks)
      ⊎ (restore carry (maybe_set_timestamp none (pos ticks)) ≡ restored (whole_second ticks))
unfolding maybe_set_timestamp
restored_ticks carry ticks c positive h = elim (c ts.seconds ts.nanoseconds).1 [
  | inl kept ↦ inl (
      set
      ∙ carried-taken carry ts ts.seconds ts.nanoseconds (c ts.seconds ts.nanoseconds).0 kept
      ∙ taken-restored ticks h)
  | inr dropped ↦ inr (
      set
      ∙ carried-taken carry ts whole.seconds whole.nanoseconds
          ((c ts.seconds ts.nanoseconds).0 ∙ sym (whole_second_same ticks).0)
          (dropped ∙ sym (whole_second_same ticks).1)
      ∙ taken-restored (whole_second ticks) (omega (arith, h)))
]
  where
    ts : FileTimestamp
    ts = filetime_to_timestamp (pos ticks)

    whole : FileTimestamp
    whole = filetime_to_timestamp (pos (whole_second ticks))

    set : restore carry (maybe_set_timestamp none (pos ticks)) ≡ restore carry (some ts)
    set = ap (restore carry) (ground (arith, positive))
