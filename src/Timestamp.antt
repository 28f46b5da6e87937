-- ===== src/Timestamp.antt =====
-- File times: Windows FILETIME ticks of 100 ns since 1601 to and from seconds and nanoseconds since
-- 1970 (`filetime_to_timestamp` and `maybe_set_timestamp` of src/detail2/filesystem.cpp,
-- `to_file_timestamp` and `timestamp_to_filetime` of src/detail2/tar.cpp).
pub mod RoundTrip
mod Examples
use sora_transport.Prelude.{
  ℕ, suc, ◌+◌, ◌-◌, ◌*◌, ◌/◌, ◌%◌, ◌^◌, Bool, true, false, ◌&&◌, Option, none, some, if◌then◌else◌,
  ◌==◌,
}
use sora_transport.Prelude.Int.{ℤ, pos, negsuc, ◌+ℤ◌, ◌-ℤ◌, ltb_ℤ, div_ℤ, rem_ℤ, sub_ℕ}

pub record FileTimestamp : Type 0 where
  pub seconds : ℤ
  pub nanoseconds : ℤ

abbrev pub windows_to_unix_epoch_offset_100ns : ℕ
windows_to_unix_epoch_offset_100ns = 116444736000000000

-- A product with a positive constant.
abbrev pub scale : ℤ → ℕ → ℤ
scale (pos n) k = pos (n * k)
scale (negsuc n) k = sub_ℕ 0 (suc n * k)

unfoldable pub filetime_to_timestamp : ℤ → FileTimestamp
filetime_to_timestamp value =
    let unix_ticks = value -ℤ pos windows_to_unix_epoch_offset_100ns in
    let seconds = div_ℤ unix_ticks 10000000 in
    let remaining_ticks = rem_ℤ unix_ticks 10000000 in
    if ltb_ℤ remaining_ticks (pos 0)
    then record {
      seconds = seconds -ℤ pos 1;
      nanoseconds = scale (remaining_ticks +ℤ pos 10000000) 100;
    }
    else record { seconds = seconds; nanoseconds = scale remaining_ticks 100 }

-- `value.QuadPart <= 0` leaves the destination as it is.
unfoldable pub maybe_set_timestamp : Option FileTimestamp → ℤ → Option FileTimestamp
maybe_set_timestamp destination value =
    if ltb_ℤ (pos 0) value then some (filetime_to_timestamp value) else destination

abbrev pub is_zero : ℤ → Bool
is_zero (pos n) = n == 0
is_zero (negsuc n) = false

unfoldable pub to_file_timestamp : ℤ → ℤ → Option FileTimestamp
to_file_timestamp sec nsec =
    if is_zero sec && is_zero nsec
    then none
    else some (record { seconds = sec; nanoseconds = nsec })

-- `static_cast<std::uint64_t>`.
abbrev pub to_u64 : ℤ → ℕ
to_u64 (pos n) = n % 2 ^ 64
to_u64 (negsuc n) = 2 ^ 64 - 1 - n % 2 ^ 64

-- The 64 bits of the FILETIME.
unfoldable pub timestamp_to_filetime : FileTimestamp → ℕ
timestamp_to_filetime ts =
    ((to_u64 ts.seconds + 11644473600) * 10000000 + to_u64 ts.nanoseconds / 100) % 2 ^ 64
