-- ===== src/FileCompare/Local.antt =====
-- Whether a local file differs from an offered one (`file_differs_from_local`,
-- `populate_file_status`, `populate_file_meta_from_handle` and `populate_file_meta` of
-- src/detail2/filesystem.cpp). What the system answers for a path is a parameter. Of the metadata
-- only the size and the time of the last write take part.
use sora_transport.Prelude.{ℕ, Bool, true, not, Option, none, some, ◌!=◌, if◌then◌else◌}
use sora_transport.Prelude.Int.{ℤ, pos_part, neg_part}
use sora_transport.Config.{value_or}
use sora_transport.Timestamp.{FileTimestamp, maybe_set_timestamp}
use sora_transport.Prelude.Result.{Result, ok, err, ◌>>=◌}
use sora_transport.FileCompare.Json.{MessageError, status_failed}
use sora_transport.FileCompare.Message.{FileInfoEntry}

-- The answers on a handle: the last write time and the end of file, none where a call fails.
pub record HandleInfo : Type 0 where
  pub last_write_time : Option ℤ
  pub end_of_file : Option ℤ

-- The answers on a path; an error of `exists` or `is_regular_file` counts as no. `status_throws`
-- says that `symlink_status` throws.
pub record LocalFile : Type 0 where
  pub exists : Bool
  pub regular : Bool
  pub status_throws : Bool
  pub status_regular : Bool
  pub file_size : Option ℕ
  pub handle : Option HandleInfo

pub record FileMeta : Type 0 where
  pub size : ℕ
  pub last_write_time : Option FileTimestamp

unfoldable pub populate_file_status : LocalFile → FileMeta → Result MessageError FileMeta
populate_file_status file meta =
    if file.status_throws
    then err status_failed
    else ok (record meta { size = if file.status_regular then value_or file.file_size 0 else 0 })

abbrev pub set_write_time : Option ℤ → FileMeta → FileMeta
set_write_time none meta = meta
set_write_time (some ticks) meta = record meta {
  last_write_time = maybe_set_timestamp meta.last_write_time ticks;
}

abbrev pub set_size : Bool → Option ℤ → FileMeta → FileMeta
set_size true (some end_of_file) meta = record meta { size = pos_part end_of_file }
set_size regular end_of_file meta = meta

unfoldable pub populate_file_meta_from_handle : LocalFile → HandleInfo → FileMeta → FileMeta
populate_file_meta_from_handle file info meta =
    set_size file.status_regular info.end_of_file (set_write_time info.last_write_time meta)

abbrev pub with_handle : LocalFile → Option HandleInfo → FileMeta → FileMeta
with_handle file none meta = meta
with_handle file (some info) meta = populate_file_meta_from_handle file info meta

unfoldable pub populate_file_meta : LocalFile → FileMeta → Result MessageError FileMeta
populate_file_meta file meta =
    populate_file_status file meta >>= λ known. ok (with_handle file file.handle known)

abbrev pub other_second : Option FileTimestamp → ℤ → Bool
other_second none expected = true
other_second (some time) expected =
    if pos_part time.seconds != pos_part expected
    then true
    else neg_part time.seconds != neg_part expected

-- The part of `file_differs_from_local` from the handle on.
abbrev pub differs_by_handle : LocalFile → FileInfoEntry → FileMeta → Option HandleInfo → Bool
differs_by_handle file info known none = true
differs_by_handle file info known (some handle) =
    let meta = populate_file_meta_from_handle file handle known in
    if meta.size != info.size then true else other_second meta.last_write_time info.mtime_sec

unfoldable pub file_differs_from_local : LocalFile → FileInfoEntry → Result MessageError Bool
file_differs_from_local file info =
    if not file.exists
    then ok true
    else if not file.regular
    then ok true
    else (populate_file_status file (record { size = 0; last_write_time = none }) >>= λ known.
        ok (differs_by_handle file info known file.handle))
