-- ===== src/FileCompare/Message.antt =====
-- The JSON control messages (`control_msg` of src/detail2/protocol.hpp and protocol.cpp).
pub mod RoundTrip
use sora_transport.Prelude.{
  ℕ, ◌+◌, ◌-◌, ◌%◌, ◌^◌, Bool, true, false, not, ◌&&◌, Option, none, some, List, [], ◌∷◌,
  if◌then◌else◌, ltb, is_empty,
}
use sora_transport.Prelude.Int.{ℤ, pos, negsuc}
use sora_transport.Prelude.Result.{Result, ok, err, ◌>>=◌}
use sora_transport.Prelude.Text.{Text, codes, text_eq}
use sora_transport.Timestamp.{to_u64}
use sora_transport.FileCompare.Json.{
  Json, text, number, array, object, Items, no_item, item, Fields, no_field, field, Codec, find,
  MessageError, bad_json, dump_failed, not_an_object, type_missing, unexpected_type, files_missing,
  wrong_type, get_text, get_number, value_of,
}

pub record FileInfoEntry : Type 0 where
  pub relative_path : Text
  pub size : ℕ
  pub mtime_sec : ℤ
  pub mtime_nsec : ℤ

abbrev pub type_file_info_batch : Text
type_file_info_batch = codes "file_info_batch"

abbrev pub type_file_info_diff : Text
type_file_info_diff = codes "file_info_diff"

abbrev pub type_file_info_end : Text
type_file_info_end = codes "file_info_end"

-- The cast of an integer to a signed type of `half + half` values.
abbrev pub wrap_signed : ℕ → ℤ → ℤ
wrap_signed half (pos n) =
    if ltb (n % (half + half)) half
    then pos (n % (half + half))
    else negsuc (half + half - 1 - n % (half + half))
wrap_signed half (negsuc n) =
    if ltb (n % (half + half)) half
    then negsuc (n % (half + half))
    else pos (half + half - 1 - n % (half + half))

-- The keys of an object are in order, whatever the order in which they were set.
abbrev pub entry_object : FileInfoEntry → Json
entry_object entry = object (
    field (codes "mtime_nsec") (number entry.mtime_nsec) (
      field (codes "mtime_sec") (number entry.mtime_sec) (
        field (codes "path") (text entry.relative_path)
          (field (codes "size") (number (pos entry.size)) no_field))))

abbrev pub entry_items : List FileInfoEntry → Items
entry_items [] = no_item
entry_items (entry ∷ files) = item (entry_object entry) (entry_items files)

-- An entry of an item of the `files` array.
unfoldable pub read_entry : Json → Result MessageError FileInfoEntry
read_entry (object fields) = do
  relative_path ← value_of (find (codes "path") fields) [] get_text
  size ← value_of (find (codes "size") fields) (pos 0) get_number
  mtime_sec ← value_of (find (codes "mtime_sec") fields) (pos 0) get_number
  mtime_nsec ← value_of (find (codes "mtime_nsec") fields) (pos 0) get_number
  ok (record {
    relative_path = relative_path;
    size = to_u64 size;
    mtime_sec = wrap_signed (2 ^ 63) mtime_sec;
    mtime_nsec = wrap_signed (2 ^ 31) mtime_nsec;
  })
read_entry _ = err wrong_type

-- Entries without a path are left out.
abbrev pub keep_entry : FileInfoEntry → List FileInfoEntry → List FileInfoEntry
keep_entry entry entries = if is_empty entry.relative_path then entries else entry ∷ entries

unfoldable pub read_entries : Items → Result MessageError (List FileInfoEntry)
read_entries no_item = ok []
read_entries (item json rest) =
    let later = read_entries rest in
    read_entry json >>= λ entry. later >>= λ entries. ok (keep_entry entry entries)

abbrev pub object_fields : Option Json → Result MessageError Fields
object_fields none = err bad_json
object_fields (some (object fields)) = ok fields
object_fields (some _) = err not_an_object

abbrev pub type_field : Option Json → Result MessageError Text
type_field (some (text t)) = ok t
type_field _ = err type_missing

abbrev pub files_field : Option Json → Result MessageError Items
files_field (some (array items)) = ok items
files_field _ = err files_missing

abbrev pub dumped : Option Text → Result MessageError Text
dumped none = err dump_failed
dumped (some json_text) = ok json_text

abbrev pub batch_object : Text → List FileInfoEntry → Json
batch_object msg_type files = object (
    field (codes "files") (array (entry_items files))
      (field (codes "type") (text msg_type) no_field))

module _ (codec : Codec) where
  unfoldable pub serialize_file_info_batch : Text → List FileInfoEntry → Result MessageError Text
  serialize_file_info_batch msg_type files = dumped (codec.dump (batch_object msg_type files))

  unfoldable pub serialize_file_info_end : Result MessageError Text
  serialize_file_info_end =
      dumped (codec.dump (object (field (codes "type") (text type_file_info_end) no_field)))

  unfoldable pub control_message_type : Text → Result MessageError Text
  control_message_type json_text =
      object_fields (codec.parse json_text) >>= λ fields. type_field (find (codes "type") fields)

  -- Only a batch or a diff has a list of files.
  abbrev pub check_type : Text → Result MessageError (Unit {0})
  check_type msg_type =
      if not (text_eq msg_type type_file_info_batch) && not (text_eq msg_type type_file_info_diff)
      then err unexpected_type
      else ok tt

  unfoldable pub deserialize_file_info_batch : Text → Result MessageError (List FileInfoEntry)
  deserialize_file_info_batch json_text = do
    fields ← object_fields (codec.parse json_text)
    msg_type ← type_field (find (codes "type") fields)
    checked ← check_type msg_type
    items ← files_field (find (codes "files") fields)
    read_entries items
