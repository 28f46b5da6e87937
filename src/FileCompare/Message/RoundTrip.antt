-- ===== src/FileCompare/Message/RoundTrip.antt =====
-- A list of files survives the way through a control message.
use sora_transport.Prelude.{
  ℕ, ◌%◌, ◌^◌, ◌<◌, ◌≡◌, ◌⊎◌, inl, inr, refl, true, ltb, ap, some, List, [], ◌∷◌, All, arith,
  length,
}
use sora_transport.Prelude.Int.{ℤ, pos, negsuc}
use sora_transport.Prelude.Result.{ok}
use sora_transport.Prelude.Text.{Text}
use sora_transport.FileCompare.Json.{Json, Codec, number}
use sora_transport.FileCompare.Json.Values.{is_utf8, is_value, are_values, are_fields}
use sora_transport.FileCompare.Message.{
  batch_object, dumped, FileInfoEntry, wrap_signed, entry_object, entry_items, read_entry,
  read_entries, keep_entry, check_type, type_file_info_batch, type_file_info_diff,
  serialize_file_info_batch, deserialize_file_info_batch, control_message_type,
}

-- An integer of a signed type of `half + half` values.
abbrev pub IsSigned : ℕ → ℤ → Type 0
IsSigned half (pos n) = n < half
IsSigned half (negsuc n) = n < half

-- What the types of the struct hold, and a path, which is UTF-8.
pub record IsEntry (e : FileInfoEntry) : Type 0 where
  pub has_path : 0 < length e.relative_path
  pub path_utf8 : is_utf8 e.relative_path ≡ true
  pub size_u64 : e.size < 2 ^ 64
  pub sec_i64 : IsSigned (2 ^ 63) e.mtime_sec
  pub nsec_i32 : IsSigned (2 ^ 31) e.mtime_nsec

wrap_signed_i64 : (z : ℤ) → IsSigned (2 ^ 63) z → wrap_signed (2 ^ 63) z ≡ z
wrap_signed_i64 (pos n) h = ground arith
wrap_signed_i64 (negsuc n) h = ground arith

wrap_signed_i32 : (z : ℤ) → IsSigned (2 ^ 31) z → wrap_signed (2 ^ 31) z ≡ z
wrap_signed_i32 (pos n) h = ground arith
wrap_signed_i32 (negsuc n) h = ground arith

read_entry-entry_object : (e : FileInfoEntry) → IsEntry e → read_entry (entry_object e) ≡ ok e
unfolding read_entry
read_entry-entry_object e v =
    let size_same : e.size % 2 ^ 64 ≡ e.size = omega (arith, v.size_u64) in
    rw size_same (
      rw (wrap_signed_i64 e.mtime_sec v.sec_i64)
        (rw (wrap_signed_i32 e.mtime_nsec v.nsec_i32) refl))

keep :
    (e : FileInfoEntry) (es : List FileInfoEntry)
    → 0 < length e.relative_path
    → keep_entry e es ≡ e ∷ es
keep e es h = ground arith

read_entries-entry_items :
    (es : List FileInfoEntry) → All IsEntry es → read_entries (entry_items es) ≡ ok es
unfolding read_entries
read_entries-entry_items [] v = refl
read_entries-entry_items (e ∷ es) v =
    rw (read_entry-entry_object e v.0)
      (rw (read_entries-entry_items es v.1) (ap ok (keep e es v.0.has_path)))

-- A library that prints every value it can hold, and reads back what it printed.
abbrev pub ReadsBack : Codec → Type 0
ReadsBack codec =
    (j : Json)
    → is_value j ≡ true
    → (json_text : Text) × (codec.dump j ≡ some json_text) × (codec.parse json_text ≡ some j)

fits_i64 : (z : ℤ) → IsSigned (2 ^ 63) z → is_value (number z) ≡ true
unfolding is_value
fits_i64 (pos n) h = ground arith
fits_i64 (negsuc n) h = ground arith

i32_i64 : (z : ℤ) → IsSigned (2 ^ 31) z → IsSigned (2 ^ 63) z
i32_i64 (pos n) h = omega arith
i32_i64 (negsuc n) h = omega arith

entry_object_value : (e : FileInfoEntry) → IsEntry e → is_value (entry_object e) ≡ true
unfolding is_value are_fields is_utf8
entry_object_value e v =
    rw
      (
        fits_i64 e.mtime_nsec (i32_i64 e.mtime_nsec v.nsec_i32),
        fits_i64 e.mtime_sec v.sec_i64,
        v.path_utf8,
        size,
      )
      refl
  where
    size : ltb e.size (2 ^ 64) ≡ true
    size = ground (arith, v.size_u64)

entry_items_values : (es : List FileInfoEntry) → All IsEntry es → are_values (entry_items es) ≡ true
unfolding are_values
entry_items_values [] v = refl
entry_items_values (e ∷ es) v = rw (entry_object_value e v.0, entry_items_values es v.1) refl

batch_object_value :
    (msg_type : Text) (files : List FileInfoEntry)
    → is_utf8 msg_type ≡ true
    → All IsEntry files
    → is_value (batch_object msg_type files) ≡ true
unfolding is_value are_fields is_utf8
batch_object_value msg_type files u v = rw (entry_items_values files v, u) refl

-- A message of some type with some files, and what is read from it.
pub record Message (codec : Codec) (msg_type : Text) (files : List FileInfoEntry) : Type 0 where
  pub json_text : Text
  pub written : serialize_file_info_batch codec msg_type files ≡ ok json_text
  pub files_read : deserialize_file_info_batch codec json_text ≡ ok files
  pub type_read : control_message_type codec json_text ≡ ok msg_type

module _ (codec : Codec) (reads : ReadsBack codec) where
  read_back :
      (msg_type : Text) (files : List FileInfoEntry)
      → check_type codec msg_type ≡ ok tt
      → is_utf8 msg_type ≡ true
      → All IsEntry files
      → Message codec msg_type files
  unfolding deserialize_file_info_batch serialize_file_info_batch control_message_type
  read_back msg_type files check u v =
      let (json_text, printed, same) =
        reads (batch_object msg_type files) (batch_object_value msg_type files u v) in
      record {
        json_text = json_text;
        written = ap dumped printed;
        files_read = rw (same, check) (read_entries-entry_items files v);
        type_read = rw same refl;
      }

-- With a library that prints every value it can hold and reads back what it printed, a list of files
-- is serialized as a batch or as a diff without an error and read back exactly, if each has a path
-- of UTF-8 and its numbers fit the types of the struct. The type of the message is read back too.
pub deserialize_file_info_batch-serialize :
    (codec : Codec) (msg_type : Text) (files : List FileInfoEntry)
    → ReadsBack codec
    → (msg_type ≡ type_file_info_batch) ⊎ (msg_type ≡ type_file_info_diff)
    → All IsEntry files
    → Message codec msg_type files
unfolding is_utf8
deserialize_file_info_batch-serialize codec msg_type files reads t v = elim t [
  | inl e ↦ read_back codec reads msg_type files (rw e refl) (rw e refl) v
  | inr e ↦ read_back codec reads msg_type files (rw e refl) (rw e refl) v
]
