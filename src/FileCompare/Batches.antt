-- ===== src/FileCompare/Batches.antt =====
-- The batches that the sender offers, what the receiver answers, and what is forwarded
-- (src/detail2/file_compare_stream.cpp).

pub mod Sound
pub mod Exchange
pub mod Numbered
use sora_transport.Prelude.{
  ℕ, zero, suc, ◌+◌, ◌||◌, Bool, true, false, not, Option, none, some, List, [], ◌∷◌, ◌++◌, length,
  leb, is_empty, if◌then◌else◌,
}
use sora_transport.Prelude.Int.{ℤ, pos}
use sora_transport.Prelude.Result.{Result, ok, err, ◌>>=◌}
use sora_transport.Prelude.Text.{Text, text_eq}
use sora_transport.Timestamp.{FileTimestamp}
use sora_transport.FileCompare.Json.{
  Codec, MessageError, compare_cancelled, queue_failed, unexpected_type,
}
use sora_transport.FileCompare.Message.{
  FileInfoEntry, type_file_info_batch, type_file_info_diff, type_file_info_end,
  serialize_file_info_batch, serialize_file_info_end, control_message_type,
  deserialize_file_info_batch,
}
use sora_transport.FileCompare.Local.{
  LocalFile, FileMeta, populate_file_meta, file_differs_from_local,
}

pub record TraversalEntry : Type 0 where
  pub relative_path_in_tar : Text
  pub meta : FileMeta
  pub sequence : ℕ
  pub regular_file : Bool

pub record PendingTraversalBatch : Type 0 where
  pub file_infos : List FileInfoEntry
  pub entries : List TraversalEntry

abbrev pub empty_batch : PendingTraversalBatch
empty_batch = record { file_infos = []; entries = [] }

abbrev pub file_info_batch_size : ℕ
file_info_batch_size = 256

abbrev pub traversal_batch_size : ℕ
traversal_batch_size = 512

abbrev pub seconds_of : Option FileTimestamp → ℤ
seconds_of none = pos 0
seconds_of (some t) = t.seconds

abbrev pub nanoseconds_of : Option FileTimestamp → ℤ
nanoseconds_of none = pos 0
nanoseconds_of (some t) = t.nanoseconds

-- The metadata, read from `file` if there is no time yet.
abbrev pub known_meta : LocalFile → Option FileTimestamp → FileMeta → Result MessageError FileMeta
known_meta file none meta = populate_file_meta file meta
known_meta file (some t) meta = ok meta

abbrev pub entry_info : TraversalEntry → FileMeta → TraversalEntry × FileInfoEntry
entry_info entry meta = (
  record entry { meta = meta },
  record {
    relative_path = entry.relative_path_in_tar;
    size = meta.size;
    mtime_sec = seconds_of meta.last_write_time;
    mtime_nsec = nanoseconds_of meta.last_write_time;
  },
)

-- The entry, whose metadata this may fill in, and its info. `file` is what the sender's system
-- answers for the entry.
unfoldable pub file_info_for_entry :
    LocalFile → TraversalEntry → Result MessageError (TraversalEntry × FileInfoEntry)
file_info_for_entry file entry =
    known_meta file entry.meta.last_write_time entry.meta >>= λ meta. ok (entry_info entry meta)

-- What a pop of the traversal queue gives: an exception, or an entry and what the cancel event says
-- after it.
pub data Popped : Type 0 where
  pop_threw : Popped
  gave : Bool → TraversalEntry → Popped

module _ (sender_files : Text → LocalFile) where
  unfoldable pub add_to_batch :
      TraversalEntry → PendingTraversalBatch → Result MessageError PendingTraversalBatch
  add_to_batch entry batch =
      if entry.regular_file
      then (file_info_for_entry (sender_files entry.relative_path_in_tar) entry >>= λ r.
          ok (record {
            file_infos = batch.file_infos ++ (r.1 ∷ []);
            entries = batch.entries ++ (r.0 ∷ []);
          }))
      else ok (record batch { entries = batch.entries ++ (entry ∷ []) })

  abbrev pub is_full : PendingTraversalBatch → Bool
  is_full batch =
      leb file_info_batch_size (length batch.file_infos)
      || leb traversal_batch_size (length batch.entries)

  -- `push_throws` says of each push to the queue of batches, by its number, whether it throws.
  module _ (push_throws : ℕ → Bool) where
    abbrev pub push_batch :
        ℕ
        → PendingTraversalBatch
        → List PendingTraversalBatch × Result MessageError (Unit {0})
        → List PendingTraversalBatch × Result MessageError (Unit {0})
    push_batch k batch (batches, end) =
        if push_throws k then ([], err queue_failed) else (batch ∷ batches, end)

    -- A round after the entry was added; `more` are the rounds after it.
    abbrev pub batch_added :
        (PendingTraversalBatch → ℕ → List PendingTraversalBatch × Result MessageError (Unit {0}))
        → ℕ
        → Result MessageError PendingTraversalBatch
        → List PendingTraversalBatch × Result MessageError (Unit {0})
    batch_added more k (err e) = ([], err e)
    batch_added more k (ok next) =
        if is_full next then push_batch k next (more empty_batch (k + 1)) else more next k

    -- The batches pushed, and how the loop ends; `k` counts the pushes. The end of the list is that
    -- of the traversal queue.
    unfoldable pub produce_comparison_batches :
        List Popped
        → PendingTraversalBatch
        → ℕ
        → List PendingTraversalBatch × Result MessageError (Unit {0})
    produce_comparison_batches [] batch k =
        if is_empty batch.entries then ([], ok tt) else push_batch k batch ([], ok tt)
    produce_comparison_batches (pop_threw ∷ rest) batch k = ([], err queue_failed)
    produce_comparison_batches (gave cancelled entry ∷ rest) batch k =
        if cancelled
        then ([], err compare_cancelled)
        else batch_added (produce_comparison_batches rest) k (add_to_batch entry batch)

-- The files that differ. The tasks that compare only read, so the groups of 64 in which they run
-- do not matter; the first exception of a task, in the order of the files, is thrown.
unfoldable pub compare_file_info_batch :
    (Text → LocalFile) → List FileInfoEntry → Result MessageError (List FileInfoEntry)
compare_file_info_batch files [] = ok []
compare_file_info_batch files (info ∷ infos) =
    let later = compare_file_info_batch files infos in
    file_differs_from_local (files info.relative_path) info >>= λ differs.
    later >>= λ diffs. ok (if differs then info ∷ diffs else diffs)

module _ (codec : Codec) (receiver_files : Text → LocalFile) where
  -- The answer that the receiver sends, none for the end of the stream.
  unfoldable pub handle_file_comparison_control_message : Text → Result MessageError (Option Text)
  handle_file_comparison_control_message control_json =
      control_message_type codec control_json >>= λ message_type.
      if text_eq message_type type_file_info_end
      then ok none
      else if not (text_eq message_type type_file_info_batch)
      then err unexpected_type
      else (deserialize_file_info_batch codec control_json >>= λ file_infos.
          compare_file_info_batch receiver_files file_infos >>= λ diff_files.
          serialize_file_info_batch codec type_file_info_diff diff_files >>= λ diff_json.
          ok (some diff_json))

-- What a pop of the queue of batches gives.
pub data PoppedBatch : Type 0 where
  batch_pop_threw : PoppedBatch
  gave_batch : Bool → PendingTraversalBatch → PoppedBatch

abbrev pub contains_path : List FileInfoEntry → Text → Bool
contains_path [] path = false
contains_path (info ∷ infos) path = text_eq info.relative_path path || contains_path infos path

-- `push_throws` says of each push to the queue of forwarded entries whether it throws. Their
-- sequence numbers count these pushes.
module _ (push_throws : ℕ → Bool) where
  abbrev pub forward_entry :
      TraversalEntry
      → ℕ
      → List TraversalEntry × Result MessageError ℕ
      → List TraversalEntry × Result MessageError ℕ
  forward_entry entry next (entries, end) =
      if push_throws next
      then ([], err queue_failed)
      else (record entry { sequence = next } ∷ entries, end)

  -- The entries of a batch that are forwarded, with the sequence numbers from `next` on, and the
  -- number that comes next, or an exception.
  unfoldable pub forward_entries :
      List FileInfoEntry → ℕ → List TraversalEntry → List TraversalEntry × Result MessageError ℕ
  forward_entries diffs next [] = ([], ok next)
  forward_entries diffs next (entry ∷ entries) =
      let taken = forward_entries diffs (next + 1) entries in
      let left = forward_entries diffs next entries in
      if not entry.regular_file || contains_path diffs entry.relative_path_in_tar
      then forward_entry entry next taken
      else left

module _ (codec : Codec) (exchange : Text → Result MessageError Text) where
  abbrev pub read_diff : Text → Result MessageError (List FileInfoEntry)
  read_diff response = control_message_type codec response >>= λ response_type.
      if not (text_eq response_type type_file_info_diff)
      then err unexpected_type
      else deserialize_file_info_batch codec response

  -- The files of a batch that the receiver asks for; a batch without files is not offered.
  -- `exchange` sends a control message and awaits the response.
  unfoldable pub ask : List FileInfoEntry → Result MessageError (List FileInfoEntry)
  ask infos =
      if is_empty infos
      then ok []
      else (serialize_file_info_batch codec type_file_info_batch infos >>= λ batch_json.
          exchange batch_json >>= read_diff)

  abbrev pub forwarded :
      (ℕ → List TraversalEntry × Result MessageError Text)
      → List TraversalEntry × Result MessageError ℕ
      → List TraversalEntry × Result MessageError Text
  forwarded more (entries, err e) = (entries, err e)
  forwarded more (entries, ok next) = let rest = more next in (entries ++ rest.0, rest.1)

  module _ (push_throws : ℕ → Bool) where
    abbrev pub forward_batch :
        (ℕ → List TraversalEntry × Result MessageError Text)
        → List TraversalEntry
        → ℕ
        → Result MessageError (List FileInfoEntry)
        → List TraversalEntry × Result MessageError Text
    forward_batch more entries next (err e) = ([], err e)
    forward_batch more entries next (ok diffs) =
        forwarded more (forward_entries push_throws diffs next entries)

    -- The entries forwarded, and how the loop ends: with the last message to send, or an error.
    -- Closing the queues is left out.
    unfoldable pub send_batches_and_forward_diffs :
        List PoppedBatch → ℕ → List TraversalEntry × Result MessageError Text
    send_batches_and_forward_diffs [] next = ([], serialize_file_info_end codec)
    send_batches_and_forward_diffs (batch_pop_threw ∷ batches) next = ([], err queue_failed)
    send_batches_and_forward_diffs (gave_batch cancelled batch ∷ batches) next =
        if cancelled
        then ([], err compare_cancelled)
        else forward_batch (send_batches_and_forward_diffs batches) batch.entries next
            (ask batch.file_infos)
