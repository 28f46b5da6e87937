-- ===== src/FileCompare/Examples.antt =====
-- Runs of the theorems on file comparison at concrete inputs.
use sora_transport.Prelude.{ℕ, ◌≡◌, refl, inl, Bool, true, false, none, List, [], ◌∷◌, All, arith}
use sora_transport.Prelude.Int.{pos, negsuc}
use sora_transport.Prelude.Result.{Result}
use sora_transport.Prelude.Text.{Text, codes}
use sora_transport.FileCompare.Json.{MessageError}
use sora_transport.FileCompare.Message.{FileInfoEntry, type_file_info_batch}
use sora_transport.FileCompare.Message.RoundTrip.{
  IsEntry, Message, deserialize_file_info_batch-serialize,
}
use sora_transport.FileCompare.Json.Values.{is_utf8}
use sora_transport.FileCompare.Local.{populate_file_meta, populate_file_status, LocalFile}
use sora_transport.FileCompare.Batches.{
  Popped, gave, file_info_for_entry, TraversalEntry, PoppedBatch, gave_batch, empty_batch,
  handle_file_comparison_control_message, produce_comparison_batches, add_to_batch,
  send_batches_and_forward_diffs,
}
use sora_transport.FileCompare.Batches.Sound.{
  IsBatch, batched, popped, produce_comparison_batches-IsBatch, produce_comparison_batches_complete,
}
use sora_transport.FileCompare.Batches.Exchange.{sent}
use sora_transport.FileCompare.Batches.Numbered.{Numbered, send_batches_and_forward_diffs-Numbered}
use sora_transport.FileCompare.StackCodec.{stack_codec, stack_codec-ReadsBack}

abbrev one_file : List FileInfoEntry
one_file =
    record { relative_path = codes "a/b"; size = 12; mtime_sec = negsuc 4; mtime_nsec = pos 500 }
    ∷ []

one_file-IsEntry : All IsEntry one_file
unfolding is_utf8
one_file-IsEntry = (
  record {
    has_path = omega arith;
    path_utf8 = refl;
    size_u64 = omega arith;
    sec_i64 = omega arith;
    nsec_i32 = omega arith;
  },
  tt,
)

-- No file is there.
abbrev nothing : Text → LocalFile
nothing path = record {
  exists = false;
  regular = false;
  status_throws = false;
  status_regular = false;
  file_size = none;
  handle = none;
}

deserialize_file_info_batch-serialize_example : Message stack_codec type_file_info_batch one_file
deserialize_file_info_batch-serialize_example =
    deserialize_file_info_batch-serialize stack_codec type_file_info_batch one_file
      stack_codec-ReadsBack (inl refl) one_file-IsEntry

abbrev entry : Bool → TraversalEntry
entry regular = record {
  relative_path_in_tar = codes "a/b";
  meta = record { size = 12; last_write_time = none };
  sequence = 0;
  regular_file = regular;
}

abbrev two_entries : List Popped
two_entries = gave false (entry true) ∷ gave false (entry false) ∷ []

-- A queue that takes every batch.
abbrev open_queue : ℕ → Bool
open_queue k = false

produce_comparison_batches-IsBatch_example :
    All
      (IsBatch nothing)
      (produce_comparison_batches nothing open_queue two_entries empty_batch 0).0
produce_comparison_batches-IsBatch_example =
    produce_comparison_batches-IsBatch nothing open_queue two_entries

produce_comparison_batches_complete_example :
    batched nothing (produce_comparison_batches nothing open_queue two_entries empty_batch 0).0
    ≡ popped nothing two_entries
unfolding produce_comparison_batches add_to_batch file_info_for_entry populate_file_meta
    populate_file_status
produce_comparison_batches_complete_example =
    produce_comparison_batches_complete nothing open_queue two_entries refl

abbrev two_batches : List PoppedBatch
two_batches =
    gave_batch false (record { file_infos = one_file; entries = entry true ∷ entry false ∷ [] })
    ∷ gave_batch false (record { file_infos = []; entries = entry false ∷ [] })
    ∷ []

-- The receiver of no files asks for every file.
abbrev receiver : Text → Result MessageError Text
receiver message = sent (handle_file_comparison_control_message stack_codec nothing message)

send_batches_and_forward_diffs-Numbered_example :
    Numbered 7 (send_batches_and_forward_diffs stack_codec receiver open_queue two_batches 7).0
send_batches_and_forward_diffs-Numbered_example =
    send_batches_and_forward_diffs-Numbered stack_codec receiver open_queue two_batches 7
