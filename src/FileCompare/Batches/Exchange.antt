-- ===== src/FileCompare/Batches/Exchange.antt =====
-- The two sides of a comparison together.
use sora_transport.Prelude.{◌≡◌, Option, none, some, List}
use sora_transport.Prelude.Result.{Result, ok, err}
use sora_transport.Prelude.Text.{Text}
use sora_transport.FileCompare.Json.{Codec, MessageError, bad_json}
use sora_transport.FileCompare.Message.{FileInfoEntry, type_file_info_batch, type_file_info_diff}
use sora_transport.FileCompare.Message.RoundTrip.{Message}
use sora_transport.FileCompare.Local.{LocalFile}
use sora_transport.FileCompare.Batches.{
  compare_file_info_batch, handle_file_comparison_control_message,
}

abbrev pub sent : Result MessageError (Option Text) → Result MessageError Text
sent (err e) = err e
sent (ok none) = err bad_json
sent (ok (some t)) = ok t

module _ (codec : Codec) (files : Text → LocalFile) (infos : List FileInfoEntry)
    (b : Message codec type_file_info_batch infos) (diffs : List FileInfoEntry)
    (compared : compare_file_info_batch files infos ≡ ok diffs)
    (d : Message codec type_file_info_diff diffs) where
  abbrev exchange : Text → Result MessageError Text
  exchange m = sent (handle_file_comparison_control_message codec files m)
