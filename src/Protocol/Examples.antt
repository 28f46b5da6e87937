-- ===== src/Protocol/Examples.antt =====
-- Runs of the theorems on frames and records at concrete inputs.
use sora_transport.Prelude.{ℕ, ◌≡◌, refl, List, [], ◌∷◌, ◌++◌, length, arith}
use sora_transport.Prelude.Result.{ok}
use sora_transport.Protocol.Header.{
  Header, control_channel, magic_0, magic_1, version_1, make, serialize, deserialize,
}
use sora_transport.Protocol.Header.RoundTrip.{IsHeader, serialize-deserialize}
use sora_transport.Protocol.Frame.{frame, parse_frame, check_size}
use sora_transport.Protocol.Frame.RoundTrip.{parse_frame-frame, parse_frame_sound}
use sora_transport.Protocol.Record.{decode}
use sora_transport.Protocol.Record.RoundTrip.{
  Decoded, append_records, decode_sound, decode-append_records,
}

abbrev sample : Header
sample = record {
  magic0 = magic_0;
  magic1 = magic_1;
  version = version_1;
  channel = 1;
  payload_size = 300;
}

abbrev sample_bytes : List ℕ
sample_bytes = magic_0 ∷ magic_1 ∷ version_1 ∷ 1 ∷ 0 ∷ 0 ∷ 1 ∷ 44 ∷ []

serialize-deserialize_example : (serialize sample ≡ sample_bytes) × IsHeader sample
unfolding deserialize
serialize-deserialize_example =
    serialize-deserialize sample_bytes sample refl
      (
        omega arith,
        (
          omega arith,
          (
            omega arith,
            (omega arith, (omega arith, (omega arith, (omega arith, (omega arith, tt))))),
          ),
        ),
      )
      refl

parse_frame-frame_example :
    parse_frame (frame control_channel (7 ∷ 8 ∷ []))
    ≡ ok (make control_channel (length {A = ℕ} (7 ∷ 8 ∷ [])), 7 ∷ 8 ∷ [])
parse_frame-frame_example = parse_frame-frame control_channel (7 ∷ 8 ∷ []) (omega arith)

abbrev messages : List (List ℕ)
messages = (b'{' ∷ b'}' ∷ []) ∷ (b'a' ∷ []) ∷ []

decode-append_records_example :
    (out : List ℕ) × (append_records [] messages ≡ ok out) × (decode out ≡ messages)
decode-append_records_example =
    decode-append_records messages ((omega arith, omega arith), ((omega arith, omega arith), tt))

abbrev truncated : List ℕ
truncated = 0 ∷ 0 ∷ 0 ∷ 9 ∷ b'{' ∷ []

decode_sound_example : Decoded truncated (decode truncated)
decode_sound_example =
    decode_sound truncated
      (omega arith, (omega arith, (omega arith, (omega arith, (omega arith, tt)))))

abbrev data_frame : List ℕ
data_frame = magic_0 ∷ magic_1 ∷ version_1 ∷ 1 ∷ 0 ∷ 0 ∷ 0 ∷ 2 ∷ 7 ∷ 8 ∷ []

parse_frame_sound_example :
    (serialize (record sample { payload_size = 2 }) ++ (7 ∷ 8 ∷ []) ≡ data_frame)
    × (length {A = ℕ} (7 ∷ 8 ∷ []) ≡ 2)
    × IsHeader (record sample { payload_size = 2 })
unfolding parse_frame deserialize check_size
parse_frame_sound_example =
    parse_frame_sound data_frame (7 ∷ 8 ∷ []) (record sample { payload_size = 2 })
      (
        omega arith,
        (
          omega arith,
          (
            omega arith,
            (
              omega arith,
              (
                omega arith,
                (omega arith, (omega arith, (omega arith, (omega arith, (omega arith, tt))))),
              ),
            ),
          ),
        ),
      )
      refl
