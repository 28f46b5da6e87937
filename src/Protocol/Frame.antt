-- ===== src/Protocol/Frame.antt =====
-- Whole frames: what `do_send_data_frame` and `do_send_control_frame` hand to the websocket, and
-- what `read_next_frame` makes of a received message (src/detail/io.cpp).
pub mod RoundTrip
use sora_transport.Prelude.{ℕ, ◌-◌, List, [], ◌++◌, ltb, ◌!=◌, if◌then◌else◌, length, take, drop}
use sora_transport.Prelude.Result.{Result, ok, err, ◌>>=◌}
use sora_transport.Protocol.Header.{
  Channel, Header, FrameError, frame_too_small, payload_size_mismatch, serialized_size, deserialize,
  write_header,
}

unfoldable pub frame : Channel → List ℕ → List ℕ
unfolding write_header
frame ch payload = write_header [] ch (length payload) ++ payload

-- The header must announce exactly the bytes that follow it.
unfoldable pub check_size : List ℕ → Header → Result FrameError (Header × List ℕ)
check_size raw_frame header =
    if length raw_frame - serialized_size != header.payload_size
    then err payload_size_mismatch
    else ok (header, drop serialized_size raw_frame)

unfoldable pub parse_frame : List ℕ → Result FrameError (Header × List ℕ)
unfolding deserialize check_size
parse_frame raw_frame =
    if ltb (length raw_frame) serialized_size
    then err frame_too_small
    else do header ← deserialize (take serialized_size raw_frame); check_size raw_frame header
