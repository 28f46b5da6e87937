-- ===== src/Protocol/Frame/RoundTrip.antt =====
-- Frames survive the wire, and what is accepted from the wire is a well-formed frame.
use sora_transport.Prelude.{ℕ, ◌^◌, ◌≤◌, ◌<◌, ◌≡◌, List, ◌∷◌, ◌++◌, length, All, arith}
use sora_transport.Prelude.Result.{ok, err}
use sora_transport.Protocol.Header.{
  Channel, Header, payload_size_mismatch, IsByte, make, serialize, deserialize, write_header,
}
use sora_transport.Protocol.Header.RoundTrip.{IsHeader}
use sora_transport.Protocol.Frame.{frame, check_size, parse_frame}

-- The peer gets back the channel and the payload of every frame below 4 GiB.
pub parse_frame-frame :
    (ch : Channel) (payload : List ℕ)
    → length payload < 2 ^ 32
    → parse_frame (frame ch payload) ≡ ok (make ch (length payload), payload)
unfolding parse_frame frame write_header make serialize deserialize check_size
parse_frame-frame ch payload h = ground arith

-- The header keeps 32 bits of the length, so a larger frame is refused by the receiver.
pub parse_frame-frame_oversize :
    (ch : Channel) (payload : List ℕ)
    → 2 ^ 32 ≤ length payload
    → parse_frame (frame ch payload) ≡ err payload_size_mismatch
unfolding parse_frame frame write_header make serialize deserialize check_size
parse_frame-frame_oversize ch payload h = ground arith

-- Whatever message of bytes is accepted is a valid header and the payload that it announces.
pub parse_frame_sound :
    (raw payload : List ℕ) (h : Header)
    → All IsByte raw
    → parse_frame raw ≡ ok (h, payload)
    → (serialize h ++ payload ≡ raw) × (length payload ≡ h.payload_size) × IsHeader h
unfolding parse_frame check_size serialize deserialize
parse_frame_sound (a ∷ b ∷ c ∷ d ∷ e ∷ f ∷ g ∷ i ∷ rest) payload h v r =
    (ground arith, ground arith, ground arith)
parse_frame_sound _ payload h v r = ground arith
