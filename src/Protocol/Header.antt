-- ===== src/Protocol/Header.antt =====
-- `TransportFrameHeader` (src/detail2/protocol.hpp and protocol.cpp): the eight bytes in front of
-- each websocket message. A byte is a number below 256. The shifted bytes that the source joins
-- by `|` occupy disjoint bits, and are added here.
pub mod RoundTrip
use sora_transport.Prelude.{
  ℕ, ◌+◌, ◌*◌, ◌/◌, ◌%◌, ◌^◌, ◌<◌, ◌||◌, List, [], ◌∷◌, ◌++◌, ◌!=◌, if◌then◌else◌, get_or,
}
use sora_transport.Prelude.Result.{Result, ok, err}

abbrev pub magic_0 : ℕ
magic_0 = b'S'

abbrev pub magic_1 : ℕ
magic_1 = b'T'

abbrev pub version_1 : ℕ
version_1 = 1

abbrev pub serialized_size : ℕ
serialized_size = 8

pub data Channel : Type 0 where
  data_channel control_channel : Channel

abbrev pub channel_byte : Channel → ℕ
channel_byte data_channel = 0
channel_byte control_channel = 1

pub record Header : Type 0 where
  pub magic0 : ℕ
  pub magic1 : ℕ
  pub version : ℕ
  pub channel : ℕ
  pub payload_size : ℕ

-- The exceptions thrown on the frame path.
pub data FrameError : Type 0 where
  invalid_magic unsupported_version frame_too_small payload_size_mismatch : FrameError
  control_message_too_large : FrameError

abbrev pub IsByte : ℕ → Type 0
IsByte b = b < 256

-- `static_cast<uint32_t>(payload_bytes)` keeps the low 32 bits.
unfoldable pub make : Channel → ℕ → Header
make ch payload_bytes = record {
  magic0 = magic_0;
  magic1 = magic_1;
  version = version_1;
  channel = channel_byte ch;
  payload_size = payload_bytes % 2 ^ 32;
}

-- The four bytes of a `uint32_t`, big-endian.
abbrev pub be32 : ℕ → List ℕ
be32 n = n / 2 ^ 24 % 256 ∷ n / 2 ^ 16 % 256 ∷ n / 2 ^ 8 % 256 ∷ n % 256 ∷ []

abbrev pub from_be32 : ℕ → ℕ → ℕ → ℕ → ℕ
from_be32 a b c d = a * 2 ^ 24 + b * 2 ^ 16 + c * 2 ^ 8 + d

unfoldable pub serialize : Header → List ℕ
serialize h = h.magic0 ∷ h.magic1 ∷ h.version ∷ h.channel ∷ be32 h.payload_size

-- The argument has static extent 8, so no index is out of range.
unfoldable pub deserialize : List ℕ → Result FrameError Header
deserialize bytes =
    if get_or bytes 0 0 != magic_0 || get_or bytes 1 0 != magic_1
    then err invalid_magic
    else if get_or bytes 2 0 != version_1
    then err unsupported_version
    else ok (record {
      magic0 = get_or bytes 0 0;
      magic1 = get_or bytes 1 0;
      version = get_or bytes 2 0;
      channel = get_or bytes 3 0;
      payload_size =
          from_be32 (get_or bytes 4 0) (get_or bytes 5 0) (get_or bytes 6 0) (get_or bytes 7 0);
    })

unfoldable pub write_header : List ℕ → Channel → ℕ → List ℕ
unfolding serialize make
write_header buffer ch payload_bytes = buffer ++ serialize (make ch payload_bytes)
