-- ===== src/Protocol/Header/RoundTrip.antt =====
-- `serialize_to` and `deserialize_from` undo one another.
use sora_transport.Prelude.{ℕ, ◌^◌, ◌<◌, ◌≡◌, List, [], ◌∷◌, length, All, arith}
use sora_transport.Prelude.Result.{ok}
use sora_transport.Protocol.Header.{
  Header, IsByte, magic_0, magic_1, version_1, serialize, deserialize,
}

-- What `make` builds, and what a received header satisfies.
pub record IsHeader (h : Header) : Type 0 where
  pub magic0_is : h.magic0 ≡ magic_0
  pub magic1_is : h.magic1 ≡ magic_1
  pub version_is : h.version ≡ version_1
  pub channel_byte_is : IsByte h.channel
  pub payload_size_is : h.payload_size < 2 ^ 32

-- A header that `make` can build, with any byte for its channel, is what its eight bytes are read as.
pub deserialize-serialize : (h : Header) → IsHeader h → deserialize (serialize h) ≡ ok h
unfolding serialize deserialize
deserialize-serialize h v = ground arith

-- Eight bytes that are accepted as a header are the bytes of that header, which is a valid one.
pub serialize-deserialize :
    (bytes : List ℕ) (h : Header)
    → length bytes ≡ 8
    → All IsByte bytes
    → deserialize bytes ≡ ok h
    → (serialize h ≡ bytes) × IsHeader h
unfolding serialize deserialize
serialize-deserialize (a ∷ b ∷ c ∷ d ∷ e ∷ f ∷ g ∷ i ∷ []) h n v r = (ground arith, ground arith)
serialize-deserialize _ h n v r = absurd (omega arith)
