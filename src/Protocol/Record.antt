-- ===== src/Protocol/Record.antt =====
-- Control records: several JSON messages in one control frame, each behind its length
-- (`append_control_message_record` and `decode_control_messages` of src/detail/io.cpp).
pub mod RoundTrip
use sora_transport.Prelude.{
  ℕ, zero, suc, ◌-◌, ◌^◌, List, [], ◌∷◌, ◌++◌, ◌||◌, ltb, ◌==◌, if◌then◌else◌, length, take, drop,
}
use sora_transport.Prelude.Result.{Result, ok, err}
use sora_transport.Protocol.Header.{FrameError, control_message_too_large, be32, from_be32}

unfoldable pub append_record : List ℕ → List ℕ → Result FrameError (List ℕ)
append_record out json =
    if ltb (2 ^ 32 - 1) (length json)
    then err control_message_too_large
    else ok (out ++ be32 (length json) ++ json)

-- The loop of `decode_control_messages`. `rest` is the payload from `offset` on; `messages` is what
-- has been decoded. Where the records do not fit, the whole payload is the one message. Each round
-- takes four bytes at least, so fuel of the payload's length is enough: it is never run out of.
pub decode_loop : ℕ → List ℕ → List ℕ → List (List ℕ) → List (List ℕ)
decode_loop fuel payload [] messages = messages
decode_loop zero payload (a ∷ rest) messages = payload ∷ []
decode_loop (suc fuel) payload (a ∷ b ∷ c ∷ d ∷ rest) messages =
    let size = from_be32 a b c d in
    let next = decode_loop fuel payload (drop size rest) (messages ++ (take size rest ∷ [])) in
    if size == 0 || ltb (length rest) size then payload ∷ [] else next
decode_loop (suc fuel) payload (a ∷ rest) messages = payload ∷ []

unfoldable pub decode : List ℕ → List (List ℕ)
unfolding decode_loop
decode payload = decode_loop (length payload) payload payload []
