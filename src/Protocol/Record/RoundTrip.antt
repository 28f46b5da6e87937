-- ===== src/Protocol/Record/RoundTrip.antt =====
-- What `decode_control_messages` makes of records, of raw JSON, and of anything else.
use sora_transport.Prelude.{
  ℕ, zero, suc, ◌*◌, ◌^◌, ◌≤◌, ◌<◌, ◌≡◌, refl, sym, ◌⊎◌, inl, inr, List, [], ◌∷◌, ◌++◌, Bool-cases,
  All-append, ltb, ◌==◌, ◌||◌, length-take, take-append-drop, length, take, drop, All, arith,
  length-append, take-append, drop-append, append_assoc, append-nil,
}
use sora_transport.Prelude.Result.{Result, ok, ◌>>=◌}
use sora_transport.Protocol.Header.{FrameError, IsByte, be32, from_be32}
use sora_transport.Protocol.Record.{append_record, decode_loop, decode}

-- The payload that holds the messages, one record each.
abbrev pub records : List (List ℕ) → List ℕ
records [] = []
records (m ∷ ms) = be32 (length m) ++ m ++ records ms

abbrev pub IsMessage : List ℕ → Type 0
IsMessage m = (0 < length m) × (length m < 2 ^ 32)

decode_loop-records :
    (ms : List (List ℕ)) (fuel : ℕ) (payload : List ℕ) (done : List (List ℕ))
    → All IsMessage ms
    → length (records ms) ≤ fuel
    → decode_loop fuel payload (records ms) done ≡ done ++ ms
unfolding decode_loop
decode_loop-records [] fuel payload done v h = sym (append-nil done)
decode_loop-records (m ∷ ms) zero payload done v h = absurd (omega arith)
decode_loop-records (m ∷ ms) (suc fuel) payload done v h = ground (
  arith,
  take-append m (records ms),
  drop-append m (records ms),
  length-append m (records ms),
  append_assoc done (m ∷ []) ms,
  decode_loop-records ms fuel payload (done ++ (m ∷ [])) v.1,
)

-- A payload of records, each a message of at least one byte below 4 GiB, is decoded to its messages.
pub decode-records : (ms : List (List ℕ)) → All IsMessage ms → decode (records ms) ≡ ms
unfolding decode
decode-records ms v = decode_loop-records ms (length (records ms)) (records ms) [] v (omega arith)

-- A raw JSON object below 1.9 GiB, such as an event frame, is one message.
pub decode_raw_object :
    (rest : List ℕ) → length rest < b'{' * 2 ^ 24 → decode (b'{' ∷ rest) ≡ (b'{' ∷ rest) ∷ []
unfolding decode decode_loop
decode_raw_object [] h = ground arith
decode_raw_object (b ∷ []) h = ground arith
decode_raw_object (b ∷ c ∷ []) h = ground arith
decode_raw_object (b ∷ c ∷ d ∷ rest) h = ground arith

from_be32_bound :
    (a b c d : ℕ) → IsByte a → IsByte b → IsByte c → IsByte d → from_be32 a b c d < 2 ^ 32
from_be32_bound a b c d ha hb hc hd = omega arith

-- What `decode` may answer on `payload`: the messages of its records, or itself as one message.
abbrev pub Decoded : List ℕ → List (List ℕ) → Type 0
Decoded payload ms = (records ms ≡ payload × All IsMessage ms) ⊎ (ms ≡ payload ∷ [])

pub records-append : (ms ns : List (List ℕ)) → records (ms ++ ns) ≡ records ms ++ records ns
records-append [] ns = refl
records-append (m ∷ ms) ns = simp (records-append ms ns, append_assoc)

-- One round: the four bytes and the message behind them are one record.
module _ (a b c d size : ℕ) (rest : List ℕ) (fits : size ≤ length rest) where
  record_round :
      IsByte a
      → IsByte b
      → IsByte c
      → IsByte d
      → size ≡ from_be32 a b c d
      → records (take size rest ∷ []) ++ drop size rest ≡ a ∷ b ∷ c ∷ d ∷ rest
  record_round ha hb hc hd e =
      ground (arith, length-take size rest, take-append-drop size rest, append-nil (take size rest))

All-drop {ℓ κ} : {A : Type ℓ} (P : A → Type κ) (n : ℕ) (xs : List A) → All P xs → All P (drop n xs)
All-drop P zero xs h = h
All-drop P (suc n) [] h = h
All-drop P (suc n) (x ∷ xs) h = All-drop P n xs h.1

decode_loop_sound :
    (fuel : ℕ) (payload rest : List ℕ) (done : List (List ℕ))
    → All IsByte rest
    → All IsMessage done
    → records done ++ rest ≡ payload
    → Decoded payload (decode_loop fuel payload rest done)
unfolding decode_loop
decode_loop_sound fuel payload [] done v w e = inl (ground (arith, append-nil (records done)), w)
decode_loop_sound zero payload (a ∷ rest) done v w e = inr refl
decode_loop_sound (suc fuel) payload (a ∷ []) done v w e = inr refl
decode_loop_sound (suc fuel) payload (a ∷ b ∷ []) done v w e = inr refl
decode_loop_sound (suc fuel) payload (a ∷ b ∷ c ∷ []) done v w e = inr refl
decode_loop_sound (suc fuel) payload (a ∷ b ∷ c ∷ d ∷ rest) done v w e =
    let size : ℕ = from_be32 a b c d in
    elim (Bool-cases (size == 0 || ltb (length rest) size)) [
      | inl bad ↦ rw bad (inr refl)
      | inr good ↦ rw good (
          decode_loop_sound fuel payload (drop size rest) (done ++ (take size rest ∷ []))
            (All-drop IsByte size rest v.1.1.1.1)
            (All-append IsMessage done (take size rest ∷ []) w
              (ground (arith, length-take size rest, from_be32_bound a b c d), tt))
            (rw (records-append done (take size rest ∷ []), append_assoc)
              (rw (record_round a b c d size rest (ground arith) v.0 v.1.0 v.1.1.0 v.1.1.1.0 refl)
                e)))
    ]

-- On any payload of bytes the answer is the messages of its records, which account for every byte,
-- or else the payload itself as the one message.
pub decode_sound : (payload : List ℕ) → All IsByte payload → Decoded payload (decode payload)
unfolding decode
decode_sound payload v = decode_loop_sound (length payload) payload payload [] v tt refl

-- The sender's side: `append_record` over a list of messages, from an empty buffer.
unfoldable pub append_records : List ℕ → List (List ℕ) → Result FrameError (List ℕ)
append_records out [] = ok out
append_records out (m ∷ ms) = do next ← append_record out m; append_records next ms

append_records-records :
    (ms : List (List ℕ)) (out : List ℕ)
    → All IsMessage ms
    → append_records out ms ≡ ok (out ++ records ms)
unfolding append_records append_record
append_records-records [] out v = ground (arith, append-nil out)
append_records-records (m ∷ ms) out v = ground (
  arith,
  append_records-records ms (out ++ be32 (length m) ++ m) v.1,
  append_assoc (out ++ be32 (length m)) m (records ms),
  append_assoc out (be32 (length m)) m,
  append_assoc out (be32 (length m) ++ m) (records ms),
)

-- Any list of non-empty messages below 4 GiB can be appended one after another to an empty buffer,
-- without an error, and the receiver decodes the result to those messages.
pub decode-append_records :
    (ms : List (List ℕ))
    → All IsMessage ms
    → (out : List ℕ) × (append_records [] ms ≡ ok out) × (decode out ≡ ms)
decode-append_records ms v = (records ms, append_records-records ms [] v, decode-records ms v)
