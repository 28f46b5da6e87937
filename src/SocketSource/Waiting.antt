-- ===== src/SocketSource/Waiting.antt =====
-- Waiting for control messages through a `SocketByteSource`.
use sora_transport.Prelude.{
  ℕ, zero, suc, ◌+◌, ◌≤◌, ◌<◌, ◌≡◌, refl, sym, ap, ◌∙◌, subst, true, false, Option, some, none,
  List, [], ◌∷◌, ◌++◌, length, arith, inl, inr, ◌⊎◌, ◌==◌,
}
use sora_transport.Prelude.Result.{ok}
use sora_transport.Prelude.Run.{Run, Ends, if-Ends}
use sora_transport.Protocol.Header.{Header, channel_byte, control_channel}
use sora_transport.Protocol.Frame.{parse_frame}
use sora_transport.Protocol.Record.{decode}
use sora_transport.SocketSource.{
  Source, ReceiveError, Env, Incoming, message, Kind, plain, end_event, other_event, on_message,
  on_messages, await_message_loop, await_control_message, read_next_frame, received, later,
  next_incoming, on_control_frame, pending_or,
}

-- What the receiver of messages is given: an event but the begin, or an object that is no event.
abbrev pub IsGiven : Kind → Type 0
IsGiven k = (k ≡ plain) ⊎ (k ≡ end_event) ⊎ (k ≡ other_event)

-- Control frames that bring these messages, whatever the websocket gives after them.
pub data Brings : List Incoming → List (List ℕ) → Type 0 where
  nothing_more : {is : List Incoming} → Brings is []
  frame_of :
      {is : List Incoming} {texts : List (List ℕ)} (raw : List ℕ) (header : Header)
      (payload : List ℕ)
      → parse_frame raw ≡ ok (header, payload)
      → (header.channel == channel_byte control_channel) ≡ true
      → Brings is texts
      → Brings (message raw ∷ is) (decode payload ++ texts)

-- The messages to come: those that wait, then those of the next frames.
pub record Awaits (texts : List (List ℕ)) (s : Source) : Type 0 where
  pub brought : List (List ℕ)
  pub brings : Brings s.incoming brought
  pub in_turn : s.pending_control_messages ++ brought ≡ texts

pub record Gave (text : List ℕ) (texts : List (List ℕ)) (q : Source × Option (List ℕ))
    : Type 0 where
  pub gave : q.1 ≡ some text
  pub others : Awaits texts q.0

module _ (env : Env) where
  on_message-Gave :
      (text : List ℕ) (texts : List (List ℕ)) (s : Source) (k : Kind)
      → IsGiven k
      → Awaits texts s
      → Ends (Gave text texts) (λ q. ⊥) (on_message env text s k)
  on_message-Gave text texts s k (inl e) v =
      subst (λ k. Ends (Gave text texts) (λ q. ⊥) (on_message env text s k)) (sym e)
        (record { gave = refl; others = v })
  on_message-Gave text texts s k (inr (inl e)) v =
      subst (λ k. Ends (Gave text texts) (λ q. ⊥) (on_message env text s k)) (sym e)
        (record { gave = refl; others = v })
  on_message-Gave text texts s k (inr (inr e)) v =
      subst (λ k. Ends (Gave text texts) (λ q. ⊥) (on_message env text s k)) (sym e)
        (record { gave = refl; others = v })

  on_messages-Gave :
      (more : Source → Run (Source × Option (List ℕ)) ReceiveError) (s : Source)
      (first brought texts : List (List ℕ)) (text : List ℕ)
      → Brings s.incoming brought
      → s.pending_control_messages ≡ []
      → first ++ brought ≡ text ∷ texts
      → IsGiven (env.kind text)
      → (brought ≡ text ∷ texts → Ends (Gave text texts) (λ q. ⊥) (more s))
      → Ends (Gave text texts) (λ q. ⊥) (on_messages env more s first)
  on_messages-Gave more s [] brought texts text b p e g h = h e
  on_messages-Gave more s (t ∷ ts) brought texts text b p e g h =
      subst (λ u. Ends (Gave u texts) (λ q. ⊥) (on_messages env more s (t ∷ ts))) heads
        (on_message-Gave t texts _ (env.kind t) (subst (λ u. IsGiven (env.kind u)) (sym heads) g)
          (record {
            brought = brought;
            brings = b;
            in_turn = ap (λ w. (w ++ ts) ++ brought) p ∙ tails;
          }))
    where
      heads : t ≡ text
      heads = cc

      tails : ts ++ brought ≡ texts
      tails = cc

  control_frame-Gave :
      (more : Source → Run (Source × Option (List ℕ)) ReceiveError) (s : Source)
      (is : List Incoming) (brought texts : List (List ℕ)) (text : List ℕ)
      → Brings is brought
      → s.pending_control_messages ≡ []
      → brought ≡ text ∷ texts
      → IsGiven (env.kind text)
      → ((t : Source)
          → Awaits (text ∷ texts) t
          → length t.incoming < length is
          → Ends (Gave text texts) (λ q. ⊥) (more t))
      → Ends
          (Gave text texts)
          (λ q. ⊥)
          (received env
            (record s { incoming = later is })
            (next_incoming is)
            (on_control_frame env more)
            none)
  control_frame-Gave more s is _ texts text nothing_more p e g ih = cc
  control_frame-Gave more s _ _ texts text
        (frame_of {is} {texts = brought} raw header payload r c b) p e g ih =
      rw (r, c)
        (on_messages-Gave more (record s { incoming = is }) (decode payload) brought texts text b p
          e g
          (λ rest.
            ih (record s { incoming = is })
              (record { brought = brought; brings = b; in_turn = ap (λ w. w ++ brought) p ∙ rest })
              (omega arith)))

  await_loop-Gave :
      (fuel : ℕ) (s : Source) (text : List ℕ) (texts : List (List ℕ))
      → Awaits (text ∷ texts) s
      → IsGiven (env.kind text)
      → length s.incoming + 1 ≤ fuel
      → Ends (Gave text texts) (λ q. ⊥) (await_message_loop env fuel s)
  unfolding await_message_loop read_next_frame
  await_loop-Gave zero s text texts v g k = absurd (omega arith)
  await_loop-Gave (suc fuel) s text texts v g k =
      waiting s.pending_control_messages refl v.in_turn
        (λ t w l. await_loop-Gave fuel t text texts w g (omega (arith, l, k)))
    where
      otherwise : Run (Source × Option (List ℕ)) ReceiveError
      otherwise = read_next_frame env s (on_control_frame env (await_message_loop env fuel)) none

      waiting :
          (pending : List (List ℕ))
          → s.pending_control_messages ≡ pending
          → pending ++ v.brought ≡ text ∷ texts
          → ((t : Source)
              → Awaits (text ∷ texts) t
              → length t.incoming < length s.incoming
              → Ends (Gave text texts) (λ q. ⊥) (await_message_loop env fuel t))
          → Ends (Gave text texts) (λ q. ⊥) (pending_or env s s.pending_control_messages otherwise)
      waiting [] p e ih =
          subst (λ w. Ends (Gave text texts) (λ q. ⊥) (pending_or env s w otherwise)) (sym p)
            (control_frame-Gave (await_message_loop env fuel) s s.incoming v.brought texts text
              v.brings p e g ih)
      waiting (t ∷ ts) p e ih =
          subst (λ w. Ends (Gave text texts) (λ q. ⊥) (pending_or env s w otherwise)) (sym p)
            (record {
              gave = ap some heads;
              others = record { brought = v.brought; brings = v.brings; in_turn = tails };
            })
        where
          heads : t ≡ text
          heads = cc

          tails : ts ++ v.brought ≡ texts
          tails = cc

-- Where the messages that wait and those of the control frames to come are some message and others,
-- in that order, and the first is an object that is no event, or an event other than the begin,
-- `SocketByteSource::await_control_message` of a source that is not cancelled ends without an error,
-- gives the first message, and leaves exactly the others to come, in order.
pub await_control_message-Gave :
    (env : Env) (s : Source) (text : List ℕ) (texts : List (List ℕ))
    → s.cancel_requested ≡ false
    → Awaits (text ∷ texts) s
    → IsGiven (env.kind text)
    → Ends (Gave text texts) (λ q. ⊥) (await_control_message env s)
unfolding await_control_message
await_control_message-Gave env s text texts n v g =
    if-Ends (Gave text texts) (λ q. ⊥) s.cancel_requested _ _ (λ c. absurd (cc (c, n)))
      (λ c. await_loop-Gave env (length s.incoming + 1) s text texts v g (omega arith))
