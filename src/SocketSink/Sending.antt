-- ===== src/SocketSink/Sending.antt =====
-- Each statement of the calls of a `SocketByteSink` keeps its bytes in order.
use sora_transport.Prelude.{
  ℕ, ◌+◌, ◌≤◌, ◌<◌, ◌≡◌, refl, sym, ap, ◌∙◌, subst, Bool, List, [], ◌∷◌, ◌++◌, map-append, length,
  arith, inl, inr, append-nil, append_assoc, ◌⊎◌, All, All-append,
}
use sora_transport.Prelude.Run.{Run, Ends, andthen-Ends, Ends-weaken}
use sora_transport.Protocol.Header.{Channel, data_channel, control_channel}
use sora_transport.Protocol.Record.RoundTrip.{records, records-append, IsMessage}
use sora_transport.WriteBuffer.{WriteBuffer, Outcome}
use sora_transport.WriteBuffer as Buffer
use sora_transport.WriteBuffer.Fits.{Step, waiting, through, sent, stuck, write-Step}
use sora_transport.SocketSink.{
  Socket, SocketError, Env, check, do_send_control_frame, flush_data_buffer, flush_control,
  flush_both, with_writer, write_control, control_buffer_capacity,
}
use sora_transport.SocketSink.Flushes.{
  Moved, Same, frames_of, check-Same, do_send_control_frame-Moved, flush_data_buffer-Moved,
  flush_control-Moved, with_writer-Moved,
}
use sora_transport.SocketSink.Calls.{
  tagged, wire_bytes, wire_bytes-frames_of, content-Moved, IsWhole, FrameFits, At, Cut, Cut-longer,
  Moved-At, Same-At, At-Cut,
}

pub nothing-IsWhole : IsWhole []
nothing-IsWhole = record { messages = []; valid = tt; made_of = refl }

module _ (env : Env) (capacity : ℕ) (x : List (Channel × ℕ)) (active : Bool) where
  -- In order, with these bytes waiting.
  pub record Waits (bytes control : List ℕ) (s : Socket) : Type 0 where
    pub at : At env capacity x active s
    pub bytes_wait : s.data_buffer ≡ bytes
    pub control_waits : s.control_writer.buffered ≡ control

  pub check-Waits :
      (s : Socket)
      → At env capacity x active s
      → Ends (Waits s.data_buffer s.control_writer.buffered) (Cut env capacity x) (check env s)
  check-Waits s a =
      Ends-weaken (Same s) (Same s) (Waits s.data_buffer s.control_writer.buffered)
        (Cut env capacity x) _ (check-Same env s)
        (λ t m. record {
          at = Same-At env capacity x active a m;
          bytes_wait = m.bytes_wait;
          control_waits = m.control_waits;
        })
        (λ t m. At-Cut env capacity x active t (Same-At env capacity x active a m))

  data_frames_fit :
      (bytes : List ℕ)
      → length bytes < capacity + 1
      → All (FrameFits env capacity) (frames_of data_channel bytes)
  data_frames_fit [] h = tt
  data_frames_fit (b ∷ bytes) h = ((omega arith, omega (arith, h)), tt)

  control_frames_fit :
      (bytes : List ℕ)
      → IsWhole bytes
      → All (FrameFits env capacity) (frames_of control_channel bytes)
  control_frames_fit [] h = tt
  control_frames_fit (b ∷ bytes) h = (inl h, tt)

  pub flush_data_buffer-Waits :
      (s : Socket)
      → At env capacity x active s
      → Ends (Waits [] s.control_writer.buffered) (Cut env capacity x) (flush_data_buffer env s)
  flush_data_buffer-Waits s a =
      Ends-weaken _ (Same s) (Waits [] s.control_writer.buffered) (Cut env capacity x) _
        (flush_data_buffer-Moved env s)
        (λ t m. record {
          at =
              Moved-At env capacity x x active a m
                (data_frames_fit s.data_buffer (omega (arith, a.fine.data_room)))
                (omega (arith, a.fine.data_room)) a.fine.control_room (inl refl) a.fine.whole
                (ap
                    (λ bs.
                      wire_bytes s.wire ++ (bs ++ tagged control_channel s.control_writer.buffered))
                    (wire_bytes-frames_of data_channel s.data_buffer)
                  ∙ a.all);
          bytes_wait = m.bytes_wait;
          control_waits = m.control_waits;
        })
        (λ t m. At-Cut env capacity x active t (Same-At env capacity x active a m))

  swapped :
      (bytes control : List ℕ)
      → (bytes ≡ []) ⊎ (control ≡ [])
      → tagged control_channel control ++ (tagged data_channel bytes ++ [])
        ≡ tagged data_channel bytes ++ tagged control_channel control
  swapped bytes control (inl e) =
      ap (λ bs. tagged control_channel control ++ (tagged data_channel bs ++ [])) e
      ∙ append-nil (tagged control_channel control)
      ∙ sym (ap (λ bs. tagged data_channel bs ++ tagged control_channel control) e)
  swapped bytes control (inr e) =
      ap (λ cs. tagged control_channel cs ++ (tagged data_channel bytes ++ [])) e
      ∙ sym (ap (λ cs. tagged data_channel bytes ++ tagged control_channel cs) e)

  pub flush_control-Waits :
      (s : Socket)
      → At env capacity x active s
      → Ends (Waits s.data_buffer []) (Cut env capacity x) (flush_control env s)
  flush_control-Waits s a =
      Ends-weaken _ (Same s) (Waits s.data_buffer []) (Cut env capacity x) _
        (flush_control-Moved env s)
        (λ t m. record {
          at =
              Moved-At env capacity x x active a m
                (control_frames_fit s.control_writer.buffered a.fine.whole) a.fine.data_room
                (omega arith) (inr refl) nothing-IsWhole
                (ap (λ bs. wire_bytes s.wire ++ (bs ++ (tagged data_channel s.data_buffer ++ [])))
                    (wire_bytes-frames_of control_channel s.control_writer.buffered)
                  ∙ ap (◌++◌ (wire_bytes s.wire))
                      (swapped s.data_buffer s.control_writer.buffered a.fine.one_side)
                  ∙ a.all);
          bytes_wait = m.bytes_wait;
          control_waits = m.control_waits;
        })
        (λ t m. At-Cut env capacity x active t (Same-At env capacity x active a m))

  -- Both flushes leave nothing to wait.
  pub flush_both-Waits :
      (s : Socket)
      → At env capacity x active s
      → Ends (Waits [] []) (Cut env capacity x) (flush_both env s)
  unfolding flush_both
  flush_both-Waits s a =
      andthen-Ends (Waits [] s.control_writer.buffered) (Cut env capacity x) (Waits [] [])
        (Cut env capacity x) _ _ (flush_data_buffer-Waits s a) (λ t c. c)
        (λ t w.
          Ends-weaken (Waits t.data_buffer []) (Cut env capacity x) (Waits [] [])
            (Cut env capacity x) _ (flush_control-Waits t w.at)
            (λ u v. record {
              at = v.at;
              bytes_wait = v.bytes_wait ∙ w.bytes_wait;
              control_waits = v.control_waits;
            })
            (λ u c. c))

-- What a whole call adds.
abbrev pub Adds :
    Env → ℕ → List (Channel × ℕ) → List (Channel × ℕ) → Bool → Run Socket SocketError → Type 0
Adds env capacity x y active = Ends (At env capacity (x ++ y) active) (Cut env capacity (x ++ y))

module _ (env : Env) (capacity : ℕ) (x : List (Channel × ℕ)) (active : Bool) where
  nothing_left :
      {s : Socket}
      → Waits env capacity x active [] [] s
      → tagged data_channel s.data_buffer ++ tagged control_channel s.control_writer.buffered ≡ []
  nothing_left {s} w =
      ap (λ bs. tagged data_channel bs ++ tagged control_channel s.control_writer.buffered)
        w.bytes_wait
      ∙ ap (tagged control_channel) w.control_waits

  pub control_frame-Adds :
      (payload : List ℕ) (s : Socket)
      → FrameFits env capacity (control_channel, payload)
      → Waits env capacity x active [] [] s
      → Adds env capacity x
          (tagged control_channel payload)
          active
          (do_send_control_frame env payload s)
  control_frame-Adds payload s fits w =
      Ends-weaken _ (Same s) (At env capacity (x ++ tagged control_channel payload) active)
        (Cut env capacity (x ++ tagged control_channel payload)) _
        (do_send_control_frame-Moved env payload s)
        (λ t
            (m : Moved s t s.data_buffer s.control_writer.buffered
              ((control_channel, payload) ∷ [])).
          Moved-At env capacity x (x ++ tagged control_channel payload) active w.at m frames
            w.at.fine.data_room w.at.fine.control_room w.at.fine.one_side w.at.fine.whole order)
        (λ t m.
          Cut-longer env capacity x (tagged control_channel payload) t
            (At-Cut env capacity x active t (Same-At env capacity x active w.at m)))
    where
      frames : All (FrameFits env capacity) ((control_channel, payload) ∷ [])
      frames = (fits, tt)

      order :
          wire_bytes s.wire
            ++ ((tagged control_channel payload ++ [])
                ++ (tagged data_channel s.data_buffer
                    ++ tagged control_channel s.control_writer.buffered))
          ≡ x ++ tagged control_channel payload
      order =
          ap (λ q. wire_bytes s.wire ++ ((tagged control_channel payload ++ []) ++ q))
            (nothing_left w)
          ∙ ap (◌++◌ (wire_bytes s.wire)) (
              append-nil (tagged control_channel payload ++ [])
              ∙ append-nil (tagged control_channel payload))
          ∙ ap (λ q. q ++ tagged control_channel payload)
              (sym (append-nil (wire_bytes s.wire))
                ∙ sym (ap (◌++◌ (wire_bytes s.wire)) (nothing_left w))
                ∙ w.at.all)

  -- A record that fits is added to what waits for the control channel.
  pub write_record-Adds :
      (b : ℕ) (bytes : List ℕ) (s : Socket)
      → At env capacity x active s
      → s.data_buffer ≡ []
      → length (s.control_writer.buffered ++ (b ∷ bytes)) ≤ control_buffer_capacity
      → IsWhole (b ∷ bytes)
      → Adds env capacity x
          (tagged control_channel (b ∷ bytes))
          active
          (write_control env (b ∷ bytes) s)
  unfolding write_control
  write_record-Adds b bytes s a quiet h whole = stepped _ (
      write-Step env.callback_throws env.control_clock s.control_writer b bytes
        (subst (λ n. length joined ≤ n) (sym a.fine.control_capacity_is) h))
    where
      joined : List ℕ
      joined = s.control_writer.buffered ++ (b ∷ bytes)

      both_whole : IsWhole joined
      both_whole = record {
        messages = a.fine.whole.messages ++ whole.messages;
        valid =
            All-append IsMessage a.fine.whole.messages whole.messages a.fine.whole.valid
              whole.valid;
        made_of =
            ap (λ bs. bs ++ (b ∷ bytes)) a.fine.whole.made_of
            ∙ ap (◌++◌ (records a.fine.whole.messages)) whole.made_of
            ∙ sym (records-append a.fine.whole.messages whole.messages);
      }

      order :
          wire_bytes s.wire ++ (tagged data_channel s.data_buffer ++ tagged control_channel joined)
          ≡ x ++ tagged control_channel (b ∷ bytes)
      order =
          ap (λ bs. wire_bytes s.wire ++ (tagged data_channel s.data_buffer ++ bs))
            (map-append (λ c. (control_channel, c)) s.control_writer.buffered (b ∷ bytes))
          ∙ ap (◌++◌ (wire_bytes s.wire)) (
              sym (
                append_assoc (tagged data_channel s.data_buffer)
                  (tagged control_channel s.control_writer.buffered)
                  (tagged control_channel (b ∷ bytes))))
          ∙ sym (
              append_assoc (wire_bytes s.wire)
                (tagged data_channel s.data_buffer
                  ++ tagged control_channel s.control_writer.buffered)
                (tagged control_channel (b ∷ bytes)))
          ∙ ap (λ bs. bs ++ tagged control_channel (b ∷ bytes)) a.all

      order_sent :
          wire_bytes s.wire
            ++ ((tagged control_channel joined ++ []) ++ (tagged data_channel s.data_buffer ++ []))
          ≡ x ++ tagged control_channel (b ∷ bytes)
      order_sent =
          ap
            (λ bs.
              wire_bytes s.wire
              ++ ((tagged control_channel joined ++ []) ++ (tagged data_channel bs ++ [])))
            quiet
          ∙ ap (◌++◌ (wire_bytes s.wire)) (
              append-nil (tagged control_channel joined ++ [])
              ∙ append-nil (tagged control_channel joined))
          ∙ sym (
              ap
                (λ bs.
                  wire_bytes s.wire ++ (tagged data_channel bs ++ tagged control_channel joined))
                quiet)
          ∙ order

      sent_frame : All (FrameFits env capacity) ((control_channel, joined) ∷ [])
      sent_frame = (inl both_whole, tt)

      stepped :
          (r : WriteBuffer × Outcome)
          → Step s.control_writer joined r
          → Adds env capacity x (tagged control_channel (b ∷ bytes)) active (with_writer env s r)
      stepped (c, o) (waiting l k) =
          Moved-At env capacity x (x ++ tagged control_channel (b ∷ bytes)) active a
            (with_writer-Moved env s c Buffer.returned joined [] l) tt a.fine.data_room
            (subst (λ n. length joined < n) a.fine.control_capacity_is k) (inl quiet) both_whole
            order
      stepped (c, o) (through (sent l)) =
          Moved-At env capacity x (x ++ tagged control_channel (b ∷ bytes)) active a
            (with_writer-Moved env s c Buffer.returned [] (joined ∷ []) l) sent_frame
            a.fine.data_room (omega arith) (inr refl) nothing-IsWhole order_sent
      stepped (c, o) (through (stuck l)) =
          let m : Moved s (with_writer env s (c, Buffer.threw)).0 s.data_buffer joined [] =
            with_writer-Moved env s c Buffer.threw joined [] l in
          record {
            rest = [];
            first = append-nil _ ∙ content-Moved env capacity m ∙ order;
            frames =
                subst (All (FrameFits env capacity)) (sym (m.wired ∙ append-nil s.wire))
                  a.fine.frames;
          }
