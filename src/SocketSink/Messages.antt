-- ===== src/SocketSink/Messages.antt =====
-- The calls of a `SocketByteSink` that send control frames: messages, the two events and the
-- flushes.
use sora_transport.Prelude.{
  ℕ, ◌+◌, ◌-◌, ◌^◌, ◌≤◌, ◌<◌, ◌≡◌, refl, sym, ap, ◌∙◌, Bool, true, false, not, List, [], ◌∷◌, ◌++◌,
  length, arith, Bool-cases, inl, inr, length-append, append-nil, ltb,
}
use sora_transport.Prelude.Result.{ok}
use sora_transport.Prelude.Run.{Run, returned, Ends, andthen-Ends, Ends-weaken, if-Ends, ◌andthen◌}
use sora_transport.Protocol.Header.{Channel, control_channel, be32}
use sora_transport.Protocol.Record.{append_record}
use sora_transport.Protocol.Record.RoundTrip.{IsMessage}
use sora_transport.SocketSink.{
  Socket, SocketError, Env, do_send_control_frame, flush_control, flush_both,
  control_buffer_capacity, send_record, send_control_message, send_transport_begin,
  send_transport_end, close, flush_control_buffer, activated,
}
use sora_transport.SocketSink.Calls.{tagged, IsWhole, FrameFits, At, Cut, Cut-longer, At-Cut}
use sora_transport.SocketSink.Sending.{
  Waits, Adds, check-Waits, flush_data_buffer-Waits, flush_control-Waits, flush_both-Waits,
  control_frame-Adds, write_record-Adds,
}

-- The bytes of a message on the control channel: its record.
abbrev pub message_bytes : List ℕ → List (Channel × ℕ)
message_bytes json = tagged control_channel (be32 (length json) ++ json)

module _ (env : Env) (capacity : ℕ) (x : List (Channel × ℕ)) (active : Bool) where
  record Fitting (bytes : List ℕ) (s : Socket) : Type 0 where
    at : At env capacity x active s
    quiet : s.data_buffer ≡ []
    fits : length (s.control_writer.buffered ++ bytes) ≤ control_buffer_capacity

  send_bytes-Adds :
      (b : ℕ) (bytes : List ℕ) (s : Socket)
      → At env capacity x active s
      → s.data_buffer ≡ []
      → IsWhole (b ∷ bytes)
      → Adds env capacity x
          (tagged control_channel (b ∷ bytes))
          active
          (send_record env (ok (b ∷ bytes)) s)
  send_bytes-Adds b bytes s a quiet whole =
      if-Ends (At env capacity (x ++ y) active) (Cut env capacity (x ++ y))
        (ltb control_buffer_capacity (length (b ∷ bytes))) _ _
        (λ large.
          andthen-Ends (Waits env capacity x active s.data_buffer []) (Cut env capacity x)
            (At env capacity (x ++ y) active) (Cut env capacity (x ++ y)) _ _
            (flush_control-Waits env capacity x active s a) (Cut-longer env capacity x y)
            (λ t w. control_frame-Adds env capacity x active (b ∷ bytes) t (inl whole) (record {
              at = w.at;
              bytes_wait = w.bytes_wait ∙ quiet;
              control_waits = w.control_waits;
            })))
        (λ small.
          andthen-Ends (Fitting (b ∷ bytes)) (Cut env capacity x) (At env capacity (x ++ y) active)
            (Cut env capacity (x ++ y)) _ _
            (if-Ends (Fitting (b ∷ bytes)) (Cut env capacity x)
              (ltb control_buffer_capacity (length s.control_writer.buffered + length (b ∷ bytes)))
              (flush_control env s) (s, returned)
              (λ full.
                Ends-weaken (Waits env capacity x active s.data_buffer []) (Cut env capacity x)
                  (Fitting (b ∷ bytes)) (Cut env capacity x) _
                  (flush_control-Waits env capacity x active s a)
                  (λ t w. record {
                    at = w.at;
                    quiet = w.bytes_wait ∙ quiet;
                    fits = ground (
                      arith,
                      small,
                      ap length w.control_waits,
                      length-append t.control_writer.buffered (b ∷ bytes),
                    );
                  })
                  (λ t c. c))
              (λ room. record {
                at = a;
                quiet = quiet;
                fits = ground (arith, room, length-append s.control_writer.buffered (b ∷ bytes));
              }))
            (Cut-longer env capacity x y)
            (λ t f. write_record-Adds env capacity x active b bytes t f.at f.quiet f.fits whole))
    where
      y : List (Channel × ℕ)
      y = tagged control_channel (b ∷ bytes)

  record-IsWhole : (json : List ℕ) → IsMessage json → IsWhole (be32 (length json) ++ json)
  record-IsWhole json h = record {
    messages = json ∷ [];
    valid = (h, tt);
    made_of = ap (◌++◌ (be32 (length json))) (sym (append-nil json));
  }

  send_record-Adds :
      (json : List ℕ) (s : Socket)
      → At env capacity x active s
      → s.data_buffer ≡ []
      → 0 < length json
      → Adds env capacity x (message_bytes json) active (send_record env (append_record [] json) s)
  unfolding append_record
  send_record-Adds json s a quiet h = elim (Bool-cases (ltb (2 ^ 32 - 1) (length json))) [
    | inl large ↦
        rw large
          (Cut-longer env capacity x (message_bytes json) s (At-Cut env capacity x active s a))
    | inr small ↦
        rw small (send_bytes-Adds _ _ s a quiet (record-IsWhole json (h, ground (arith, small))))
  ]

  pub send_control_message-Adds :
      (json : List ℕ) (s : Socket)
      → At env capacity x active s
      → 0 < length json
      → Adds env capacity x (message_bytes json) active (send_control_message env json s)
  unfolding send_control_message
  send_control_message-Adds json s a h =
      andthen-Ends (Quiet) (Cut env capacity x) (At env capacity (x ++ message_bytes json) active)
        (Cut env capacity (x ++ message_bytes json)) _ _
        (andthen-Ends (Waits env capacity x active s.data_buffer s.control_writer.buffered)
          (Cut env capacity x) Quiet (Cut env capacity x) _ _
          (check-Waits env capacity x active s a) (λ t c. c)
          (λ t w.
            Ends-weaken (Waits env capacity x active [] t.control_writer.buffered)
              (Cut env capacity x) Quiet (Cut env capacity x) _
              (flush_data_buffer-Waits env capacity x active t w.at) (λ u v. (v.at, v.bytes_wait))
              (λ u c. c)))
        (Cut-longer env capacity x (message_bytes json)) (λ t q. send_record-Adds json t q.0 q.1 h)
    where
      Quiet : Socket → Type 0
      Quiet t = At env capacity x active t × (t.data_buffer ≡ [])

  -- What both flushes and a control frame add, and the switch of the transport after it.
  event-Adds :
      (payload : List ℕ) (switched : Bool) (s : Socket)
      → At env capacity x active s
      → FrameFits env capacity (control_channel, payload)
      → Adds env capacity x (tagged control_channel payload) switched (
          flush_both env s andthen do_send_control_frame env payload andthen activated env switched)
  event-Adds payload switched s a fits =
      andthen-Ends (At env capacity (x ++ y) active) (Cut env capacity (x ++ y))
        (At env capacity (x ++ y) switched) (Cut env capacity (x ++ y)) _ _
        (andthen-Ends (Waits env capacity x active [] []) (Cut env capacity x)
          (At env capacity (x ++ y) active) (Cut env capacity (x ++ y)) _ _
          (flush_both-Waits env capacity x active s a) (Cut-longer env capacity x y)
          (λ t w. control_frame-Adds env capacity x active payload t fits w))
        (λ t c. c)
        (λ t w. record {
          fine = record {
            data_capacity_is = w.fine.data_capacity_is;
            control_capacity_is = w.fine.control_capacity_is;
            data_room = w.fine.data_room;
            control_room = w.fine.control_room;
            one_side = w.fine.one_side;
            whole = w.fine.whole;
            frames = w.fine.frames;
          };
          all = w.all;
          active_is = refl;
        })
    where
      y : List (Channel × ℕ)
      y = tagged control_channel payload

  -- The call found the transport as `from`, and leaves it as `to`.
  abbrev pub Turned : List (Channel × ℕ) → Bool → Bool → Socket → Type 0
  Turned y from to t = At env capacity (x ++ y) to t × (active ≡ from)

  turned :
      (y : List (Channel × ℕ)) (from to : Bool) (r : Run Socket SocketError)
      → active ≡ from
      → Adds env capacity x y to r
      → Ends (Turned y from to) (Cut env capacity (x ++ y)) r
  turned y from to r e h =
      Ends-weaken (At env capacity (x ++ y) to) (Cut env capacity (x ++ y)) (Turned y from to)
        (Cut env capacity (x ++ y)) r h (λ u v. (v, e)) (λ u c. c)

  -- Where the transport is on or off as the call wants it, the event goes out after all that waits.
  pub send_transport_begin-Adds :
      (file_comparison : Bool) (s : Socket)
      → At env capacity x active s
      → Ends
          (Turned (tagged control_channel (env.begin_payload file_comparison)) false true)
          (Cut env capacity (x ++ tagged control_channel (env.begin_payload file_comparison)))
          (send_transport_begin env file_comparison s)
  unfolding send_transport_begin
  send_transport_begin-Adds file_comparison s a =
      andthen-Ends (Waits env capacity x active s.data_buffer s.control_writer.buffered)
        (Cut env capacity x) (Turned y false true) (Cut env capacity (x ++ y)) _ _
        (check-Waits env capacity x active s a) (Cut-longer env capacity x y)
        (λ t w.
          if-Ends (Turned y false true) (Cut env capacity (x ++ y)) t.transport_active _ _
            (λ _. Cut-longer env capacity x y t (At-Cut env capacity x active t w.at))
            (λ off. turned y false true _ (sym w.at.active_is ∙ off) (
              event-Adds (env.begin_payload file_comparison) true t w.at
                (inr (inl (file_comparison, refl))))))
    where
      y : List (Channel × ℕ)
      y = tagged control_channel (env.begin_payload file_comparison)

  pub send_transport_end-Adds :
      (s : Socket)
      → At env capacity x active s
      → Ends
          (Turned (tagged control_channel env.end_payload) true false)
          (Cut env capacity (x ++ tagged control_channel env.end_payload))
          (send_transport_end env s)
  unfolding send_transport_end
  send_transport_end-Adds s a =
      andthen-Ends (Waits env capacity x active s.data_buffer s.control_writer.buffered)
        (Cut env capacity x) (Turned y true false) (Cut env capacity (x ++ y)) _ _
        (check-Waits env capacity x active s a) (Cut-longer env capacity x y)
        (λ t w.
          if-Ends (Turned y true false) (Cut env capacity (x ++ y)) (not t.transport_active) _ _
            (λ _. Cut-longer env capacity x y t (At-Cut env capacity x active t w.at))
            (λ on.
              turned y true false _ (sym w.at.active_is ∙ ground (arith, on))
                (event-Adds env.end_payload false t w.at (inr (inr refl)))))
    where
      y : List (Channel × ℕ)
      y = tagged control_channel env.end_payload

  -- After `close` nothing waits.
  pub close-Waits :
      (s : Socket)
      → At env capacity x active s
      → Ends (Waits env capacity x active [] []) (Cut env capacity x) (close env s)
  unfolding close
  close-Waits s a =
      andthen-Ends (Waits env capacity x active s.data_buffer s.control_writer.buffered)
        (Cut env capacity x) (Waits env capacity x active [] []) (Cut env capacity x) _ _
        (check-Waits env capacity x active s a) (λ t c. c)
        (λ t w. flush_both-Waits env capacity x active t w.at)

  pub flush_control_buffer-At :
      (s : Socket)
      → At env capacity x active s
      → Ends (At env capacity x active) (Cut env capacity x) (flush_control_buffer env s)
  unfolding flush_control_buffer
  flush_control_buffer-At s a =
      andthen-Ends (Waits env capacity x active s.data_buffer s.control_writer.buffered)
        (Cut env capacity x) (At env capacity x active) (Cut env capacity x) _ _
        (check-Waits env capacity x active s a) (λ t c. c)
        (λ t w.
          Ends-weaken (Waits env capacity x active t.data_buffer []) (Cut env capacity x)
            (At env capacity x active) (Cut env capacity x) _
            (flush_control-Waits env capacity x active t w.at) (λ u v. v.at) (λ u c. c))
