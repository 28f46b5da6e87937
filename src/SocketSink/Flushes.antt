-- ===== src/SocketSink/Flushes.antt =====
-- What the flushes of a `SocketByteSink` send, and that they keep all bytes in order.
use sora_transport.Prelude.{
  ℕ, ◌+◌, ◌≡◌, refl, sym, ap, ◌∙◌, subst, Bool, false, List, [], ◌∷◌, ◌++◌, map, none, some, Option,
  length, drop, Bool-cases, inl, inr, if◌then◌else◌, is_empty, is_empty-nil, append-nil,
  append_assoc, drop-append,
}
use sora_transport.Prelude.Run.{Ends, andthen-Ends, Ends-weaken}
use sora_transport.Protocol.Header.{Channel, data_channel, control_channel}
use sora_transport.WriteBuffer.{WriteBuffer, Outcome}
use sora_transport.WriteBuffer as Buffer
use sora_transport.WriteBuffer.Fits.{Left, Drain, sent, stuck, flush_empty, flush-Drain}
use sora_transport.SocketSink.{
  Socket, SocketError, Env, check, frame_written, send_frame, do_send_control_frame,
  flush_data_buffer, with_writer, flush_control,
}

-- A socket sink after a step: what waits on each side, and the frames that the step sent.
pub record Moved (s t : Socket) (bytes control : List ℕ) (frames : List (Channel × List ℕ))
    : Type 0 where
  pub data_capacity_same : t.data_capacity ≡ s.data_capacity
  pub control_capacity_same : t.control_writer.capacity ≡ s.control_writer.capacity
  pub active_same : t.transport_active ≡ s.transport_active
  pub bytes_wait : t.data_buffer ≡ bytes
  pub control_waits : t.control_writer.buffered ≡ control
  pub wired : t.wire ≡ s.wire ++ frames

abbrev pub Same : Socket → Socket → Type 0
Same s t = Moved s t s.data_buffer s.control_writer.buffered []

abbrev pub frames_of : Channel → List ℕ → List (Channel × List ℕ)
frames_of channel bytes = if is_empty bytes then [] else ((channel, bytes) ∷ [])

frames_of_none : (channel : Channel) (bytes : List ℕ) → bytes ≡ [] → frames_of channel bytes ≡ []
frames_of_none channel bytes e = ap (frames_of channel) e

frames_of_some :
    (channel : Channel) (bytes : List ℕ)
    → is_empty bytes ≡ false
    → frames_of channel bytes ≡ (channel, bytes) ∷ []
frames_of_some channel bytes e = ap (λ b. if b then [] else ((channel, bytes) ∷ [])) e

pub Moved-trans :
    {s t u : Socket} {bytes control bytes' control' : List ℕ} {fs gs : List (Channel × List ℕ)}
    → Moved s t bytes control fs
    → Moved t u bytes' control' gs
    → Moved s u bytes' control' (fs ++ gs)
Moved-trans {s} {fs = fs} {gs = gs} p q = record {
  data_capacity_same = q.data_capacity_same ∙ p.data_capacity_same;
  control_capacity_same = q.control_capacity_same ∙ p.control_capacity_same;
  active_same = q.active_same ∙ p.active_same;
  bytes_wait = q.bytes_wait;
  control_waits = q.control_waits;
  wired = q.wired ∙ ap (λ ws. ws ++ gs) p.wired ∙ append_assoc s.wire fs gs;
}

pub Same-refl : (s : Socket) → Same s s
Same-refl s = record {
  data_capacity_same = refl;
  control_capacity_same = refl;
  active_same = refl;
  bytes_wait = refl;
  control_waits = refl;
  wired = sym (append-nil s.wire);
}

-- After a step that changed nothing, one that sends frames only.
pub Moved-from :
    {s t u : Socket} {fs : List (Channel × List ℕ)}
    → Same s t
    → Moved t u t.data_buffer t.control_writer.buffered fs
    → Moved s u s.data_buffer s.control_writer.buffered fs
Moved-from p q = record {
  data_capacity_same = q.data_capacity_same ∙ p.data_capacity_same;
  control_capacity_same = q.control_capacity_same ∙ p.control_capacity_same;
  active_same = q.active_same ∙ p.active_same;
  bytes_wait = q.bytes_wait ∙ p.bytes_wait;
  control_waits = q.control_waits ∙ p.control_waits;
  wired = (Moved-trans p q).wired;
}

module _ (env : Env) where
  pub check-Same : (s : Socket) → Ends (Same s) (Same s) (check env s)
  unfolding check
  check-Same s = elim (Bool-cases (env.async_error s.looks)) [
    | inl e ↦ rw e same
    | inr e ↦
        rw e (elim (Bool-cases (env.cancelled s.looks)) [ inl c ↦ rw c same | inr c ↦ rw c same ])
  ]
    where
      same : Same s (record s { looks = s.looks + 1 })
      same = record {
        data_capacity_same = refl;
        control_capacity_same = refl;
        active_same = refl;
        bytes_wait = refl;
        control_waits = refl;
        wired = sym (append-nil s.wire);
      }

  abbrev Sent : Channel → List ℕ → Socket → Socket → Type 0
  Sent channel payload s t =
      Moved s t s.data_buffer s.control_writer.buffered ((channel, payload) ∷ [])

  frame_written-Sent :
      (channel : Channel) (error : SocketError) (payload : List ℕ) (s : Socket) (o : Option Bool)
      → Ends (Sent channel payload s) (Same s) (frame_written env channel error payload s o)
  frame_written-Sent channel error payload s (some aborted) = record {
    data_capacity_same = refl;
    control_capacity_same = refl;
    active_same = refl;
    bytes_wait = refl;
    control_waits = refl;
    wired = sym (append-nil s.wire);
  }
  frame_written-Sent channel error payload s none = record {
    data_capacity_same = refl;
    control_capacity_same = refl;
    active_same = refl;
    bytes_wait = refl;
    control_waits = refl;
    wired = refl;
  }

  Sent-from :
      (channel : Channel) (error : SocketError) (payload : List ℕ) (s t : Socket)
      → Same s t
      → Ends (Sent channel payload s) (Same s) (send_frame env channel error payload t)
  unfolding send_frame
  Sent-from channel error payload s t p =
      Ends-weaken (Sent channel payload t) (Same t) (Sent channel payload s) (Same s) _
        (frame_written-Sent channel error payload t (env.write_fails t.looks))
        (λ u q. Moved-from p q) (λ u q. Moved-from p q)

  pub do_send_control_frame-Moved :
      (payload : List ℕ) (s : Socket)
      → Ends (Sent control_channel payload s) (Same s) (do_send_control_frame env payload s)
  unfolding do_send_control_frame
  do_send_control_frame-Moved payload s =
      andthen-Ends (Same s) (Same s) (Sent control_channel payload s) (Same s) _ _ (check-Same s)
        (λ t b. b) (λ t p. Sent-from control_channel _ payload s t p)

  abbrev Flushed : Socket → Socket → Type 0
  Flushed s t = Moved s t [] s.control_writer.buffered (frames_of data_channel s.data_buffer)

  pub flush_data_buffer-Moved : (s : Socket) → Ends (Flushed s) (Same s) (flush_data_buffer env s)
  unfolding flush_data_buffer
  flush_data_buffer-Moved s = elim (Bool-cases (is_empty s.data_buffer)) [
    | inl e ↦ rw e (nothing_left (is_empty-nil s.data_buffer e))
    | inr e ↦ rw e (
        andthen-Ends (Sent data_channel s.data_buffer s) (Same s) (Flushed s) (Same s) _ _
          (andthen-Ends (Same s) (Same s) (Sent data_channel s.data_buffer s) (Same s) _ _
            (check-Same s) (λ t b. b) (λ t p. Sent-from data_channel _ s.data_buffer s t p))
          (λ t b. b)
          (λ t p. record {
            data_capacity_same = p.data_capacity_same;
            control_capacity_same = p.control_capacity_same;
            active_same = p.active_same;
            bytes_wait = refl;
            control_waits = p.control_waits;
            wired = p.wired ∙ sym (ap (◌++◌ s.wire) (frames_of_some data_channel s.data_buffer e));
          }))
  ]
    where
      nothing_left : s.data_buffer ≡ [] → Flushed s s
      nothing_left e = record {
        data_capacity_same = refl;
        control_capacity_same = refl;
        active_same = refl;
        bytes_wait = e;
        control_waits = refl;
        wired =
            sym
              (ap (◌++◌ s.wire) (frames_of_none data_channel s.data_buffer e) ∙ append-nil s.wire);
      }

  new_spans :
      (s : Socket) (c : WriteBuffer) (spans : List (List ℕ))
      → c.sent ≡ s.control_writer.sent ++ spans
      → drop (length s.control_writer.sent) c.sent ≡ spans
  new_spans s c spans e =
      ap (drop (length s.control_writer.sent)) e ∙ drop-append s.control_writer.sent spans

  pub with_writer-Moved :
      (s : Socket) (c : WriteBuffer) (o : Outcome) (control : List ℕ) (spans : List (List ℕ))
      → Left s.control_writer c control spans
      → Moved s
          (with_writer env s (c, o)).0
          s.data_buffer
          control
          (map (λ span. (control_channel, span)) spans)
  with_writer-Moved s c o control spans l = record {
    data_capacity_same = refl;
    control_capacity_same = l.capacity_same;
    active_same = refl;
    bytes_wait = refl;
    control_waits = l.waits;
    wired =
        ap (λ ss. s.wire ++ map (λ span. (control_channel, span)) ss) (new_spans s c spans l.gone);
  }

  abbrev ControlFlushed : Socket → Socket → Type 0
  ControlFlushed s t =
      Moved s t s.data_buffer [] (frames_of control_channel s.control_writer.buffered)

  drained :
      (s : Socket) (r : WriteBuffer × Outcome)
      → Drain s.control_writer s.control_writer.buffered r
      → is_empty s.control_writer.buffered ≡ false
      → Ends (ControlFlushed s) (Same s) (with_writer env s r)
  drained s (c, o) (sent l) e =
      subst (Moved s (with_writer env s (c, Buffer.returned)).0 s.data_buffer [])
        (sym (frames_of_some control_channel s.control_writer.buffered e))
        (with_writer-Moved s c Buffer.returned [] (s.control_writer.buffered ∷ []) l)
  drained s (c, o) (stuck l) e = with_writer-Moved s c Buffer.threw s.control_writer.buffered [] l

  pub flush_control-Moved : (s : Socket) → Ends (ControlFlushed s) (Same s) (flush_control env s)
  unfolding flush_control
  flush_control-Moved s = elim (Bool-cases (is_empty s.control_writer.buffered)) [
    | inr e ↦ drained s _ (flush-Drain env.callback_throws env.control_clock s.control_writer e) e
    | inl e ↦
        let nothing_left : s.control_writer.buffered ≡ [] =
          is_empty-nil s.control_writer.buffered e in
        subst (λ r. Ends (ControlFlushed s) (Same s) (with_writer env s r))
          (sym (flush_empty env.callback_throws env.control_clock s.control_writer nothing_left))
          (subst
            (Moved s (with_writer env s (s.control_writer, Buffer.returned)).0 s.data_buffer [])
            (sym (frames_of_none control_channel s.control_writer.buffered nothing_left))
            (with_writer-Moved s s.control_writer Buffer.returned [] [] (record {
              capacity_same = refl;
              waits = nothing_left;
              gone = sym (append-nil s.control_writer.sent);
            })))
  ]
