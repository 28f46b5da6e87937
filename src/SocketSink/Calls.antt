-- ===== src/SocketSink/Calls.antt =====
-- The order of all bytes through a `SocketByteSink`, and what its frames are, step by step.
use sora_transport.Prelude.{
  ℕ, ◌≤◌, ◌<◌, ◌≡◌, refl, sym, ap, ◌∙◌, subst, Bool, List, [], ◌∷◌, ◌++◌, map, length, inl, inr,
  append-nil, append_assoc, ◌⊎◌, All, All-append,
}
use sora_transport.Protocol.Header.{Channel, data_channel, control_channel}
use sora_transport.Protocol.Record.RoundTrip.{records, IsMessage}
use sora_transport.SocketSink.{Socket, Env, control_buffer_capacity}
use sora_transport.SocketSink.Flushes.{Moved, Same, frames_of}

-- Bytes with the channel that they go over.
abbrev pub tagged : Channel → List ℕ → List (Channel × ℕ)
tagged channel bytes = map (λ b. (channel, b)) bytes

abbrev pub wire_bytes : List (Channel × List ℕ) → List (Channel × ℕ)
wire_bytes [] = []
wire_bytes ((channel, payload) ∷ frames) = tagged channel payload ++ wire_bytes frames

-- All that was sent, then what waits.
abbrev pub content : Socket → List (Channel × ℕ)
content s =
    wire_bytes s.wire
    ++ (tagged data_channel s.data_buffer ++ tagged control_channel s.control_writer.buffered)

-- A number of whole control records.
pub record IsWhole (bytes : List ℕ) : Type 0 where
  pub messages : List (List ℕ)
  pub valid : All IsMessage messages
  pub made_of : bytes ≡ records messages

wire_bytes-append :
    (fs gs : List (Channel × List ℕ)) → wire_bytes (fs ++ gs) ≡ wire_bytes fs ++ wire_bytes gs
wire_bytes-append [] gs = refl
wire_bytes-append ((channel, payload) ∷ fs) gs =
    ap (◌++◌ (tagged channel payload)) (wire_bytes-append fs gs)
    ∙ sym (append_assoc (tagged channel payload) (wire_bytes fs) (wire_bytes gs))

pub wire_bytes-frames_of :
    (channel : Channel) (bytes : List ℕ)
    → wire_bytes (frames_of channel bytes) ≡ tagged channel bytes
wire_bytes-frames_of channel [] = refl
wire_bytes-frames_of channel (b ∷ bytes) = append-nil (tagged channel (b ∷ bytes))

module _ (env : Env) (capacity : ℕ) where
  -- A data frame is neither empty nor larger than the buffer; a control frame is an event or whole
  -- records.
  abbrev pub FrameFits : Channel × List ℕ → Type 0
  FrameFits (data_channel, payload) = (0 < length payload) × (length payload ≤ capacity)
  FrameFits (control_channel, payload) =
      IsWhole payload
      ⊎ (((b : Bool) × (payload ≡ env.begin_payload b)) ⊎ (payload ≡ env.end_payload))

  -- What waits on one side went in after all that waits on the other was sent.
  pub record Ok (s : Socket) : Type 0 where
    pub data_capacity_is : s.data_capacity ≡ capacity
    pub control_capacity_is : s.control_writer.capacity ≡ control_buffer_capacity
    pub data_room : length s.data_buffer ≤ capacity
    pub control_room : length s.control_writer.buffered < control_buffer_capacity
    pub one_side : (s.data_buffer ≡ []) ⊎ (s.control_writer.buffered ≡ [])
    pub whole : IsWhole s.control_writer.buffered
    pub frames : All FrameFits s.wire

  -- The sink is in order, and `bytes` is all that went through it.
  pub record At (bytes : List (Channel × ℕ)) (active : Bool) (s : Socket) : Type 0 where
    pub fine : Ok s
    pub all : content s ≡ bytes
    pub active_is : s.transport_active ≡ active

  -- What went through it is the first part of `bytes`.
  pub record Cut (bytes : List (Channel × ℕ)) (s : Socket) : Type 0 where
    pub rest : List (Channel × ℕ)
    pub first : content s ++ rest ≡ bytes
    pub frames : All FrameFits s.wire

  pub Cut-longer :
      (bytes more : List (Channel × ℕ)) (s : Socket) → Cut bytes s → Cut (bytes ++ more) s
  Cut-longer bytes more s c = record {
    rest = c.rest ++ more;
    first = sym (append_assoc (content s) c.rest more) ∙ ap (λ xs. xs ++ more) c.first;
    frames = c.frames;
  }

  pub content-Moved :
      {s t : Socket} {bytes control : List ℕ} {fs : List (Channel × List ℕ)}
      → Moved s t bytes control fs
      → content t
        ≡ wire_bytes s.wire
          ++ (wire_bytes fs ++ (tagged data_channel bytes ++ tagged control_channel control))
  content-Moved {s} {t} {bytes} {control} {fs} m =
      ap
        (λ w.
          wire_bytes w
          ++ (tagged data_channel t.data_buffer
              ++ tagged control_channel t.control_writer.buffered))
        m.wired
      ∙ ap
          (λ bs.
            wire_bytes (s.wire ++ fs)
            ++ (tagged data_channel bs ++ tagged control_channel t.control_writer.buffered))
          m.bytes_wait
      ∙ ap
          (λ bs.
            wire_bytes (s.wire ++ fs) ++ (tagged data_channel bytes ++ tagged control_channel bs))
          m.control_waits
      ∙ ap (λ w. w ++ (tagged data_channel bytes ++ tagged control_channel control))
          (wire_bytes-append s.wire fs)
      ∙ append_assoc (wire_bytes s.wire) (wire_bytes fs)
          (tagged data_channel bytes ++ tagged control_channel control)

  -- A step keeps order where its frames fit and what waits afterwards is in order.
  pub Moved-At :
      {s t : Socket} {bytes control : List ℕ} {fs : List (Channel × List ℕ)}
      (x y : List (Channel × ℕ)) (active : Bool)
      → At x active s
      → Moved s t bytes control fs
      → All FrameFits fs
      → length bytes ≤ capacity
      → length control < control_buffer_capacity
      → (bytes ≡ []) ⊎ (control ≡ [])
      → IsWhole control
      → wire_bytes s.wire
          ++ (wire_bytes fs ++ (tagged data_channel bytes ++ tagged control_channel control))
        ≡ y
      → At y active t
  Moved-At {s} {t} {bytes} {control} {fs} x y active a m fits data_room control_room one whole e =
      record {
        fine = record {
          data_capacity_is = m.data_capacity_same ∙ a.fine.data_capacity_is;
          control_capacity_is = m.control_capacity_same ∙ a.fine.control_capacity_is;
          data_room = subst (λ bs. length bs ≤ capacity) (sym m.bytes_wait) data_room;
          control_room =
              subst (λ bs. length bs < control_buffer_capacity) (sym m.control_waits) control_room;
          one_side = one_of one;
          whole = subst IsWhole (sym m.control_waits) whole;
          frames =
              subst (All FrameFits) (sym m.wired)
                (All-append FrameFits s.wire fs a.fine.frames fits);
        };
        all = content-Moved m ∙ e;
        active_is = m.active_same ∙ a.active_is;
      }
    where
      one_of :
          (bytes ≡ []) ⊎ (control ≡ []) → (t.data_buffer ≡ []) ⊎ (t.control_writer.buffered ≡ [])
      one_of (inl e) = inl (m.bytes_wait ∙ e)
      one_of (inr e) = inr (m.control_waits ∙ e)

  pub Same-At :
      {s t : Socket} (x : List (Channel × ℕ)) (active : Bool)
      → At x active s
      → Same s t
      → At x active t
  Same-At {s} x active a m =
      Moved-At x x active a m tt a.fine.data_room a.fine.control_room a.fine.one_side a.fine.whole
        a.all

  pub At-Cut : (x : List (Channel × ℕ)) (active : Bool) (s : Socket) → At x active s → Cut x s
  At-Cut x active s a = record {
    rest = [];
    first = append-nil (content s) ∙ a.all;
    frames = a.fine.frames;
  }
