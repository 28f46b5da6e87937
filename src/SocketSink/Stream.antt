-- ===== src/SocketSink/Stream.antt =====
-- The bytes that `write` of a `SocketByteSink` puts on the data channel.
use sora_transport.Prelude.{
  ℕ, zero, suc, ◌+◌, ◌-◌, ◌*◌, ◌≤◌, ◌<◌, ◌≡◌, refl, sym, ap, ◌∙◌, subst, Bool, true, false, not,
  List, [], ◌∷◌, ◌++◌, map-append, length, take, drop, arith, inl, inr, ◌==◌, ◌||◌, ltb,
  if◌then◌else◌, length-append, length-take, length-drop, take-append-drop, append-nil,
  append_assoc, ◌⊎◌,
}
use sora_transport.Prelude.Run.{
  Run, returned, threw, out_of_fuel, Ends, andthen-Ends, Ends-weaken, if-Ends,
}
use sora_transport.Protocol.Header.{Channel, data_channel, control_channel}
use sora_transport.SocketSink.{
  Socket, SocketError, Env, flush_data_buffer, copy, room, overdue, flush_if_due, leaving,
  write_round, write_loop, write,
}
use sora_transport.SocketSink.Flushes.{Moved}
use sora_transport.SocketSink.Calls.{Moved-At, tagged, wire_bytes, At, Cut, Cut-longer, At-Cut}
use sora_transport.SocketSink.Sending.{
  Waits, check-Waits, flush_data_buffer-Waits, flush_control-Waits,
}

module _ (env : Env) (capacity : ℕ) (positive : 0 < capacity) where
  -- The rounds that a write still needs.
  abbrev rounds : Socket × List ℕ → ℕ
  rounds (s, bytes) = length bytes + (if ltb (length s.data_buffer) capacity then 0 else 1)

  -- The bytes that a round took are in, and those left are in the pair.
  record Going (x : List (Channel × ℕ)) (active : Bool) (s : Socket) (bytes : List ℕ)
      (q : Socket × List ℕ) : Type 0 where
    taken : List ℕ
    parts : taken ++ q.1 ≡ bytes
    at : At env capacity (x ++ tagged data_channel taken) active q.0
    quiet : q.0.control_writer.buffered ≡ []
    closer : rounds q < rounds (s, bytes)

  -- What went through is the first part of what was to go.
  abbrev pub Lost : List (Channel × ℕ) → List ℕ → Socket × List ℕ → Type 0
  Lost x bytes (t, rest) = Cut env capacity (x ++ tagged data_channel bytes) t

  split_tagged :
      (x : List (Channel × ℕ)) (taken rest bytes : List ℕ)
      → taken ++ rest ≡ bytes
      → (x ++ tagged data_channel taken) ++ tagged data_channel rest
        ≡ x ++ tagged data_channel bytes
  split_tagged x taken rest bytes e =
      append_assoc x (tagged data_channel taken) (tagged data_channel rest)
      ∙ ap (◌++◌ x)
          (sym (map-append (λ b. (data_channel, b)) taken rest) ∙ ap (tagged data_channel) e)

  leaving-Ends :
      (Good Bad : Socket → Type 0) (Good' Bad' : Socket × List ℕ → Type 0) (rest : List ℕ)
      (r : Run Socket SocketError)
      → Ends Good Bad r
      → ((t : Socket) → Good t → Good' (t, rest))
      → ((t : Socket) → Bad t → Bad' (t, rest))
      → Ends Good' Bad' (leaving env rest r)
  leaving-Ends Good Bad Good' Bad' rest (t, returned) h good bad = good t h
  leaving-Ends Good Bad Good' Bad' rest (t, threw e) h good bad = bad t h
  leaving-Ends Good Bad Good' Bad' rest (t, out_of_fuel) h good bad = absurd h

  copy-At :
      (x : List (Channel × ℕ)) (active : Bool) (chunk : List ℕ) (s : Socket)
      → At env capacity x active s
      → s.control_writer.buffered ≡ []
      → length (s.data_buffer ++ chunk) ≤ capacity
      → At env capacity (x ++ tagged data_channel chunk) active (copy env chunk s)
  copy-At x active chunk s a quiet h =
      Moved-At env capacity x (x ++ tagged data_channel chunk) active a moved tt h
        a.fine.control_room (inr quiet) a.fine.whole order
    where
      moved : Moved s (copy env chunk s) (s.data_buffer ++ chunk) s.control_writer.buffered []
      moved = record {
        data_capacity_same = refl;
        control_capacity_same = refl;
        active_same = refl;
        bytes_wait = refl;
        control_waits = refl;
        wired = sym (append-nil s.wire);
      }

      order :
          wire_bytes s.wire
            ++ (tagged data_channel (s.data_buffer ++ chunk)
                ++ tagged control_channel s.control_writer.buffered)
          ≡ x ++ tagged data_channel chunk
      order =
          ap
            (λ c.
              wire_bytes s.wire
              ++ (tagged data_channel (s.data_buffer ++ chunk) ++ tagged control_channel c))
            quiet
          ∙ ap (◌++◌ (wire_bytes s.wire)) (
              append-nil (tagged data_channel (s.data_buffer ++ chunk))
              ∙ map-append (λ b. (data_channel, b)) s.data_buffer chunk)
          ∙ sym (
              append_assoc (wire_bytes s.wire) (tagged data_channel s.data_buffer)
                (tagged data_channel chunk))
          ∙ ap (λ bs. (wire_bytes s.wire ++ bs) ++ tagged data_channel chunk)
              (sym (append-nil (tagged data_channel s.data_buffer)))
          ∙ sym (
              ap
                (λ c.
                  (wire_bytes s.wire
                    ++ (tagged data_channel s.data_buffer ++ tagged control_channel c))
                  ++ tagged data_channel chunk)
                quiet)
          ∙ ap (λ bs. bs ++ tagged data_channel chunk) a.all

  -- In order, and the data buffer has room.
  record Roomy (x : List (Channel × ℕ)) (active : Bool) (t : Socket) : Type 0 where
    at : At env capacity x active t
    quiet : t.control_writer.buffered ≡ []
    room_left : length t.data_buffer < capacity

  flushed-Roomy :
      (x : List (Channel × ℕ)) (active : Bool) (s : Socket)
      → At env capacity x active s
      → s.control_writer.buffered ≡ []
      → Ends (Roomy x active) (Cut env capacity x) (flush_data_buffer env s)
  flushed-Roomy x active s a quiet =
      Ends-weaken (Waits env capacity x active [] s.control_writer.buffered) (Cut env capacity x)
        (Roomy x active) (Cut env capacity x) _ (flush_data_buffer-Waits env capacity x active s a)
        (λ t w. record {
          at = w.at;
          quiet = w.control_waits ∙ quiet;
          room_left = omega (arith, ap length w.bytes_wait, positive);
        })
        (λ t c. c)

  flush_if_due-Roomy :
      (x : List (Channel × ℕ)) (active : Bool) (now : ℕ) (s : Socket)
      → At env capacity x active s
      → s.control_writer.buffered ≡ []
      → Ends (Roomy x active) (Cut env capacity x) (flush_if_due env now s)
  unfolding flush_if_due
  flush_if_due-Roomy x active now s a quiet =
      if-Ends (Roomy x active) (Cut env capacity x)
        (length s.data_buffer == s.data_capacity || overdue now s.data_fill_started_at) _ _
        (λ _. flushed-Roomy x active s a quiet)
        (λ early. record {
          at = a;
          quiet = quiet;
          room_left = ground (arith, early, a.fine.data_room, a.fine.data_capacity_is);
        })

  write_round-Going :
      (x : List (Channel × ℕ)) (active : Bool) (b : ℕ) (bytes : List ℕ) (s : Socket)
      → At env capacity x active s
      → s.control_writer.buffered ≡ []
      → Ends (Going x active s (b ∷ bytes)) (Lost x (b ∷ bytes)) (write_round env s (b ∷ bytes))
  unfolding write_round
  write_round-Going x active b bytes s a quiet =
      if-Ends (Going x active s (b ∷ bytes)) (Lost x (b ∷ bytes))
        (s.data_capacity - length s.data_buffer == 0) _ _
        (λ full.
          leaving-Ends (Roomy x active) (Cut env capacity x) (Going x active s (b ∷ bytes))
            (Lost x (b ∷ bytes)) (b ∷ bytes) _ (flushed-Roomy x active s a quiet)
            (λ t r. record {
              taken = [];
              parts = refl;
              at = subst (λ y. At env capacity y active t) (sym (append-nil x)) r.at;
              quiet = r.quiet;
              closer = ground (arith, full, a.fine.data_capacity_is, r.room_left);
            })
            (λ t c. Cut-longer env capacity x (tagged data_channel (b ∷ bytes)) t c))
        (λ some_room.
          leaving-Ends (Roomy (x ++ tagged data_channel chunk) active)
            (Cut env capacity (x ++ tagged data_channel chunk)) (Going x active s (b ∷ bytes))
            (Lost x (b ∷ bytes)) rest _
            (flush_if_due-Roomy (x ++ tagged data_channel chunk) active _ (copy env chunk s)
              (copy-At x active chunk s a quiet (fits some_room)) quiet)
            (λ t r. record {
              taken = chunk;
              parts = take-append-drop n (b ∷ bytes);
              at = r.at;
              quiet = r.quiet;
              closer = ground (arith, some_room, length-drop n (b ∷ bytes), r.room_left);
            })
            (λ t c.
              subst (λ y. Cut env capacity y t)
                (split_tagged x chunk rest (b ∷ bytes) (take-append-drop n (b ∷ bytes)))
                (Cut-longer env capacity (x ++ tagged data_channel chunk) (tagged data_channel rest)
                  t c)))
    where
      n : ℕ
      n = room env s (b ∷ bytes)

      chunk : List ℕ
      chunk = take n (b ∷ bytes)

      rest : List ℕ
      rest = drop n (b ∷ bytes)

      fits :
          (s.data_capacity - length s.data_buffer == 0) ≡ false
          → length (s.data_buffer ++ chunk) ≤ capacity
      fits h = omega (
        arith,
        length-append s.data_buffer chunk,
        length-take n (b ∷ bytes),
        a.fine.data_capacity_is,
        a.fine.data_room,
      )

  write_loop-Adds :
      (fuel : ℕ) (x : List (Channel × ℕ)) (active : Bool) (s : Socket) (bytes : List ℕ)
      → At env capacity x active s
      → s.control_writer.buffered ≡ []
      → (rounds (s, bytes) ≤ fuel) ⊎ (bytes ≡ [])
      → Ends
          (λ q. At env capacity (x ++ tagged data_channel bytes) active q.0)
          (Lost x bytes)
          (write_loop env fuel (s, bytes))
  unfolding write_loop
  write_loop-Adds fuel x active s [] a quiet h =
      subst (λ y. At env capacity y active s) (sym (append-nil x)) a
  write_loop-Adds zero x active s (b ∷ bytes) a quiet h = absurd (ground arith)
  write_loop-Adds (suc fuel) x active s (b ∷ bytes) a quiet h =
      andthen-Ends (Going x active s (b ∷ bytes)) (Lost x (b ∷ bytes))
        (λ q. At env capacity (x ++ tagged data_channel (b ∷ bytes)) active q.0)
        (Lost x (b ∷ bytes)) _ (write_loop env fuel) (write_round-Going x active b bytes s a quiet)
        (λ q c. c)
        (λ q g.
          subst
            (λ y.
              Ends (λ (r : Socket × List ℕ). At env capacity y active r.0)
                (λ r. Cut env capacity y r.0) (write_loop env fuel q))
            (split_tagged x g.taken q.1 (b ∷ bytes) g.parts)
            (write_loop-Adds fuel (x ++ tagged data_channel g.taken) active q.0 q.1 g.at g.quiet
              (inl (ground (arith, g.closer, h)))))

  -- The transport was on, and the data channel carries the bytes after all that waited.
  abbrev pub Written : List (Channel × ℕ) → Bool → List ℕ → Socket × List ℕ → Type 0
  Written x active bytes (t, rest) =
      At env capacity (x ++ tagged data_channel bytes) active t × (active ≡ true)

  -- On a sink in order, `write` always ends; the data channel carries its bytes, after all that
  -- waited, or the call throws, and what went through is the first part of that.
  pub write-Adds :
      (x : List (Channel × ℕ)) (active : Bool) (bytes : List ℕ) (s : Socket)
      → At env capacity x active s
      → Ends (Written x active bytes) (Lost x bytes) (write env bytes s)
  unfolding write
  write-Adds x active bytes s a =
      andthen-Ends Checked (Lost x bytes) (Written x active bytes) (Lost x bytes) _ _
        (leaving-Ends (Waits env capacity x active s.data_buffer s.control_writer.buffered)
          (Cut env capacity x) Checked (Lost x bytes) bytes _
          (check-Waits env capacity x active s a) (λ t w. (w.at, refl))
          (λ t c. Cut-longer env capacity x (tagged data_channel bytes) t c))
        (λ q b. b)
        (λ q c.
          if-Ends (Written x active bytes) (Lost x bytes) (not q.0.transport_active) _ _
            (λ _.
              Cut-longer env capacity x (tagged data_channel bytes) q.0
                (At-Cut env capacity x active q.0 c.0))
            (λ on.
              andthen-Ends Emptied (Lost x bytes) (Written x active bytes) (Lost x bytes) _
                (write_loop env (2 * length bytes))
                (leaving-Ends (Waits env capacity x active q.0.data_buffer []) (Cut env capacity x)
                  Emptied (Lost x bytes) bytes _ (flush_control-Waits env capacity x active q.0 c.0)
                  (λ t w. (w.at, w.control_waits, refl))
                  (λ t d. Cut-longer env capacity x (tagged data_channel bytes) t d))
                (λ r b. b)
                (λ r d.
                  subst
                    (λ bs.
                      Ends (Written x active bytes) (Lost x bytes)
                        (write_loop env (2 * length bytes) (r.0, bs)))
                    (sym d.2)
                    (Ends-weaken (λ p. At env capacity (x ++ tagged data_channel bytes) active p.0)
                      (Lost x bytes) (Written x active bytes) (Lost x bytes)
                      (write_loop env (2 * length bytes) (r.0, bytes))
                      (write_loop-Adds (2 * length bytes) x active r.0 bytes d.0 d.1
                        (enough r.0 bytes))
                      (λ p v. (v, sym c.0.active_is ∙ ground (arith, on))) (λ p b. b)))))
    where
      Checked : Socket × List ℕ → Type 0
      Checked q = At env capacity x active q.0 × (q.1 ≡ bytes)

      Emptied : Socket × List ℕ → Type 0
      Emptied q = At env capacity x active q.0 × (q.0.control_writer.buffered ≡ []) × (q.1 ≡ bytes)

      enough : (t : Socket) (bs : List ℕ) → (rounds (t, bs) ≤ 2 * length bs) ⊎ (bs ≡ [])
      enough t [] = inr refl
      enough t (b ∷ bs) = inl (ground arith)
