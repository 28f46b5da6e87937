-- ===== src/FileSink/Written.antt =====
-- What `write` of a `FileByteSink` does with the bytes it is given.
use sora_transport.Prelude.{
  ℕ, zero, suc, ◌+◌, ◌*◌, ◌≤◌, ◌<◌, ◌≡◌, refl, sym, ap, subst, true, false, List, [], ◌∷◌, map,
  length, arith, is_empty, if◌then◌else◌, not, ◌&&◌, ◌||◌,
}
use sora_transport.Prelude.Run.{Run, ◌andthen◌, Ends, andthen-Ends, Ends-weaken, if-Ends}
use sora_transport.FileSink.{
  Sink, SinkError, Env, leaving, active_slot, submit_active_write, copy_round, write_round,
  write_loop, write, overdue,
}
use sora_transport.FileSink.Slots.{write_at, Inv}
use sora_transport.FileSink.Wait.{cancelled, Kept-refl, Stopped}
use sora_transport.FileSink.Submit.{Submitted, submit_active_write-Submitted}
use sora_transport.FileSink.Copy.{
  Went, Broke, Went-trans, Broke-after, Kept-Went, Stopped-Broke, leaving-Ends, HasRoom,
  submit_if_full-HasRoom, copy_round-Went,
}

-- The rounds that a write still needs, and one more.
abbrev rounds : Sink × List ℕ → ℕ
rounds (f, bytes) = 2 * length bytes + (if is_empty (active_slot f).bytes then 0 else 1)

module _ (env : Env) where
  record Closer (p q : Sink × List ℕ) : Type 0 where
    went : Went p q
    closer : rounds q < rounds p
    room_left : HasRoom q.0

  write_round-Closer :
      (now x : ℕ) (bytes : List ℕ) (f : Sink)
      → Inv f
      → HasRoom f
      → Ends (Closer (f, x ∷ bytes)) (Broke env (f, x ∷ bytes)) (write_round env now f (x ∷ bytes))
  unfolding write_round
  write_round-Closer now x bytes f v h =
      if-Ends (Closer (f, x ∷ bytes)) (Broke env (f, x ∷ bytes))
        (not (is_empty (active_slot f).bytes) && overdue now f.fill_started_at) _ _
        (λ due.
          leaving-Ends env (Submitted f) (Stopped env f) (Closer (f, x ∷ bytes))
            (Broke env (f, x ∷ bytes)) (x ∷ bytes) (submit_active_write env f)
            (submit_active_write-Submitted env f v)
            (λ g s. record {
              went = Kept-Went (x ∷ bytes) s.inv s.kept;
              closer = ground (arith, s.emptied);
              room_left = omega (arith, ap length s.emptied, s.inv.has_room);
            })
            (λ g s. Stopped-Broke (x ∷ bytes) s))
        (λ _.
          subst
            (λ (r : Run Sink SinkError).
              Ends (Closer (f, x ∷ bytes)) (Broke env (f, x ∷ bytes))
                (leaving env (x ∷ bytes) r andthen copy_round env f.active_slot_index now))
            (sym (submit_if_full-HasRoom env f h)) copied)
    where
      copied :
          Ends
            (Closer (f, x ∷ bytes))
            (Broke env (f, x ∷ bytes))
            (copy_round env f.active_slot_index now (f, x ∷ bytes))
      copied =
          Ends-weaken (λ q. Went (f, x ∷ bytes) q × (length q.1 ≤ length bytes) × HasRoom q.0)
            (Broke env (f, x ∷ bytes)) (Closer (f, x ∷ bytes)) (Broke env (f, x ∷ bytes)) _
            (copy_round-Went env now x bytes f v h)
            (λ q c. record { went = c.0; closer = ground (arith, c.1); room_left = c.2 }) (λ q b. b)

  abbrev tick : Sink → Sink
  tick f = record f { calls = f.calls + 1 }

  tick-Went : (f : Sink) (bytes : List ℕ) → Inv f → Went (f, bytes) (tick f, bytes)
  tick-Went f bytes v = record {
    inv = record {
      has_room = v.has_room;
      some_ops = v.some_ops;
      fits = v.fits;
      distinct = v.distinct;
      in_range = v.in_range;
      count = v.count;
      idle = v.idle;
      log = v.log;
      placed = v.placed;
    };
    same = refl;
    capacity_same = refl;
    max_ops_same = refl;
    closed_same = refl;
    handle_same = refl;
  }

  -- All bytes were taken.
  pub record Took (p q : Sink × List ℕ) : Type 0 where
    pub went : Went p q
    pub all_taken : q.1 ≡ []
    pub room_left : HasRoom q.0

  write_loop-Went :
      (fuel : ℕ) (f : Sink) (bytes : List ℕ)
      → Inv f
      → HasRoom f
      → rounds (f, bytes) ≤ suc fuel
      → Ends (Took (f, bytes)) (Broke env (f, bytes)) (write_loop env fuel (f, bytes))
  unfolding write_loop
  write_loop-Went fuel f [] v r h = record {
    went = Kept-Went [] v (Kept-refl f);
    all_taken = refl;
    room_left = r;
  }
  write_loop-Went zero f (x ∷ bytes) v r h = absurd (omega arith)
  write_loop-Went (suc fuel) f (x ∷ bytes) v room h =
      andthen-Ends (Closer (tick f, x ∷ bytes)) (Broke env (tick f, x ∷ bytes))
        (Took (f, x ∷ bytes)) (Broke env (f, x ∷ bytes)) _ (write_loop env fuel)
        (write_round-Closer (env.clock f.calls) x bytes (tick f) ticked.inv room)
        (λ q b. Broke-after refl b)
        (λ q c.
          Ends-weaken (Took q) (Broke env q) (Took (f, x ∷ bytes)) (Broke env (f, x ∷ bytes)) _
            (write_loop-Went fuel q.0 q.1 c.went.inv c.room_left (omega (arith, c.closer, h)))
            (λ r w. record {
              went = Went-trans (Went-trans ticked c.went) w.went;
              all_taken = w.all_taken;
              room_left = w.room_left;
            })
            (λ r b. Broke-after c.went.same b))
    where
      ticked : Went (f, x ∷ bytes) (tick f, x ∷ bytes)
      ticked = tick-Went f (x ∷ bytes) v

  -- On an open sink that satisfies `Inv` and whose active slot has room, `write` always ends. If it returns, it took all bytes:
  -- those handed to the system and in the active slot are the ones before it, followed by its own,
  -- `Inv` holds again and there is room. It throws only where the sink is cancelled or the system fails a write;
  -- then no byte before the ones not taken is lost or moved: the writes handed to the system still
  -- follow each other from the start of the file, and those that landed are the first of them.
  pub write-Took :
      (f : Sink) (bytes : List ℕ)
      → Inv f
      → HasRoom f
      → f.closed ≡ false
      → f.handle_open ≡ true
      → Ends (Took (f, bytes)) (Broke env (f, bytes)) (write env f bytes)
  unfolding write
  write-Took f bytes v room open_file valid =
      if-Ends (Took (f, bytes)) (Broke env (f, bytes)) (f.closed || not f.handle_open) _ _
        (λ shut. absurd (ground arith))
        (λ _.
          if-Ends (Took (f, bytes)) (Broke env (f, bytes)) (env.cancel_requested f.calls) _ _
            (λ c. record {
              fault = cancelled f.calls c;
              same = refl;
              placed = v.placed;
              unfinished = map (write_at f.write_slots) f.in_flight_slots;
              log = v.log;
            })
            (λ _. write_loop-Went (2 * length bytes) f bytes v room (ground arith)))
