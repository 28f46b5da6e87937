-- ===== src/FileSink/Wait.antt =====
-- Waiting for the oldest write in flight of a `FileByteSink`, and what holds after an exception.
use sora_transport.Prelude.{
  ℕ, ◌+◌, ◌<◌, ◌≡◌, ◌≢◌, refl, sym, ap, ◌∙◌, subst, true, false, List, [], ◌∷◌, ◌++◌, map, length,
  All, arith, append_assoc, length-append, get_or-set_self, get_or-set_ne, All-append,
  All-append_right, Distinct, ◌!=◌,
}
use sora_transport.Prelude.Run.{Ends, if-Ends}
use sora_transport.FileSink.{
  Slot, FileWrite, Sink, Env, Completion, completed, failed, slot_at, active_slot, empty_slot,
  drop_slot, release_slot, finish_write, wait_front, wait_for_one_write,
}
use sora_transport.FileSink.Slots.{
  write_at, bytes_of, Tiles, content, layout, IsIdle, Inv, map-set, IsIdle-set, in_range-set,
}

pub record Kept (f g : Sink) : Type 0 where
  pub same : content g ≡ content f
  pub capacity_same : g.write_buffer_capacity ≡ f.write_buffer_capacity
  pub max_ops_same : g.max_in_flight_write_ops ≡ f.max_in_flight_write_ops
  pub closed_same : g.closed ≡ f.closed
  pub handle_same : g.handle_open ≡ f.handle_open

-- What the system answered, or was told, for an exception to leave the sink.
pub data Fault (env : Env) : Type 0 where
  cancelled : (k : ℕ) → env.cancel_requested k ≡ true → Fault env
  unstarted : (k : ℕ) → env.start_fails k ≡ true → Fault env
  uncompleted : (k n : ℕ) → env.complete k n ≢ completed n → Fault env
  unflushed : (k : ℕ) → env.flush_fails k ≡ true → Fault env
  unclosed : (k : ℕ) → env.close_fails k ≡ true → Fault env

-- What is sure after an exception: it has its cause, `content` is kept, the writes issued follow
-- each other, and those that landed are the first of them.
pub record Stopped (env : Env) (f g : Sink) : Type 0 where
  pub fault : Fault env
  pub same : content g ≡ content f
  pub placed : Tiles 0 g.issued g.physical_size
  pub unfinished : List FileWrite
  pub log : g.issued ≡ g.landed ++ unfinished

pub record Waited (f g : Sink) : Type 0 where
  pub inv : Inv g
  pub kept : Kept f g
  pub active_same : active_slot g ≡ active_slot f
  pub fewer : length g.in_flight_slots + 1 ≡ length f.in_flight_slots

pub Kept-refl : (f : Sink) → Kept f f
Kept-refl f = record {
  same = refl;
  capacity_same = refl;
  max_ops_same = refl;
  closed_same = refl;
  handle_same = refl;
}

pub Kept-trans : {f g h : Sink} → Kept f g → Kept g h → Kept f h
Kept-trans p q = record {
  same = q.same ∙ p.same;
  capacity_same = q.capacity_same ∙ p.capacity_same;
  max_ops_same = q.max_ops_same ∙ p.max_ops_same;
  closed_same = q.closed_same ∙ p.closed_same;
  handle_same = q.handle_same ∙ p.handle_same;
}

pub Stopped-after : {env : Env} {f g h : Sink} → Kept f g → Stopped env g h → Stopped env f h
Stopped-after p q = record {
  fault = q.fault;
  same = q.same ∙ p.same;
  placed = q.placed;
  unfinished = q.unfinished;
  log = q.log;
}

abbrev pub as_write : Slot → FileWrite
as_write s = record { offset = s.offset; bytes = s.bytes }

module _ (env : Env) where
  -- The front of the slots in flight is none of the others.
  record Front (f : Sink) (i : ℕ) (rest : List ℕ) : Type 0 where
    off_active : i ≢ f.active_slot_index
    off_available : All (λ j. i ≢ j) f.available_slots
    off_rest : All (λ j. i ≢ j) rest

  Distinct-middle :
      (xs : List ℕ) (i : ℕ) (ys : List ℕ)
      → Distinct (xs ++ (i ∷ ys))
      → All (λ j. i ≢ j) xs × All (λ j. i ≢ j) ys
  Distinct-middle [] i ys h = (tt, h.0)
  Distinct-middle (x ∷ xs) i ys h = (
    (
      λ e. (All-append_right (λ j. x ≢ j) xs (i ∷ ys) h.0).0 (sym e),
      (Distinct-middle xs i ys h.1).0,
    ),
    (Distinct-middle xs i ys h.1).1,
  )

  front : (f : Sink) (i : ℕ) (rest : List ℕ) → Inv f → f.in_flight_slots ≡ i ∷ rest → Front f i rest
  front f i rest v e =
      let d : All (λ j. i ≢ j) (f.active_slot_index ∷ f.available_slots) × All (λ j. i ≢ j) rest =
        Distinct-middle (f.active_slot_index ∷ f.available_slots) i rest
          (subst (λ is. Distinct (f.active_slot_index ∷ f.available_slots ++ is)) e v.distinct) in
      record { off_active = d.0.0; off_available = d.0.1; off_rest = d.1 }

  abbrev popped : List ℕ → Sink → Sink
  popped rest f = record f { in_flight_slots = rest; calls = f.calls + 1 }

  released-Waited :
      (f : Sink) (i : ℕ) (rest : List ℕ)
      → Inv f
      → f.in_flight_slots ≡ i ∷ rest
      → Waited f (release_slot env i (popped rest f))
  released-Waited f i rest v e = record {
    inv = record {
      has_room = v.has_room;
      some_ops = v.some_ops;
      fits = rw active_same v.fits;
      distinct = subst Distinct (sym layout_same) v.distinct;
      in_range =
          in_range-set f.write_slots i empty_slot (layout released)
            (subst (All (λ j. j < length f.write_slots)) (sym layout_same) v.in_range);
      count = omega (arith, length-append f.available_slots (i ∷ []), ap length e, v.count);
      idle = (
        ap (λ s. s.in_flight) active_same ∙ v.idle.0,
        All-append (IsIdle released.write_slots) f.available_slots (i ∷ [])
            (IsIdle-set f.write_slots i empty_slot f.available_slots apart.off_available v.idle.1)
            (
              ap (λ s. s.in_flight)
                  (get_or-set_self f.write_slots i empty_slot empty_slot i_in_range),
              tt,
            ),
      );
      log =
          v.log
          ∙ ap (λ is. f.landed ++ map (write_at f.write_slots) is) e
          ∙ ap (λ ws. f.landed ++ (write_at f.write_slots i ∷ ws))
              (sym (map-set as_write f.write_slots i empty_slot rest apart.off_rest))
          ∙ sym (
              append_assoc f.landed (write_at f.write_slots i ∷ [])
                (map (write_at released.write_slots) rest));
      placed = v.placed;
    };
    kept = record {
      same = ap (λ s. bytes_of f.issued ++ s.bytes) active_same;
      capacity_same = refl;
      max_ops_same = refl;
      closed_same = refl;
      handle_same = refl;
    };
    active_same = active_same;
    fewer = omega (arith, ap length e);
  }
    where
      released : Sink
      released = release_slot env i (popped rest f)

      apart : Front f i rest
      apart = front f i rest v e

      active_same : active_slot released ≡ active_slot f
      active_same =
          get_or-set_ne f.write_slots i f.active_slot_index empty_slot empty_slot apart.off_active

      layout_same : layout released ≡ layout f
      layout_same =
          ap (◌∷◌ f.active_slot_index)
            (append_assoc f.available_slots (i ∷ []) rest ∙ ap (◌++◌ f.available_slots) (sym e))

      i_in_range : i < length f.write_slots
      i_in_range =
          (All-append_right (λ j. j < length f.write_slots)
            (f.active_slot_index ∷ f.available_slots) (i ∷ rest)
            (subst
              (λ is.
                All (λ j. j < length f.write_slots) (f.active_slot_index ∷ f.available_slots ++ is))
              e v.in_range)).0

  dropped-Stopped :
      (f : Sink) (i : ℕ) (rest : List ℕ)
      → Inv f
      → f.in_flight_slots ≡ i ∷ rest
      → Fault env
      → Stopped env f (drop_slot env i (popped rest f))
  dropped-Stopped f i rest v e fault = record {
    fault = fault;
    same =
        ap (λ s. bytes_of f.issued ++ s.bytes)
          (get_or-set_ne f.write_slots i f.active_slot_index
            (record (slot_at f.write_slots i) { in_flight = false; bytes = [] }) empty_slot
            (front f i rest v e).off_active);
    placed = v.placed;
    unfinished = map (write_at f.write_slots) f.in_flight_slots;
    log = v.log;
  }

  finish_write-Waited :
      (f : Sink) (i : ℕ) (rest : List ℕ) (c : Completion)
      → Inv f
      → f.in_flight_slots ≡ i ∷ rest
      → (c ≢ completed (length (slot_at f.write_slots i).bytes) → Fault env)
      → Ends (Waited f) (Stopped env f) (finish_write env i c (popped rest f))
  unfolding finish_write
  finish_write-Waited f i rest (failed aborted) v e fault =
      dropped-Stopped f i rest v e (fault (λ p. cc))
  finish_write-Waited f i rest (completed n) v e fault =
      if-Ends (Waited f) (Stopped env f) (n != length (slot_at f.write_slots i).bytes) _ _
        (λ p. dropped-Stopped f i rest v e (fault (λ q. ground arith)))
        (λ _. released-Waited f i rest v e)

  wait_front-Waited :
      (f : Sink) (is : List ℕ)
      → Inv f
      → f.in_flight_slots ≡ is
      → 0 < length is
      → Ends (Waited f) (Stopped env f) (wait_front env is f)
  wait_front-Waited f [] v e h = absurd (omega arith)
  wait_front-Waited f (i ∷ rest) v e h =
      let n : ℕ = length (slot_at f.write_slots i).bytes in
      finish_write-Waited f i rest (env.complete f.calls n) v e (uncompleted f.calls n)

  pub wait_for_one_write-Waited :
      (f : Sink)
      → Inv f
      → 0 < length f.in_flight_slots
      → Ends (Waited f) (Stopped env f) (wait_for_one_write env f)
  unfolding wait_for_one_write
  wait_for_one_write-Waited f v h = wait_front-Waited f f.in_flight_slots v refl h
