-- ===== src/FileSink/Copy.antt =====
-- Copying bytes into the active slot of a `FileByteSink` keeps them all, in order.
use sora_transport.Prelude.{
  false, if◌then◌else◌, ℕ, ◌+◌, ◌≤◌, ◌<◌, ◌≡◌, ◌≢◌, refl, sym, ap, ◌∙◌, subst, List, ◌∷◌, ◌++◌,
  length, arith, append_assoc, length-append, get_or-set_self, All-append_left, All-append_right,
  take, drop, length-take, length-drop, take-append-drop, ◌==◌,
}
use sora_transport.Prelude.Run.{Run, returned, threw, out_of_fuel, Ends, Ends-weaken, if-Ends}
use sora_transport.FileSink.{
  submit_active_write, Slot, FileWrite, Sink, SinkError, Env, active_slot, empty_slot,
  submit_if_full, copy, room, leaving, copy_round,
}
use sora_transport.FileSink.Slots.{
  bytes_of, Tiles, content, layout, Inv, map-set, IsIdle-set, in_range-set,
}
use sora_transport.FileSink.Wait.{Fault, Kept, Kept-refl, Stopped, as_write}
use sora_transport.FileSink.Submit.{Submitted, submit_active_write-Submitted}

-- What was handed over, waits, or is left to write.
abbrev pub stream : Sink × List ℕ → List ℕ
stream (f, bytes) = content f ++ bytes

abbrev pub HasRoom : Sink → Type 0
HasRoom f = length (active_slot f).bytes < f.write_buffer_capacity

pub record Went (p q : Sink × List ℕ) : Type 0 where
  pub inv : Inv q.0
  pub same : stream q ≡ stream p
  pub capacity_same : q.0.write_buffer_capacity ≡ p.0.write_buffer_capacity
  pub max_ops_same : q.0.max_in_flight_write_ops ≡ p.0.max_in_flight_write_ops
  pub closed_same : q.0.closed ≡ p.0.closed
  pub handle_same : q.0.handle_open ≡ p.0.handle_open

pub record Broke (env : Env) (p q : Sink × List ℕ) : Type 0 where
  pub fault : Fault env
  pub same : stream q ≡ stream p
  pub placed : Tiles 0 q.0.issued q.0.physical_size
  pub unfinished : List FileWrite
  pub log : q.0.issued ≡ q.0.landed ++ unfinished

pub Went-trans : {p q r : Sink × List ℕ} → Went p q → Went q r → Went p r
Went-trans a b = record {
  inv = b.inv;
  same = b.same ∙ a.same;
  capacity_same = b.capacity_same ∙ a.capacity_same;
  max_ops_same = b.max_ops_same ∙ a.max_ops_same;
  closed_same = b.closed_same ∙ a.closed_same;
  handle_same = b.handle_same ∙ a.handle_same;
}

pub Broke-after :
    {env : Env} {p q r : Sink × List ℕ} → stream q ≡ stream p → Broke env q r → Broke env p r
Broke-after same b = record {
  fault = b.fault;
  same = b.same ∙ same;
  placed = b.placed;
  unfinished = b.unfinished;
  log = b.log;
}

pub Kept-Went : {f g : Sink} (bytes : List ℕ) → Inv g → Kept f g → Went (f, bytes) (g, bytes)
Kept-Went bytes v k = record {
  inv = v;
  same = ap (λ xs. xs ++ bytes) k.same;
  capacity_same = k.capacity_same;
  max_ops_same = k.max_ops_same;
  closed_same = k.closed_same;
  handle_same = k.handle_same;
}

pub Stopped-Broke :
    {env : Env} {f g : Sink} (bytes : List ℕ) → Stopped env f g → Broke env (f, bytes) (g, bytes)
Stopped-Broke bytes s = record {
  fault = s.fault;
  same = ap (λ xs. xs ++ bytes) s.same;
  placed = s.placed;
  unfinished = s.unfinished;
  log = s.log;
}

module _ (env : Env) where
  pub leaving-Ends :
      (Good Bad : Sink → Type 0) (Good' Bad' : Sink × List ℕ → Type 0) (rest : List ℕ)
      (r : Run Sink SinkError)
      → Ends Good Bad r
      → ((g : Sink) → Good g → Good' (g, rest))
      → ((g : Sink) → Bad g → Bad' (g, rest))
      → Ends Good' Bad' (leaving env rest r)
  leaving-Ends Good Bad Good' Bad' rest (g, returned) h good bad = good g h
  leaving-Ends Good Bad Good' Bad' rest (g, threw e) h good bad = bad g h
  leaving-Ends Good Bad Good' Bad' rest (g, out_of_fuel) h good bad = absurd h

  copied_slot :
      (now : ℕ) (chunk : List ℕ) (f : Sink)
      → Inv f
      → (active_slot (copy env f.active_slot_index now chunk f)).bytes
        ≡ (active_slot f).bytes ++ chunk
  unfolding copy
  copied_slot now chunk f v =
      ap (λ s. s.bytes)
        (get_or-set_self f.write_slots f.active_slot_index
          (record (active_slot f) { bytes = (active_slot f).bytes ++ chunk }) empty_slot
          v.in_range.0)

  copy-Inv :
      (now : ℕ) (chunk : List ℕ) (f : Sink)
      → Inv f
      → length chunk + length (active_slot f).bytes ≤ f.write_buffer_capacity
      → Inv (copy env f.active_slot_index now chunk f)
  unfolding copy
  copy-Inv now chunk f v h = record {
    has_room = v.has_room;
    some_ops = v.some_ops;
    fits =
        rw (copied_slot now chunk f v)
          (omega (arith, h, length-append (active_slot f).bytes chunk));
    distinct = v.distinct;
    in_range = in_range-set f.write_slots f.active_slot_index filled (layout f) v.in_range;
    count = v.count;
    idle = (
      ap (λ s. s.in_flight)
            (get_or-set_self f.write_slots f.active_slot_index filled empty_slot v.in_range.0)
          ∙ v.idle.0,
      IsIdle-set f.write_slots f.active_slot_index filled f.available_slots
          (All-append_left (λ j. f.active_slot_index ≢ j) f.available_slots f.in_flight_slots
            v.distinct.0)
          v.idle.1,
    );
    log =
        v.log
        ∙ ap (◌++◌ f.landed) (
            sym (
              map-set as_write f.write_slots f.active_slot_index filled f.in_flight_slots (
                All-append_right (λ j. f.active_slot_index ≢ j) f.available_slots f.in_flight_slots
                  v.distinct.0)));
    placed = v.placed;
  }
    where
      filled : Slot
      filled = record (active_slot f) { bytes = (active_slot f).bytes ++ chunk }

  copy-Went :
      (now : ℕ) (chunk rest : List ℕ) (f : Sink)
      → Inv f
      → length chunk + length (active_slot f).bytes ≤ f.write_buffer_capacity
      → Went (f, chunk ++ rest) (copy env f.active_slot_index now chunk f, rest)
  unfolding copy
  copy-Went now chunk rest f v h = record {
    inv = copy-Inv now chunk f v h;
    same =
        ap (λ bytes. (bytes_of f.issued ++ bytes) ++ rest) (copied_slot now chunk f v)
        ∙ ap (λ bytes. bytes ++ rest)
            (sym (append_assoc (bytes_of f.issued) (active_slot f).bytes chunk))
        ∙ append_assoc (content f) chunk rest;
    capacity_same = refl;
    max_ops_same = refl;
    closed_same = refl;
    handle_same = refl;
  }

  -- A slot with room left is not submitted.
  pub submit_if_full-HasRoom :
      (f : Sink) → HasRoom f → submit_if_full env f.active_slot_index f ≡ (f, returned)
  unfolding submit_if_full
  submit_if_full-HasRoom f h =
      let below : (length (active_slot f).bytes == f.write_buffer_capacity) ≡ false =
        ground (arith, h) in
      ap (λ b. if b then submit_active_write env f else (f, returned)) below

  -- Submits, or has room left.
  pub record Unfilled (f g : Sink) : Type 0 where
    pub inv : Inv g
    pub kept : Kept f g
    pub room_left : HasRoom g

  pub submit_if_full-Unfilled :
      (f : Sink)
      → Inv f
      → Ends (Unfilled f) (Stopped env f) (submit_if_full env f.active_slot_index f)
  unfolding submit_if_full
  submit_if_full-Unfilled f v =
      if-Ends (Unfilled f) (Stopped env f) (length (active_slot f).bytes == f.write_buffer_capacity)
        _ _
        (λ _.
          Ends-weaken (Submitted f) (Stopped env f) (Unfilled f) (Stopped env f) _
            (submit_active_write-Submitted env f v)
            (λ g s. record {
              inv = s.inv;
              kept = s.kept;
              room_left = omega (arith, ap length s.emptied, s.inv.has_room);
            })
            (λ g s. s))
        (λ e. record { inv = v; kept = Kept-refl f; room_left = ground (arith, v.fits) })

  pub copy_round-Went :
      (now x : ℕ) (bytes : List ℕ) (f : Sink)
      → Inv f
      → HasRoom f
      → Ends
          (λ q. Went (f, x ∷ bytes) q × (length q.1 ≤ length bytes) × HasRoom q.0)
          (Broke env (f, x ∷ bytes))
          (copy_round env f.active_slot_index now (f, x ∷ bytes))
  unfolding copy_round copy
  copy_round-Went now x bytes f v h =
      leaving-Ends (Unfilled copied) (Stopped env copied)
        (λ q. Went (f, x ∷ bytes) q × (length q.1 ≤ length bytes) × HasRoom q.0)
        (Broke env (f, x ∷ bytes)) rest (submit_if_full env f.active_slot_index copied)
        (submit_if_full-Unfilled copied went.inv)
        (λ g u. (Went-trans went (Kept-Went rest u.inv u.kept), short, u.room_left))
        (λ g s. Broke-after went.same (Stopped-Broke rest s))
    where
      n : ℕ
      n = room env f.active_slot_index f (x ∷ bytes)

      copied : Sink
      copied = copy env f.active_slot_index now (take n (x ∷ bytes)) f

      rest : List ℕ
      rest = drop n (x ∷ bytes)

      went : Went (f, x ∷ bytes) (copied, rest)
      went =
          subst (λ xs. Went (f, xs) (copied, rest)) (take-append-drop n (x ∷ bytes))
            (copy-Went now (take n (x ∷ bytes)) rest f v
              (omega (arith, length-take n (x ∷ bytes), h)))

      short : length rest ≤ length bytes
      short = omega (arith, length-drop n (x ∷ bytes), h)
