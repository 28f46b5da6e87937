-- ===== src/FileSink/Submit.antt =====
-- Handing the active slot of a `FileByteSink` to the system and taking the next one.
use sora_transport.Prelude.{
  ℕ, ◌<◌, ◌≡◌, ◌≢◌, refl, sym, ap, ◌∙◌, subst, true, none, List, [], ◌∷◌, ◌++◌, map, length, All,
  arith, append-nil, append_assoc, length-append, get_or-set_self, get_or-set_ne, All-append,
  All-append_left, All-append_right, Distinct, map-append, is_empty-nil, Distinct-rotate, set,
  is_empty, leb, Bool-cases, inl, inr,
}
use sora_transport.Prelude.Run.{◌andthen◌, Ends, andthen-Ends, Ends-weaken, if-Ends, andthen_assoc}
use sora_transport.FileSink.{
  Slot, FileWrite, Sink, Env, slot_at, active_slot, empty_slot, make_room, started, start_write,
  activate, next_slot, submit_active_write,
}
use sora_transport.FileSink.Slots.{
  write_at, bytes_of, IsIdle, Inv, map-set, IsIdle-set, bytes_of-append, Tiles-append, in_range-set,
}
use sora_transport.FileSink.Wait.{
  unstarted, cancelled, Kept, Kept-refl, Kept-trans, Stopped, Stopped-after, Waited, as_write,
  wait_for_one_write-Waited,
}

-- After a submission the active slot is empty.
pub record Submitted (f g : Sink) : Type 0 where
  pub inv : Inv g
  pub kept : Kept f g
  pub emptied : (active_slot g).bytes ≡ []

module _ (env : Env) where
  -- Room in the count of writes in flight, and the active slot untouched.
  record Roomy (f g : Sink) : Type 0 where
    inv : Inv g
    kept : Kept f g
    active_same : active_slot g ≡ active_slot f
    room : length g.in_flight_slots < g.max_in_flight_write_ops

  make_room-Roomy : (f : Sink) → Inv f → Ends (Roomy f) (Stopped env f) (make_room env f)
  unfolding make_room
  make_room-Roomy f v =
      elim (Bool-cases (leb f.max_in_flight_write_ops (length f.in_flight_slots))) [
        | inl full ↦ rw full (
            Ends-weaken (Waited f) (Stopped env f) (Roomy f) (Stopped env f) _
              (wait_for_one_write-Waited env f v (ground (arith, v.some_ops)))
              (λ g w. record {
                inv = w.inv;
                kept = w.kept;
                active_same = w.active_same;
                room = omega (arith, w.fewer, w.kept.max_ops_same, v.count);
              })
              (λ g s. s))
        | inr room ↦
            rw room
              (record { inv = v; kept = Kept-refl f; active_same = refl; room = ground arith })
      ]

  abbrev activated : ℕ → List ℕ → Sink → Sink
  activated i rest f = record f {
    active_slot_index = i;
    available_slots = rest;
    write_slots = set f.write_slots i (record (slot_at f.write_slots i) { bytes = []; offset = 0 });
    fill_started_at = none;
  }

  activated-Submitted :
      (f : Sink) (i : ℕ) (rest : List ℕ)
      → Inv f
      → f.available_slots ≡ i ∷ rest
      → Submitted f (activated i rest (started env f))
  activated-Submitted f i rest v e = record {
    inv = record {
      has_room = v.has_room;
      some_ops = v.some_ops;
      fits = omega (arith, ap length emptied);
      distinct = subst Distinct turned (Distinct-rotate f.active_slot_index (i ∷ others) apart);
      in_range =
          in_range-set once i cleared
            (i ∷ rest ++ (f.in_flight_slots ++ (f.active_slot_index ∷ [])))
            (in_range-set f.write_slots f.active_slot_index sent
              (i ∷ rest ++ (f.in_flight_slots ++ (f.active_slot_index ∷ [])))
              (subst (All (λ j. j < length f.write_slots)) turned (
                All-append (λ j. j < length f.write_slots) (i ∷ others) (f.active_slot_index ∷ [])
                  ranged.1 (ranged.0, tt))));
      count =
          omega (
            arith,
            v.count,
            ap length e,
            length-append f.in_flight_slots (f.active_slot_index ∷ []),
          );
      idle = (
        ap (λ s. s.in_flight) i_cleared
            ∙ ap (λ s. s.in_flight)
                (get_or-set_ne f.write_slots f.active_slot_index i sent empty_slot apart.0.0)
            ∙ resting.0,
        IsIdle-set once i cleared rest
            (All-append_left (λ j. i ≢ j) rest f.in_flight_slots apart.1.0)
            (IsIdle-set f.write_slots f.active_slot_index sent rest
              (All-append_left (λ j. f.active_slot_index ≢ j) rest f.in_flight_slots apart.0.1)
              resting.1),
      );
      log =
          ap (λ ws. ws ++ (submission ∷ [])) v.log
          ∙ append_assoc f.landed (map (write_at f.write_slots) f.in_flight_slots) (submission ∷ [])
          ∙ ap (◌++◌ f.landed) (sym logged);
      placed = Tiles-append 0 f.physical_size f.issued submission v.placed refl;
    };
    kept = record {
      same =
          ap (λ bytes. bytes_of (f.issued ++ (submission ∷ [])) ++ bytes) emptied
          ∙ append-nil _
          ∙ bytes_of-append f.issued (submission ∷ [])
          ∙ ap (◌++◌ (bytes_of f.issued)) (append-nil (active_slot f).bytes);
      capacity_same = refl;
      max_ops_same = refl;
      closed_same = refl;
      handle_same = refl;
    };
    emptied = emptied;
  }
    where
      others : List ℕ
      others = rest ++ f.in_flight_slots

      sent : Slot
      sent = record (active_slot f) { offset = f.physical_size; in_flight = true }

      once : List Slot
      once = set f.write_slots f.active_slot_index sent

      cleared : Slot
      cleared = record (slot_at once i) { bytes = []; offset = 0 }

      submission : FileWrite
      submission = record { offset = f.physical_size; bytes = (active_slot f).bytes }

      apart : Distinct (f.active_slot_index ∷ i ∷ others)
      apart = subst (λ is. Distinct (f.active_slot_index ∷ is ++ f.in_flight_slots)) e v.distinct

      ranged : All (λ j. j < length f.write_slots) (f.active_slot_index ∷ i ∷ others)
      ranged =
          subst
            (λ is.
              All (λ j. j < length f.write_slots) (f.active_slot_index ∷ is ++ f.in_flight_slots))
            e v.in_range

      resting : All (IsIdle f.write_slots) (i ∷ rest)
      resting = subst (All (IsIdle f.write_slots)) e v.idle.1

      turned :
          (i ∷ others) ++ (f.active_slot_index ∷ [])
          ≡ i ∷ rest ++ (f.in_flight_slots ++ (f.active_slot_index ∷ []))
      turned = append_assoc (i ∷ rest) f.in_flight_slots (f.active_slot_index ∷ [])

      i_cleared : slot_at (set once i cleared) i ≡ cleared
      i_cleared =
          get_or-set_self once i cleared empty_slot
            (in_range-set f.write_slots f.active_slot_index sent (i ∷ []) (ranged.1.0, tt)).0

      emptied : (active_slot (activated i rest (started env f))).bytes ≡ []
      emptied = ap (λ s. s.bytes) i_cleared

      logged :
          map (write_at (set once i cleared)) (f.in_flight_slots ++ (f.active_slot_index ∷ []))
          ≡ map (write_at f.write_slots) f.in_flight_slots ++ (submission ∷ [])
      logged =
          map-append (write_at (set once i cleared)) f.in_flight_slots (f.active_slot_index ∷ [])
          ∙ ap (λ ws. ws ++ map (write_at (set once i cleared)) (f.active_slot_index ∷ []))
              (map-set as_write once i cleared f.in_flight_slots
                  (All-append_right (λ j. i ≢ j) rest f.in_flight_slots apart.1.0)
                ∙ map-set as_write f.write_slots f.active_slot_index sent f.in_flight_slots (
                    All-append_right (λ j. f.active_slot_index ≢ j) rest f.in_flight_slots
                      apart.0.1))
          ∙ ap (λ w. map (write_at f.write_slots) f.in_flight_slots ++ (w ∷ []))
              (ap as_write (
                get_or-set_ne once i f.active_slot_index cleared empty_slot (λ e. apart.0.0 (sym e))
                ∙ get_or-set_self f.write_slots f.active_slot_index sent empty_slot ranged.0))

  activate-Submitted :
      (f : Sink) (is : List ℕ)
      → Inv f
      → f.available_slots ≡ is
      → 0 < length is
      → Ends (Submitted f) (Stopped env f) (activate env is (started env f))
  activate-Submitted f [] v e h = absurd (omega arith)
  activate-Submitted f (i ∷ rest) v e h = activated-Submitted f i rest v e

  next_slot-Submitted :
      (f : Sink)
      → Inv f
      → 0 < length f.available_slots
      → Ends (Submitted f) (Stopped env f) (next_slot env (started env f))
  unfolding next_slot
  next_slot-Submitted f v h = elim (Bool-cases (is_empty f.available_slots)) [
    | inl none_left ↦ absurd (ground (arith, is_empty-nil f.available_slots none_left))
    | inr some_left ↦ rw some_left (activate-Submitted f f.available_slots v refl h)
  ]

  start_write-Submitted :
      (f : Sink)
      → Inv f
      → length f.in_flight_slots < f.max_in_flight_write_ops
      → Ends (Submitted f) (Stopped env f) (start_write env f andthen next_slot env)
  unfolding start_write
  start_write-Submitted f v h = elim (Bool-cases (env.start_fails f.calls)) [
    | inl fails ↦ rw fails (record {
      fault = unstarted f.calls fails;
      same =
          ap (λ s. bytes_of f.issued ++ s.bytes)
            (get_or-set_self f.write_slots f.active_slot_index
              (record (active_slot f) { offset = f.physical_size }) empty_slot v.in_range.0);
      placed = v.placed;
      unfinished = map (write_at f.write_slots) f.in_flight_slots;
      log = v.log;
    })
    | inr starts ↦ rw starts (next_slot-Submitted f v (omega (arith, v.count, h)))
  ]

  pub submit_active_write-Submitted :
      (f : Sink) → Inv f → Ends (Submitted f) (Stopped env f) (submit_active_write env f)
  unfolding submit_active_write
  submit_active_write-Submitted f v =
      if-Ends (Submitted f) (Stopped env f) (env.cancel_requested f.calls) _ _ unchanged (λ _.
        elim (Bool-cases (is_empty (active_slot f).bytes)) [
          | inl empty ↦ rw empty (record {
            inv = v;
            kept = same_sink;
            emptied = is_empty-nil (active_slot f).bytes empty;
          })
          | inr some_bytes ↦ rw (some_bytes, v.idle.0) submitted
        ])
    where
      same_sink : Kept f f
      same_sink = Kept-refl f

      unchanged : env.cancel_requested f.calls ≡ true → Stopped env f f
      unchanged c = record {
        fault = cancelled f.calls c;
        same = refl;
        placed = v.placed;
        unfinished = map (write_at f.write_slots) f.in_flight_slots;
        log = v.log;
      }

      submitted :
          Ends
            (Submitted f)
            (Stopped env f)
            (make_room env f andthen start_write env andthen next_slot env)
      submitted = rw (andthen_assoc (make_room env f) (start_write env) (next_slot env)) (
          andthen-Ends (Roomy f) (Stopped env f) (Submitted f) (Stopped env f) (make_room env f) _
            (make_room-Roomy f v) (λ g s. s)
            (λ g r.
              Ends-weaken (Submitted g) (Stopped env g) (Submitted f) (Stopped env f) _
                (start_write-Submitted g r.inv r.room)
                (λ h s. record {
                  inv = s.inv;
                  kept = Kept-trans r.kept s.kept;
                  emptied = s.emptied;
                })
                (λ h s. Stopped-after r.kept s)))
