-- ===== src/FileSink/Close.antt =====
-- What is in the file once `close` of a `FileByteSink` returned.
use sora_transport.Prelude.{
  ℕ, zero, suc, ◌≤◌, ◌≡◌, refl, sym, ap, ◌∙◌, subst, true, false, [], ◌++◌, map, length, arith,
  append-nil, is_empty-nil, nonempty_length, is_empty, Bool-cases, inl, inr,
}
use sora_transport.Prelude.Run.{Ends, andthen-Ends, Ends-weaken, if-Ends}
use sora_transport.FileSink.{
  Sink, Env, active_slot, wait_all_loop, wait_for_all_writes, finish_close, close,
}
use sora_transport.FileSink.Slots.{write_at, bytes_of, Tiles, content, Inv}
use sora_transport.FileSink.Wait.{
  cancelled, unflushed, unclosed, Kept, Kept-refl, Kept-trans, Stopped, Stopped-after, Waited,
  wait_for_one_write-Waited,
}
use sora_transport.FileSink.Submit.{Submitted, submit_active_write-Submitted}

-- All writes were seen to complete, none is in flight and no byte waits.
record Settled (f g : Sink) : Type 0 where
  inv : Inv g
  kept : Kept f g
  quiet : g.in_flight_slots ≡ []
  emptied : (active_slot g).bytes ≡ []

-- The sink is closed, and what landed is all that it was given, each byte at its place.
pub record Saved (f g : Sink) : Type 0 where
  pub shut : g.closed ≡ true
  pub released : g.handle_open ≡ false
  pub whole : bytes_of g.landed ≡ content f
  pub placed : Tiles 0 g.landed g.physical_size

module _ (env : Env) where
  wait_all_loop-Settled :
      (fuel : ℕ) (f : Sink)
      → Inv f
      → (active_slot f).bytes ≡ []
      → length f.in_flight_slots ≤ fuel
      → Ends (Settled f) (Stopped env f) (wait_all_loop env fuel f)
  unfolding wait_all_loop
  wait_all_loop-Settled zero f v e h = elim (Bool-cases (is_empty f.in_flight_slots)) [
    | inl quiet ↦ rw quiet (record {
      inv = v;
      kept = Kept-refl f;
      quiet = is_empty-nil f.in_flight_slots quiet;
      emptied = e;
    })
    | inr busy ↦ absurd (ground (arith, nonempty_length f.in_flight_slots busy))
  ]
  wait_all_loop-Settled (suc fuel) f v e h = elim (Bool-cases (is_empty f.in_flight_slots)) [
    | inl quiet ↦ rw quiet (record {
      inv = v;
      kept = Kept-refl f;
      quiet = is_empty-nil f.in_flight_slots quiet;
      emptied = e;
    })
    | inr busy ↦ rw busy (
        andthen-Ends (Waited f) (Stopped env f) (Settled f) (Stopped env f) _ _
          (wait_for_one_write-Waited env f v (nonempty_length f.in_flight_slots busy)) (λ g s. s)
          (λ g w.
            Ends-weaken (Settled g) (Stopped env g) (Settled f) (Stopped env f) _
              (wait_all_loop-Settled fuel g w.inv (ap (λ s. s.bytes) w.active_same ∙ e)
                (omega (arith, w.fewer, h)))
              (λ k s. record {
                inv = s.inv;
                kept = Kept-trans w.kept s.kept;
                quiet = s.quiet;
                emptied = s.emptied;
              })
              (λ k s. Stopped-after w.kept s)))
  ]

  finish_close-Saved :
      (f g : Sink) → Settled f g → Ends (Saved f) (Stopped env f) (finish_close env g)
  unfolding finish_close
  finish_close-Saved f g s = elim (Bool-cases (env.flush_fails g.calls)) [
    | inl fails ↦ rw fails (record {
      fault = unflushed g.calls fails;
      same = s.kept.same;
      placed = s.inv.placed;
      unfinished = map (write_at g.write_slots) g.in_flight_slots;
      log = s.inv.log;
    })
    | inr flushed ↦ rw flushed (elim (Bool-cases (env.close_fails g.calls)) [
      | inl fails ↦ rw fails (record {
        fault = unclosed g.calls fails;
        same = s.kept.same;
        placed = s.inv.placed;
        unfinished = map (write_at g.write_slots) g.in_flight_slots;
        log = s.inv.log;
      })
      | inr shut ↦ rw shut (record {
        shut = refl;
        released = refl;
        whole =
            ap bytes_of (sym all_landed)
            ∙ sym (append-nil (bytes_of g.issued))
            ∙ sym (ap (◌++◌ (bytes_of g.issued)) s.emptied)
            ∙ s.kept.same;
        placed = subst (λ ws. Tiles 0 ws g.physical_size) all_landed s.inv.placed;
      })
    ])
  ]
    where
      all_landed : g.issued ≡ g.landed
      all_landed =
          s.inv.log
          ∙ ap (λ is. g.landed ++ map (write_at g.write_slots) is) s.quiet
          ∙ append-nil g.landed

  -- On an open sink that satisfies `Inv`, `close` always ends. If it returns, the sink is closed and
  -- its handle released, every write handed to the system was seen to complete, and these writes,
  -- which follow each other from the start of the file, hold all bytes that were given to the sink.
  -- It throws only where the sink is cancelled or the system fails a write, the flush or the close
  -- of the handle; what landed then is the first of the writes.
  pub close-Saved :
      (f : Sink) → Inv f → f.closed ≡ false → Ends (Saved f) (Stopped env f) (close env f)
  unfolding close wait_for_all_writes
  close-Saved f v open_file =
      if-Ends (Saved f) (Stopped env f) f.closed _ _ (λ shut. absurd (ground arith))
        (λ _.
          if-Ends (Saved f) (Stopped env f) (env.cancel_requested f.calls) _ _
            (λ c. record {
              fault = cancelled f.calls c;
              same = refl;
              placed = v.placed;
              unfinished = map (write_at f.write_slots) f.in_flight_slots;
              log = v.log;
            })
            (λ _.
              andthen-Ends (Settled f) (Stopped env f) (Saved f) (Stopped env f) _ _
                (andthen-Ends (Submitted f) (Stopped env f) (Settled f) (Stopped env f) _ _
                  (submit_active_write-Submitted env f v) (λ g s. s) settled)
                (λ g s. s) (λ g s. finish_close-Saved f g s)))
    where
      settled :
          (g : Sink) → Submitted f g → Ends (Settled f) (Stopped env f) (wait_for_all_writes env g)
      settled g s =
          Ends-weaken (Settled g) (Stopped env g) (Settled f) (Stopped env f) _
            (wait_all_loop-Settled (length g.in_flight_slots) g s.inv s.emptied (omega arith))
            (λ k t. record {
              inv = t.inv;
              kept = Kept-trans s.kept t.kept;
              quiet = t.quiet;
              emptied = t.emptied;
            })
            (λ k t. Stopped-after s.kept t)
