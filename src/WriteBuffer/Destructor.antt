-- ===== src/WriteBuffer/Destructor.antt =====
-- What the destructor does with bytes that are still buffered.
use sora_transport.Prelude.{
  ℕ, ◌-◌, ◌*◌, min, take, zero, suc, ◌<◌, ◌≡◌, Bool, true, false, some, List, [], ◌∷◌, length,
  arith, flat, append-nil, flat-append,
}
use sora_transport.WriteBuffer.{
  WriteBuffer, Outcome, returned, threw, out_of_fuel, do_flush, flush, destroy, fill, flush_if_due,
  write_round, go_on, write_loop, write,
}
use sora_transport.WriteBuffer.Content.{content}

module _ (throws : ℕ → List ℕ → Bool) (clock : ℕ → ℕ) where
  -- Before the first flush the destructor sends what is buffered, if the callback takes it.
  pub destroy_unflushed :
      (b : WriteBuffer)
      → b.flushed_in_dtor ≡ false
      → throws b.calls b.buffered ≡ false
      → (flat (destroy (some throws) clock b).sent ≡ content b)
        × ((destroy (some throws) clock b).buffered ≡ [])
  unfolding destroy do_flush
  destroy_unflushed b e t =
      ground (
        arith,
        flat-append b.sent (b.buffered ∷ []),
        append-nil b.buffered,
        append-nil (flat b.sent),
      )

  do_flush_flag :
      (b : WriteBuffer)
      → b.flushed_in_dtor ≡ true
      → (do_flush (some throws) clock b).0.flushed_in_dtor ≡ true
  unfolding do_flush
  do_flush_flag b e = ground arith

  write_round_flag :
      (b : WriteBuffer) (bytes : List ℕ)
      → b.flushed_in_dtor ≡ true
      → (write_round (some throws) clock b bytes).0.0.flushed_in_dtor ≡ true
  unfolding write_round flush_if_due fill
  write_round_flag b bytes e = ground (
    arith,
    do_flush_flag b,
    do_flush_flag (filled (min (b.capacity - length b.buffered) (length bytes))),
  )
    where
      filled : ℕ → WriteBuffer
      filled n = fill (some throws) clock b (clock b.readings) (take n bytes)

  write_loop_flag :
      (fuel : ℕ) (b : WriteBuffer) (bytes : List ℕ)
      → b.flushed_in_dtor ≡ true
      → (write_loop (some throws) clock fuel b bytes).0.flushed_in_dtor ≡ true
  unfolding write_loop
  write_loop_flag fuel b [] e = e
  write_loop_flag zero b (x ∷ bytes) e = e
  write_loop_flag (suc fuel) b (x ∷ bytes) e =
      go (write_round (some throws) clock b (x ∷ bytes)) (write_round_flag b (x ∷ bytes) e)
        (write_loop_flag fuel)
    where
      go :
          (r : (WriteBuffer × Outcome) × List ℕ)
          → r.0.0.flushed_in_dtor ≡ true
          → ((c : WriteBuffer) (rest : List ℕ)
              → c.flushed_in_dtor ≡ true
              → (write_loop (some throws) clock fuel c rest).0.flushed_in_dtor ≡ true)
          → (go_on (some throws) clock (write_loop (some throws) clock fuel) r).0.flushed_in_dtor
            ≡ true
      go ((c, returned), rest) h ih = ih c rest h
      go ((c, threw), rest) h ih = h
      go ((c, out_of_fuel), rest) h ih = h

  flush_sets :
      (b : WriteBuffer)
      → 0 < length b.buffered
      → (flush (some throws) clock b).1 ≡ returned
      → (do_flush (some throws) clock b).0.flushed_in_dtor ≡ true
  unfolding flush do_flush
  flush_sets b h e = ground arith

  -- After a flush that sent something, bytes written later and still buffered are dropped by the
  -- destructor: it changes nothing.
  pub destroy_after_flush :
      (b : WriteBuffer) (bytes : List ℕ)
      → 0 < length b.buffered
      → (flush (some throws) clock b).1 ≡ returned
      → let c = (write (some throws) clock (flush (some throws) clock b).0 bytes).0 in
        destroy (some throws) clock c ≡ c
  unfolding destroy write flush
  destroy_after_flush b bytes h e = ground (
    arith,
    write_loop_flag (2 * length bytes) (do_flush (some throws) clock b).0 bytes (flush_sets b h e),
  )
