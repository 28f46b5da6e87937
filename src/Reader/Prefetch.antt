-- ===== src/Reader/Prefetch.antt =====
-- `start_prefetch` over the ring.
use sora_transport.Prelude.{
  ℕ, zero, suc, ◌+◌, ◌-◌, ◌≡◌, refl, ◌∙◌, Bool, true, false, leb, arith, Bool-cases, inl, inr,
}
use sora_transport.Prelude.Result.{Result, ok, err}
use sora_transport.Reader.{
  Reader, Env, ReadError, queue_depth, issue_next_read, primed, prime_loop, prime_prefetch_window,
  start_prefetch,
}
use sora_transport.Reader.Ring.{Inv}
use sora_transport.Reader.Reading.{issue_next_read_keeps}

-- The ring is in order, and reading is where it was.
pub record Prefetched (r s : Reader) : Type 0 where
  pub inv : Inv s
  pub same_size : s.size ≡ r.size
  pub same_chunk_size : s.chunk_size ≡ r.chunk_size
  pub same_offset : s.offset ≡ r.offset

module _ (env : Env) where
  primed-Prefetched :
      (more : Reader → Reader × Result ReadError (Unit {0})) (enough : Bool)
      (x : Reader × Result ReadError Bool) (r s : Reader)
      → ((t : Reader) (b : Bool) → x ≡ (t, ok b) → Prefetched r t)
      → ((t : Reader) → Prefetched r t → more t ≡ (s, ok tt) → Prefetched r s)
      → primed env more enough x ≡ (s, ok tt)
      → Prefetched r s
  primed-Prefetched more enough (t, err e) r s h k e2 = absurd (ground (arith, e2))
  primed-Prefetched more enough (t, ok false) r s h k e = ground (arith, e, h t false refl)
  primed-Prefetched more true (t, ok true) r s h k e = ground (arith, e, h t true refl)
  primed-Prefetched more false (t, ok true) r s h k e = k t (h t true refl) e

  prime_loop-Prefetched :
      (fuel issued max_bytes : ℕ) (r s : Reader)
      → Inv r
      → prime_loop env fuel issued max_bytes r ≡ (s, ok tt)
      → Prefetched r s
  unfolding prime_loop
  prime_loop-Prefetched zero issued max_bytes r s v e = ground (arith, e)
  prime_loop-Prefetched (suc fuel) issued max_bytes r s v e =
      elim (Bool-cases (leb queue_depth r.in_flight_reads)) [
        | inl full ↦ ground (arith, e, full)
        | inr room ↦
            let next = issue_next_read env r in
            let total = issued + (next.0.next_issue_offset - r.next_issue_offset) in
            primed-Prefetched (prime_loop env fuel total max_bytes) (leb max_bytes total) next r s
              (λ t b i.
                let k = issue_next_read_keeps env r t b v i in
                record { inv = k.0; same_size = k.1; same_chunk_size = k.2; same_offset = k.3 })
              (λ t p m.
                let q = prime_loop-Prefetched fuel total max_bytes t s p.inv m in
                record {
                  inv = q.inv;
                  same_size = q.same_size ∙ p.same_size;
                  same_chunk_size = q.same_chunk_size ∙ p.same_chunk_size;
                  same_offset = q.same_offset ∙ p.same_offset;
                })
              (ground (arith, e, room))
      ]

  window-Prefetched :
      (max_bytes : ℕ) (r s : Reader)
      → Inv r
      → prime_prefetch_window env max_bytes r ≡ (s, ok tt)
      → Prefetched r s
  unfolding prime_prefetch_window
  window-Prefetched max_bytes r s v e =
      ground (arith, e, v, prime_loop-Prefetched queue_depth 0 max_bytes r s v)

  -- With the ring in order, a call of `start_prefetch` that returns leaves it in order, and reading
  -- goes on where it was, whatever the operating system answered and however many bytes may be read
  -- ahead.
  pub start_prefetch-Prefetched :
      (max_bytes : ℕ) (r s : Reader)
      → Inv r
      → start_prefetch env max_bytes r ≡ (s, ok tt)
      → Prefetched r s
  unfolding start_prefetch
  start_prefetch-Prefetched max_bytes r s v e =
      let begun : Reader = record r { prefetch_started = true } in
      let begun_inv : Inv begun = record {
        eight = v.eight;
        chunked = v.chunked;
        depth = v.depth;
        consume_bound = v.consume_bound;
        issue_next = v.issue_next;
        within = v.within;
        issued = v.issued;
        busy = v.busy;
        free = v.free;
      } in
      let then_is = window-Prefetched max_bytes begun s begun_inv in
      elim (Bool-cases r.cancel_requested) [
        | inl c ↦ absurd (ground (arith, e, c))
        | inr c ↦ elim (Bool-cases r.handle_valid) [
          | inr h ↦ absurd (ground (arith, e, c, h))
          | inl h ↦ elim (Bool-cases r.prefetch_started) [
            | inl p ↦ ground (arith, e, c, h, p, v)
            | inr p ↦
                let w = then_is (ground (arith, e, c, h, p)) in
                record {
                  inv = w.inv;
                  same_size = w.same_size;
                  same_chunk_size = w.same_chunk_size;
                  same_offset = w.same_offset;
                }
          ]
        ]
      ]
