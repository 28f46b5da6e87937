-- ===== src/Reader/Consume.antt =====
-- A chunk is handed out: the ring has one read less.
use sora_transport.Prelude.{
  ℕ, ◌+◌, ◌-◌, ◌*◌, ◌%◌, ◌≤◌, ◌<◌, ◌≡◌, ◌⊎◌, refl, sym, ap, ◌∙◌, arith, min, set, inl, inr,
}
use sora_transport.Reader.{empty_slot, Reader, queue_depth, slot_at}
use sora_transport.Reader.Ring.{Inv, nth, expected, length-set, slot_at-set_self, slot_at-set_ne}

abbrev pub without_read : Reader → Reader
without_read r = record r {
  slots = set r.slots r.next_slot_to_consume empty_slot;
  next_slot_to_consume = (r.next_slot_to_consume + 1) % queue_depth;
  in_flight_reads = r.in_flight_reads - 1;
  offset = r.offset + min r.chunk_size (r.size - r.offset);
}

nth-without_read :
    (r : Reader) (j : ℕ) → Inv r → j + 1 < queue_depth → nth (without_read r) j ≡ nth r (j + 1)
nth-without_read r j v h =
    slot_at-set_ne r.slots r.next_slot_to_consume
      (((r.next_slot_to_consume + 1) % queue_depth + j) % queue_depth) empty_slot
      (λ e. absurd (omega (arith, v.consume_bound)))
    ∙ ap (slot_at r.slots) (omega arith)

nth-without_read_last : (r : Reader) (j : ℕ) → Inv r → j ≡ 7 → nth (without_read r) j ≡ empty_slot
nth-without_read_last r j v h =
    ap (slot_at (without_read r).slots) (omega (arith, v.consume_bound))
    ∙ slot_at-set_self r.slots r.next_slot_to_consume empty_slot
        (omega (arith, v.consume_bound, v.eight))

last_place : (j : ℕ) → j < queue_depth → (j ≡ 7) ⊎ (j + 1 < queue_depth)
last_place j h = ground arith

advance : (o s c j : ℕ) → o + (j + 1) * c < s → o + min c (s - o) + j * c ≡ o + (j + 1) * c
advance o s c j h = omega arith

advance_issued : (o s c m : ℕ) → o ≤ s → min s (o + (m + 1) * c) ≡ min s (o + min c (s - o) + m * c)
advance_issued o s c m h = omega arith

expected-without_read :
    (r : Reader) (j : ℕ)
    → Inv r
    → r.offset + (j + 1) * r.chunk_size < r.size
    → expected (without_read r) j ≡ expected r (j + 1)
expected-without_read r j v h = rw (advance r.offset r.size r.chunk_size j h) refl

pub without_read-Inv :
    (r : Reader) (m : ℕ) → Inv r → r.in_flight_reads ≡ m + 1 → Inv (without_read r)
without_read-Inv r m v e = record {
  eight = length-set r.slots r.next_slot_to_consume empty_slot ∙ v.eight;
  chunked = v.chunked;
  depth = omega (arith, v.depth);
  consume_bound = omega arith;
  issue_next = omega (arith, v.issue_next);
  within = omega (arith, v.within);
  issued =
      v.issued
      ∙ ap (λ n. min r.size (r.offset + n * r.chunk_size)) e
      ∙ advance_issued r.offset r.size r.chunk_size m v.within
      ∙ ap (λ n. min r.size (r.offset + min r.chunk_size (r.size - r.offset) + n * r.chunk_size))
          (omega arith);
  busy = λ j l. (
    nth-without_read r j v (omega (arith, v.depth))
        ∙ (v.busy (j + 1) (omega arith)).0
        ∙ sym (expected-without_read r j v (v.busy (j + 1) (omega arith)).1),
    rw (advance r.offset r.size r.chunk_size j (v.busy (j + 1) (omega arith)).1)
        (v.busy (j + 1) (omega arith)).1,
  );
  free = λ j l h. elim (last_place j h) [
    | inl d ↦ rw (nth-without_read_last r j v d) (refl, refl)
    | inr d ↦ rw (nth-without_read r j v d) (v.free (j + 1) (omega arith) d)
  ];
}
