-- ===== src/Reader/Reading.antt =====
-- `read_next_chunk` over the ring: the chunks of the file come out in order.
use sora_transport.Prelude.{
  ◌+◌, ◌-◌, ◌%◌, ◌≤◌, ◌<◌, ◌≡◌, ◌⊎◌, refl, ap, ◌∙◌, Bool, false, ◌||◌, arith, min, set, Bool-cases,
  inl, inr, ◌==◌, ◌!=◌, ltb, leb,
}
use sora_transport.Prelude.Result.{Result, ok, err}
use sora_transport.Reader.{
  Slot, empty_slot, Reader, Chunk, Env, Completion, completed, failed, ReadError, queue_depth,
  slot_at, issue_at, issue_next_read, accept, finish, consume, consume_issued, read_next_chunk,
  hand_out, dword,
}
use sora_transport.Reader.Ring.{Inv, expected, with_read, with_read-Inv, find_slot_first}
use sora_transport.Reader.Consume.{without_read, without_read-Inv}

-- An issue that did not fail.
issue_at_ok :
    (env : Env) (r s : Reader) (b : Bool)
    → Inv r
    → r.next_issue_offset < r.size
    → issue_at env r.next_slot_to_issue (min r.chunk_size (r.size - r.next_issue_offset)) r
      ≡ (s, ok b)
    → s ≡ with_read r
unfolding issue_at
issue_at_ok env r s b v h e = ground (arith, v.issued)

-- A call that did not fail has issued the next read, unless there is nothing to issue.
pub issue_next_read_ok :
    (env : Env) (r s : Reader) (b : Bool)
    → Inv r
    → issue_next_read env r ≡ (s, ok b)
    → ((s ≡ r) × (r.size ≤ r.next_issue_offset))
      ⊎ ((s ≡ r) × (queue_depth ≤ r.in_flight_reads))
      ⊎ ((s ≡ with_read r) × (r.next_issue_offset < r.size) × (r.in_flight_reads < queue_depth))
unfolding issue_next_read
issue_next_read_ok env r s b v e =
    elim (Bool-cases (leb r.size r.next_issue_offset || leb queue_depth r.in_flight_reads)) [
      | inl full ↦ ground (arith, e, full)
      | inr room ↦
          ground (arith, e, room, find_slot_first r v (ground arith), issue_at_ok env r s b v)
    ]

pub issue_next_read_keeps :
    (env : Env) (r s : Reader) (b : Bool)
    → Inv r
    → issue_next_read env r ≡ (s, ok b)
    → Inv s × (s.size ≡ r.size) × (s.chunk_size ≡ r.chunk_size) × (s.offset ≡ r.offset)
issue_next_read_keeps env r s b v e = elim (issue_next_read_ok env r s b v e) [
  | inl a ↦ rw a.0 (v, refl, refl, refl)
  | inr (inl a) ↦ rw a.0 (v, refl, refl, refl)
  | inr (inr a) ↦ rw a.0 (with_read-Inv r v a.2 a.1, refl, refl, refl)
]

hand_out_ok :
    (env : Env) (c d : Chunk) (x : Reader × Result ReadError Bool) (t : Reader)
    → hand_out env c x ≡ (t, ok d)
    → (d ≡ c) × ((b : Bool) × (x ≡ (t, ok b)))
hand_out_ok env c d (r, err e) t h = absurd (ground (arith, h))
hand_out_ok env c d (r, ok b) t h = (ground (arith, h), (b, ground (arith, h)))

-- What the read of a healthy call hands out.
abbrev pub next_chunk : Reader → Chunk
next_chunk r = record {
  offset = r.offset;
  length = min r.chunk_size (r.size - r.offset);
  is_eof = leb r.size (r.offset + min r.chunk_size (r.size - r.offset));
}

-- The reader after a chunk was handed out, whatever the call issues then.
pub record Advanced (r s : Reader) : Type 0 where
  pub inv : Inv s
  pub same_size : s.size ≡ r.size
  pub same_chunk_size : s.chunk_size ≡ r.chunk_size
  pub advanced : s.offset ≡ r.offset + min r.chunk_size (r.size - r.offset)

accept_ok :
    (env : Env) (r s t : Reader) (slot : Slot) (chunk : Chunk)
    → Inv s
    → slot ≡ expected r 0
    → s ≡ without_read r
    → accept env slot s ≡ (t, ok chunk)
    → (chunk ≡ next_chunk r) × Advanced r t
unfolding accept
accept_ok env r s t slot chunk v a b e = elim (Bool-cases (ltb s.offset s.size)) [
  | inl more ↦
      let x =
        hand_out_ok env
          (record {
            offset = slot.offset;
            length = slot.requested_length;
            is_eof = leb s.size s.offset;
          })
          chunk (issue_next_read env s) t (ground (arith, e, more)) in
      let k = issue_next_read_keeps env s t x.1.0 v x.1.1 in ground (arith, a, b, k, x)
  | inr last ↦ ground (arith, e, last)
]

finish_ok :
    (env : Env) (r t : Reader) (c : Completion) (chunk : Chunk)
    → Inv r
    → 0 < r.in_flight_reads
    → finish env r.next_slot_to_consume c r ≡ (t, ok chunk)
    → (chunk ≡ next_chunk r) × Advanced r t
unfolding finish
finish_ok env r t (failed aborted) chunk v h e = absurd (ground (arith, e))
finish_ok env r t (completed n) chunk v h e =
    let slot = slot_at r.slots r.next_slot_to_consume in
    let first : slot ≡ expected r 0 =
      ap (slot_at r.slots) (omega (arith, v.consume_bound)) ∙ (v.busy 0 h).0 in
    elim (Bool-cases (n != slot.requested_length)) [
      | inl short ↦ absurd (ground (arith, e, short))
      | inr full ↦
          let n_is : n ≡ min r.chunk_size (r.size - r.offset) = ground (arith, full, first) in
          let s : Reader = record r {
            slots = set r.slots r.next_slot_to_consume empty_slot;
            next_slot_to_consume = (r.next_slot_to_consume + 1) % queue_depth;
            in_flight_reads = r.in_flight_reads - 1;
            offset = slot.offset + n;
          } in
          let same : s ≡ without_read r = ground (arith, n_is, first) in
          accept_ok env r s t slot chunk
            (rw same (without_read-Inv r (r.in_flight_reads - 1) v (omega arith))) first same
            (ground (arith, e, full))
    ]

consume_ok :
    (env : Env) (r t : Reader) (chunk : Chunk)
    → Inv r
    → 0 < r.in_flight_reads
    → consume env r ≡ (t, ok chunk)
    → (chunk ≡ next_chunk r) × Advanced r t
unfolding consume
consume_ok env r t chunk v h e =
    let slot = slot_at r.slots r.next_slot_to_consume in
    ground
      (arith, finish_ok env r t (env.complete slot.offset (dword slot.requested_length)) chunk v h)

consume_issued_ok :
    (env : Env) (r t : Reader) (x : Reader × Result ReadError Bool) (chunk : Chunk)
    → ((s : Reader) (b : Bool)
        → x ≡ (s, ok b)
        → Inv s
          × (0 < s.in_flight_reads)
          × (next_chunk s ≡ next_chunk r)
          × (s.size ≡ r.size)
          × (s.chunk_size ≡ r.chunk_size)
          × (s.offset ≡ r.offset))
    → consume_issued env x ≡ (t, ok chunk)
    → (chunk ≡ next_chunk r) × Advanced r t
consume_issued_ok env r t (s, err er) chunk v e = absurd (ground (arith, e))
consume_issued_ok env r t (s, ok b) chunk v e =
    let k = v s b refl in ground (arith, consume_ok env s t chunk, e, k)

-- With the ring in order, and whatever the operating system answered, a call that returns while the
-- file is not at its end hands out the next chunk of the file, and the next call goes on after it.
pub read_next_chunk_sound :
    (env : Env) (r t : Reader) (chunk : Chunk)
    → Inv r
    → r.offset < r.size
    → read_next_chunk env r ≡ (t, ok chunk)
    → (chunk ≡ next_chunk r) × Advanced r t
unfolding read_next_chunk
read_next_chunk_sound env r t chunk v h e = elim (Bool-cases (r.in_flight_reads == 0)) [
  | inl idle ↦
      consume_issued_ok env r t (issue_next_read env r) chunk
        (λ s b i. elim (issue_next_read_ok env r s b v i) [
          | inl a ↦ absurd (ground (arith, v.issued, idle, a))
          | inr (inl a) ↦ absurd (ground (arith, idle, a))
          | inr (inr a) ↦ rw a.0 (with_read-Inv r v a.2 a.1, omega arith, refl, refl, refl, refl)
        ])
        (ground (arith, e, idle))
  | inr busy ↦
      consume_issued_ok env r t (r, ok false) chunk (λ s b i. ground (arith, i, busy))
        (ground (arith, e, busy))
]
