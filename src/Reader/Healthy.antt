-- ===== src/Reader/Healthy.antt =====
-- A system that serves every read: every call that is not at the end hands out its chunk.
use sora_transport.Prelude.{
  ℕ, zero, suc, ◌+◌, ◌-◌, ◌%◌, ◌^◌, ◌<◌, ◌≡◌, ◌⊎◌, refl, ap, ◌∙◌, Bool, true, false, ◌||◌, List, [],
  ◌∷◌, arith, All, min, set, Bool-cases, inl, inr, ◌==◌, ◌!=◌, ltb, leb,
}
use sora_transport.Prelude.Result.{Result, ok}
use sora_transport.Reader.{
  Slot, empty_slot, Reader, Chunk, Env, completed, ReadError, queue_depth, init, slot_at, issue_at,
  issue_next_read, no_slots, accept, finish, consume, read_next_chunk, dword,
}
use sora_transport.Reader.Ring.{Inv, expected, with_read, with_read-Inv, find_slot_first}
use sora_transport.Reader.Consume.{without_read, without_read-Inv}
use sora_transport.Reader.Reading.{issue_next_read_ok, next_chunk, Advanced, read_next_chunk_sound}

slot_at-All : (xs : List Slot) (i : ℕ) → All (λ x. x ≡ empty_slot) xs → slot_at xs i ≡ empty_slot
slot_at-All [] i h = refl
slot_at-All (x ∷ xs) zero h = h.0
slot_at-All (x ∷ xs) (suc i) h = slot_at-All xs i h.1

slot_at-no_slots : (i : ℕ) → slot_at no_slots i ≡ empty_slot
slot_at-no_slots i =
    slot_at-All no_slots i (refl, (refl, (refl, (refl, (refl, (refl, (refl, (refl, tt))))))))

pub init-Inv : (size buffer_size : ℕ) → Inv (init size buffer_size)
unfolding init
init-Inv size buffer_size = record {
  eight = refl;
  chunked = omega arith;
  depth = omega arith;
  consume_bound = omega arith;
  issue_next = refl;
  within = omega arith;
  issued = omega arith;
  busy = λ j l. absurd (omega arith);
  free = λ j l h. rw (slot_at-no_slots ((0 + j) % queue_depth)) (refl, refl);
}

-- Every buffer is there, every read is issued, and every read gives all the bytes it asked for.
pub record IsHealthy (env : Env) : Type 0 where
  pub allocates : (o n : ℕ) → env.alloc_fails o n ≡ false
  pub issues : (o n : ℕ) → env.issue_fails o n ≡ false
  pub completes : (o n : ℕ) → env.complete o n ≡ completed n

pub record IsOpen (r : Reader) : Type 0 where
  pub inv : Inv r
  pub not_cancelled : r.cancel_requested ≡ false
  pub valid : r.handle_valid ≡ true
  pub small_chunks : r.chunk_size < 2 ^ 32

pub issue_next_read_total :
    (env : Env) (r : Reader)
    → IsHealthy env
    → IsOpen r
    → ((b : Bool) × (issue_next_read env r ≡ (r, ok b)))
      ⊎ ((b : Bool) × (issue_next_read env r ≡ (with_read r, ok b))
          × (r.in_flight_reads < queue_depth)
          × (r.next_issue_offset < r.size))
unfolding issue_next_read issue_at
issue_next_read_total env r w v =
    elim (Bool-cases (leb r.size r.next_issue_offset || leb queue_depth r.in_flight_reads)) [
      | inl full ↦ inl (false, ground (arith, v.not_cancelled, full))
      | inr room ↦ inr (
        true,
        ground (
          arith,
          v.not_cancelled,
          room,
          v.inv.issued,
          find_slot_first r v.inv (ground arith),
          w.allocates r.next_issue_offset (min r.chunk_size (r.size - r.next_issue_offset)),
          w.issues r.next_issue_offset (dword (min r.chunk_size (r.size - r.next_issue_offset))),
        ),
        ground (arith, room),
        ground (arith, room),
      )
    ]

-- What a call leaves as it was.
abbrev pub Keeps : Reader → Reader → Type 0
Keeps r s = (s.cancel_requested ≡ r.cancel_requested) × (s.handle_valid ≡ r.handle_valid)

-- The call returns, and the reader is still open.
abbrev pub Returns : Reader → Reader × Result ReadError Chunk → Type 0
Returns r x = (t : Reader) × (c : Chunk) × (x ≡ (t, ok c)) × Keeps r t

accept_total :
    (env : Env) (slot : Slot) (r : Reader)
    → IsHealthy env
    → IsOpen r
    → Returns r (accept env slot r)
unfolding accept
accept_total env slot r w v =
    let chunk : Chunk = record {
      offset = slot.offset;
      length = slot.requested_length;
      is_eof = leb r.size r.offset;
    } in
    elim (Bool-cases (ltb r.offset r.size)) [
      | inl more ↦ elim (issue_next_read_total env r w v) [
        | inl a ↦ (r, chunk, ground (arith, more, a), (refl, refl))
        | inr a ↦ (with_read r, chunk, ground (arith, more, a), (refl, refl))
      ]
      | inr last ↦ (r, chunk, ground (arith, last), (refl, refl))
    ]

dword_small : (n : ℕ) → n < 2 ^ 32 → dword n ≡ n
dword_small n h = omega (arith, h)

first_slot :
    (r : Reader)
    → Inv r
    → 0 < r.in_flight_reads
    → slot_at r.slots r.next_slot_to_consume ≡ expected r 0
first_slot r v h = ap (slot_at r.slots) (omega (arith, v.consume_bound)) ∙ (v.busy 0 h).0

finish_total :
    (env : Env) (r : Reader) (n : ℕ)
    → IsHealthy env
    → IsOpen r
    → 0 < r.in_flight_reads
    → n ≡ (slot_at r.slots r.next_slot_to_consume).requested_length
    → Returns r (finish env r.next_slot_to_consume (completed n) r)
unfolding finish
finish_total env r n w v h e =
    let slot = slot_at r.slots r.next_slot_to_consume in
    let s : Reader = record r {
      slots = set r.slots r.next_slot_to_consume empty_slot;
      next_slot_to_consume = (r.next_slot_to_consume + 1) % queue_depth;
      in_flight_reads = r.in_flight_reads - 1;
      offset = slot.offset + n;
    } in
    let same : s ≡ without_read r = ground (arith, first_slot r v.inv h, e) in
    let still : IsOpen s = record {
      inv = rw same (without_read-Inv r (r.in_flight_reads - 1) v.inv (omega arith));
      not_cancelled = v.not_cancelled;
      valid = v.valid;
      small_chunks = v.small_chunks;
    } in
    let full : n != slot.requested_length ≡ false = ground (arith, e) in
    rw full (accept_total env slot s w still)

consume_total :
    (env : Env) (r : Reader)
    → IsHealthy env
    → IsOpen r
    → 0 < r.in_flight_reads
    → Returns r (consume env r)
unfolding consume
consume_total env r w v h =
    let slot = slot_at r.slots r.next_slot_to_consume in
    let first = first_slot r v.inv h in
    let small : dword slot.requested_length ≡ slot.requested_length =
      dword_small slot.requested_length (ground (arith, first, v.small_chunks)) in
    let busy : slot.in_flight ≡ true = ap (λ x. x.in_flight) first in
    rw busy (
      rw (w.completes slot.offset (dword slot.requested_length))
        (finish_total env r (dword slot.requested_length) w v h small))

Returns-along :
    (r : Reader) (x y : Reader × Result ReadError Chunk) → x ≡ y → Returns r y → Returns r x
Returns-along r x y e v = (v.0, v.1, e ∙ v.2, v.3)

pub with_read-IsOpen :
    (r : Reader)
    → IsOpen r
    → r.in_flight_reads < queue_depth
    → r.next_issue_offset < r.size
    → IsOpen (with_read r)
with_read-IsOpen r v h k = record {
  inv = with_read-Inv r v.inv h k;
  not_cancelled = v.not_cancelled;
  valid = v.valid;
  small_chunks = v.small_chunks;
}

read_next_chunk-Returns :
    (env : Env) (r : Reader)
    → IsHealthy env
    → IsOpen r
    → r.offset < r.size
    → Returns r (read_next_chunk env r)
unfolding read_next_chunk
read_next_chunk-Returns env r w v h = elim (Bool-cases (r.in_flight_reads == 0)) [
  | inl idle ↦ elim (issue_next_read_total env r w v) [
    | inl a ↦
        absurd (ground (arith, idle, h, v.inv.issued, issue_next_read_ok env r r a.0 v.inv a.1))
    | inr a ↦
        Returns-along r (read_next_chunk env r) (consume env (with_read r))
          (ground (arith, v.not_cancelled, v.valid, h, idle, a))
          (consume_total env (with_read r) w (with_read-IsOpen r v a.2 a.3) (omega arith))
  ]
  | inr busy ↦
      Returns-along r (read_next_chunk env r) (consume env r)
        (ground (arith, v.not_cancelled, v.valid, h, busy)) (consume_total env r w v (ground arith))
]

-- When every read is served, a call that is not at the end returns, and hands out the next chunk.
pub read_next_chunk_total :
    (env : Env) (r : Reader)
    → IsHealthy env
    → IsOpen r
    → r.offset < r.size
    → (t : Reader) × (read_next_chunk env r ≡ (t, ok (next_chunk r))) × IsOpen t × Advanced r t
unfolding read_next_chunk
read_next_chunk_total env r w v h =
    let a = read_next_chunk-Returns env r w v h in
    let b = read_next_chunk_sound env r a.0 a.1 v.inv h a.2 in
    (
      a.0,
      a.2 ∙ ap (λ c. (a.0, ok c)) b.0,
      record {
        inv = b.1.inv;
        not_cancelled = a.3.0 ∙ v.not_cancelled;
        valid = a.3.1 ∙ v.valid;
        small_chunks = rw b.1.same_chunk_size v.small_chunks;
      },
      b.1,
    )
