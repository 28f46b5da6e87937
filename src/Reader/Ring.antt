-- ===== src/Reader/Ring.antt =====
-- The ring of reads: which slots are in flight, and which part of the file each of them reads.
use sora_transport.Prelude.{
  ℕ, zero, suc, ◌+◌, ◌-◌, ◌*◌, ◌%◌, ◌≤◌, ◌<◌, ◌≡◌, ◌≢◌, ◌⊎◌, refl, sym, ap, ◌∙◌, true, false, some,
  List, [], ◌∷◌, length, arith, min, set, inl, inr,
}
use sora_transport.Reader.{Slot, Reader, queue_depth, slot_at, find_slot}

pub length-set : (xs : List Slot) (i : ℕ) (v : Slot) → length (set xs i v) ≡ length xs
length-set [] i v = refl
length-set (x ∷ xs) zero v = refl
length-set (x ∷ xs) (suc i) v = omega (arith, length-set xs i v)

pub slot_at-set_self :
    (xs : List Slot) (i : ℕ) (v : Slot) → i < length xs → slot_at (set xs i v) i ≡ v
slot_at-set_self [] i v h = absurd (omega arith)
slot_at-set_self (x ∷ xs) zero v h = refl
slot_at-set_self (x ∷ xs) (suc i) v h = slot_at-set_self xs i v (omega arith)

pub slot_at-set_ne :
    (xs : List Slot) (i j : ℕ) (v : Slot) → i ≢ j → slot_at (set xs i v) j ≡ slot_at xs j
slot_at-set_ne [] i j v h = refl
slot_at-set_ne (x ∷ xs) zero zero v h = absurd (h refl)
slot_at-set_ne (x ∷ xs) zero (suc j) v h = refl
slot_at-set_ne (x ∷ xs) (suc i) zero v h = refl
slot_at-set_ne (x ∷ xs) (suc i) (suc j) v h = slot_at-set_ne xs i j v (omega arith)

-- The slot `j` places after the next one to consume.
abbrev pub nth : Reader → ℕ → Slot
nth r j = slot_at r.slots ((r.next_slot_to_consume + j) % queue_depth)

-- The read of slot `j`, when reading has come to `offset`.
abbrev pub expected : Reader → ℕ → Slot
expected r j = record {
  offset = r.offset + j * r.chunk_size;
  requested_length = min r.chunk_size (r.size - (r.offset + j * r.chunk_size));
  in_flight = true;
  has_buffer = true;
}

-- The reads in flight are those of the next chunks, in order, and the other slots are free.
pub record Inv (r : Reader) : Type 0 where
  pub eight : length r.slots ≡ queue_depth
  pub chunked : 0 < r.chunk_size
  pub depth : r.in_flight_reads ≤ queue_depth
  pub consume_bound : r.next_slot_to_consume < queue_depth
  pub issue_next : r.next_slot_to_issue ≡ (r.next_slot_to_consume + r.in_flight_reads) % queue_depth
  pub within : r.offset ≤ r.size
  pub issued : r.next_issue_offset ≡ min r.size (r.offset + r.in_flight_reads * r.chunk_size)
  pub busy :
      (j : ℕ)
      → j < r.in_flight_reads
      → (nth r j ≡ expected r j) × (r.offset + j * r.chunk_size < r.size)
  pub free :
      (j : ℕ)
      → r.in_flight_reads ≤ j
      → j < queue_depth
      → ((nth r j).in_flight ≡ false) × ((nth r j).has_buffer ≡ false)

find_slot_hit :
    (rounds probe : ℕ) (slots : List Slot) (next : ℕ)
    → (slot_at slots ((next + probe) % queue_depth)).in_flight ≡ false
    → (slot_at slots ((next + probe) % queue_depth)).has_buffer ≡ false
    → find_slot (suc rounds) probe slots next ≡ some ((next + probe) % queue_depth)
unfolding find_slot
find_slot_hit rounds probe slots next f b = rw f (rw b refl)

-- The slot to issue next is the first one that is free.
pub find_slot_first :
    (r : Reader)
    → Inv r
    → r.in_flight_reads < queue_depth
    → find_slot queue_depth 0 r.slots r.next_slot_to_issue ≡ some r.next_slot_to_issue
find_slot_first r v h =
    let same : (r.next_slot_to_issue + 0) % queue_depth ≡ r.next_slot_to_issue =
      omega (arith, v.issue_next) in
    let free = v.free r.in_flight_reads (omega arith) h in
    let at : nth r r.in_flight_reads ≡ slot_at r.slots ((r.next_slot_to_issue + 0) % queue_depth) =
      ap (slot_at r.slots) (omega (arith, v.issue_next)) in
    find_slot_hit 7 0 r.slots r.next_slot_to_issue (sym (ap (λ s. s.in_flight) at) ∙ free.0)
      (sym (ap (λ s. s.has_buffer) at) ∙ free.1)
    ∙ ap some same

-- Two of the eight places after the next slot to consume are different slots.
pub place_ne :
    (c i j : ℕ)
    → i < queue_depth
    → j < queue_depth
    → i ≢ j
    → (c + i) % queue_depth ≢ (c + j) % queue_depth
place_ne c i j h k ne = omega arith

last_or_before : (j n : ℕ) → j < n + 1 → (j ≡ n) ⊎ (j < n)
last_or_before j n h = ground arith

-- A read of what is left, at most a chunk, was issued.
abbrev pub with_read : Reader → Reader
with_read r = record r {
  slots = set r.slots r.next_slot_to_issue (expected r r.in_flight_reads);
  next_slot_to_issue = (r.next_slot_to_issue + 1) % queue_depth;
  next_issue_offset = r.next_issue_offset + min r.chunk_size (r.size - r.next_issue_offset);
  in_flight_reads = r.in_flight_reads + 1;
}

nth-with_read_new :
    (r : Reader)
    → Inv r
    → r.in_flight_reads < queue_depth
    → nth (with_read r) r.in_flight_reads ≡ expected r r.in_flight_reads
nth-with_read_new r v h =
    ap (slot_at (with_read r).slots) (sym v.issue_next)
    ∙ slot_at-set_self r.slots r.next_slot_to_issue (expected r r.in_flight_reads)
        (omega (arith, v.issue_next, v.eight))

nth-with_read_old :
    (r : Reader) (j : ℕ)
    → Inv r
    → r.in_flight_reads < queue_depth
    → j < queue_depth
    → j ≢ r.in_flight_reads
    → nth (with_read r) j ≡ nth r j
nth-with_read_old r j v h k ne =
    slot_at-set_ne r.slots r.next_slot_to_issue ((r.next_slot_to_consume + j) % queue_depth)
      (expected r r.in_flight_reads)
      (λ e.
        place_ne r.next_slot_to_consume r.in_flight_reads j h k (λ d. ne (sym d))
          (sym v.issue_next ∙ e))

-- A read was issued: the ring has one more.
pub with_read-Inv :
    (r : Reader)
    → Inv r
    → r.in_flight_reads < queue_depth
    → r.next_issue_offset < r.size
    → Inv (with_read r)
with_read-Inv r v h k = record {
  eight = length-set r.slots r.next_slot_to_issue (expected r r.in_flight_reads) ∙ v.eight;
  chunked = v.chunked;
  depth = omega arith;
  consume_bound = v.consume_bound;
  issue_next = omega (arith, v.issue_next);
  within = v.within;
  issued = omega (arith, v.issued);
  busy = λ j l. elim (last_or_before j r.in_flight_reads l) [
    | inl e ↦ (
      ap (nth (with_read r)) e ∙ nth-with_read_new r v h ∙ ap (expected r) (sym e),
      rw e (omega (arith, v.issued)),
    )
    | inr e ↦ (
      nth-with_read_old r j v h (omega (arith)) (λ d. omega (arith)) ∙ (v.busy j e).0,
      (v.busy j e).1,
    )
  ];
  free = λ j l m. rw (nth-with_read_old r j v h m (λ d. omega arith)) (v.free j (omega arith) m);
}
