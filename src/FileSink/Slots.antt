-- ===== src/FileSink/Slots.antt =====
-- Each slot of a `FileByteSink` is active, available or in flight, in an order that only turns
-- round; nothing that is in flight is written over.
use sora_transport.Prelude.{
  ℕ, zero, suc, ◌+◌, ◌≤◌, ◌<◌, ◌≡◌, ◌≢◌, refl, sym, ap, ◌∙◌, subst, true, false, List, [], ◌∷◌,
  ◌++◌, map, length, All, arith, append-nil, append_assoc, length-set, get_or-set_ne, Distinct, set,
  max,
}
use sora_transport.FileSink.{
  Slot, FileWrite, Sink, slot_at, active_slot, empty_slot, empty_slots, indices, open_sink,
}

-- The write that a slot in flight stands for.
abbrev pub write_at : List Slot → ℕ → FileWrite
write_at slots i = record { offset = (slot_at slots i).offset; bytes = (slot_at slots i).bytes }

abbrev pub bytes_of : List FileWrite → List ℕ
bytes_of [] = []
bytes_of (w ∷ ws) = w.bytes ++ bytes_of ws

-- The writes follow each other without gap or overlap, from `start` to `end`.
abbrev pub Tiles : ℕ → List FileWrite → ℕ → Type 0
Tiles start [] end = start ≡ end
Tiles start (w ∷ ws) end = (w.offset ≡ start) × Tiles (start + length w.bytes) ws end

-- What was handed to the system and what waits in the active slot.
abbrev pub content : Sink → List ℕ
content f = bytes_of f.issued ++ (active_slot f).bytes

-- The slots in the order in which they come to be active.
abbrev pub layout : Sink → List ℕ
layout f = f.active_slot_index ∷ f.available_slots ++ f.in_flight_slots

abbrev pub IsIdle : List Slot → ℕ → Type 0
IsIdle slots i = (slot_at slots i).in_flight ≡ false

pub record Inv (f : Sink) : Type 0 where
  pub has_room : 0 < f.write_buffer_capacity
  pub some_ops : 0 < f.max_in_flight_write_ops
  pub fits : length (active_slot f).bytes ≤ f.write_buffer_capacity
  pub distinct : Distinct (layout f)
  pub in_range : All (λ i. i < length f.write_slots) (layout f)
  pub count : length f.available_slots + length f.in_flight_slots ≡ f.max_in_flight_write_ops
  pub idle : All (IsIdle f.write_slots) (f.active_slot_index ∷ f.available_slots)
  pub log : f.issued ≡ f.landed ++ map (write_at f.write_slots) f.in_flight_slots
  pub placed : Tiles 0 f.issued f.physical_size

module _ {ℓ} {B : Type ℓ} (g : Slot → B) where
  -- A slot that is written over is none of the others.
  pub map-set :
      (slots : List Slot) (i : ℕ) (s : Slot) (is : List ℕ)
      → All (λ j. i ≢ j) is
      → map (λ j. g (slot_at (set slots i s) j)) is ≡ map (λ j. g (slot_at slots j)) is
  map-set slots i s [] h = refl
  map-set slots i s (j ∷ is) h =
      rw (get_or-set_ne slots i j s empty_slot h.0, map-set slots i s is h.1) refl

pub IsIdle-set :
    (slots : List Slot) (i : ℕ) (s : Slot) (is : List ℕ)
    → All (λ j. i ≢ j) is
    → All (IsIdle slots) is
    → All (IsIdle (set slots i s)) is
IsIdle-set slots i s [] h k = tt
IsIdle-set slots i s (j ∷ is) h k = (
  ap (λ t. t.in_flight) (get_or-set_ne slots i j s empty_slot h.0) ∙ k.0,
  IsIdle-set slots i s is h.1 k.1,
)

pub bytes_of-append : (ws vs : List FileWrite) → bytes_of (ws ++ vs) ≡ bytes_of ws ++ bytes_of vs
bytes_of-append [] vs = refl
bytes_of-append (w ∷ ws) vs = simp (bytes_of-append ws vs, append_assoc)

pub Tiles-append :
    (start end : ℕ) (ws : List FileWrite) (w : FileWrite)
    → Tiles start ws end
    → w.offset ≡ end
    → Tiles start (ws ++ (w ∷ [])) (end + length w.bytes)
Tiles-append start end [] w h e = (e ∙ sym h, ap (λ n. n + length w.bytes) h)
Tiles-append start end (v ∷ ws) w h e = (h.0, Tiles-append (start + length v.bytes) end ws w h.1 e)

pub in_range-set :
    (slots : List Slot) (i : ℕ) (s : Slot) (is : List ℕ)
    → All (λ j. j < length slots) is
    → All (λ j. j < length (set slots i s)) is
in_range-set slots i s is h = rw (length-set slots i s) h

indices_above : (i j n : ℕ) → i < j → All (λ k. i ≢ k) (indices j n)
indices_above i j zero h = tt
indices_above i j (suc n) h = (ground arith, indices_above i (suc j) n (omega arith))

indices-Distinct : (i n : ℕ) → Distinct (indices i n)
indices-Distinct i zero = tt
indices-Distinct i (suc n) = (indices_above i (suc i) n (omega arith), indices-Distinct (suc i) n)

indices_below : (i n m : ℕ) → i + n ≤ m → All (λ k. k < m) (indices i n)
indices_below i zero m h = tt
indices_below i (suc n) m h = (omega arith, indices_below (suc i) n m (omega arith))

length-indices : (i n : ℕ) → length (indices i n) ≡ n
length-indices i zero = refl
length-indices i (suc n) = omega (arith, length-indices (suc i) n)

length-empty_slots : (n : ℕ) → length (empty_slots n) ≡ n
length-empty_slots zero = refl
length-empty_slots (suc n) = omega (arith, length-empty_slots n)

slot_at-empty_slots : (n i : ℕ) → slot_at (empty_slots n) i ≡ empty_slot
slot_at-empty_slots zero i = refl
slot_at-empty_slots (suc n) zero = refl
slot_at-empty_slots (suc n) (suc i) = slot_at-empty_slots n i

all_idle : (n : ℕ) (is : List ℕ) → All (IsIdle (empty_slots n)) is
all_idle n [] = tt
all_idle n (i ∷ is) = (ap (λ t. t.in_flight) (slot_at-empty_slots n i), all_idle n is)

pub open_sink-Inv : (capacity max_ops : ℕ) → 0 < capacity → Inv (open_sink capacity max_ops)
unfolding open_sink
open_sink-Inv capacity max_ops h = record {
  has_room = h;
  some_ops = omega arith;
  fits = rw (slot_at-empty_slots (max 1 max_ops + 1) 0) (omega arith);
  distinct = rw (append-nil (indices 1 (max 1 max_ops))) (indices-Distinct 0 (suc (max 1 max_ops)));
  in_range = rw (append-nil (indices 1 (max 1 max_ops))) (
      subst (λ n. All (λ k. k < n) (indices 0 (suc (max 1 max_ops))))
        (sym (length-empty_slots (max 1 max_ops + 1)))
        (indices_below 0 (suc (max 1 max_ops)) (max 1 max_ops + 1) (omega arith)));
  count = omega (arith, length-indices 1 (max 1 max_ops));
  idle = all_idle (max 1 max_ops + 1) (0 ∷ indices 1 (max 1 max_ops));
  log = refl;
  placed = refl;
}

pub open_sink-content : (capacity max_ops : ℕ) → content (open_sink capacity max_ops) ≡ []
unfolding open_sink
open_sink-content capacity max_ops = ap (λ s. s.bytes) (slot_at-empty_slots (max 1 max_ops + 1) 0)

pub open_sink_roomy :
    (capacity max_ops : ℕ)
    → 0 < capacity
    → length (active_slot (open_sink capacity max_ops)).bytes
      < (open_sink capacity max_ops).write_buffer_capacity
unfolding open_sink
open_sink_roomy capacity max_ops h =
    rw (slot_at-empty_slots (max 1 max_ops + 1) 0) (omega (arith, h))

pub open_sink-opened :
    (capacity max_ops : ℕ)
    → ((open_sink capacity max_ops).closed ≡ false)
      × ((open_sink capacity max_ops).handle_open ≡ true)
unfolding open_sink
open_sink-opened capacity max_ops = (refl, refl)
