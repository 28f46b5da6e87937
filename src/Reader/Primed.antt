-- ===== src/Reader/Primed.antt =====
-- `start_prefetch` with a system that serves every read.
use sora_transport.Prelude.{
  ℕ, zero, suc, ◌+◌, ◌-◌, ◌≡◌, refl, Bool, true, false, ◌||◌, not, leb, ◌==◌, arith, inl, inr,
  subst, sym, if◌then◌else◌,
}
use sora_transport.Prelude.Result.{Result, ok, err}
use sora_transport.Reader.{
  Reader, Env, ReadError, queue_depth, issue_next_read, primed, prime_loop, prime_prefetch_window,
  start_prefetch,
}
use sora_transport.Reader.Ring.{with_read}
use sora_transport.Reader.Healthy.{IsHealthy, IsOpen, issue_next_read_total, with_read-IsOpen}

-- The call returns, with the reader open and its reading where it was.
abbrev pub Open : Reader → Reader × Result ReadError (Unit {0}) → Type 0
Open r (s, err e) = ⊥
Open r (s, ok u) = IsOpen s × (s.offset ≡ r.offset) × (s.size ≡ r.size)

if-Open :
    (r : Reader) (b : Bool) (x y : Reader × Result ReadError (Unit {0}))
    → (b ≡ true → Open r x)
    → (b ≡ false → Open r y)
    → Open r (if b then x else y)
if-Open r true x y h k = h refl
if-Open r false x y h k = k refl

module _ (env : Env) (healthy : IsHealthy env) where
  primed-Open :
      (more : Reader → Reader × Result ReadError (Unit {0})) (r s : Reader) (enough b : Bool)
      → IsOpen s
      → s.offset ≡ r.offset
      → s.size ≡ r.size
      → Open r (more s)
      → Open r (primed env more enough (s, ok b))
  primed-Open more r s enough false v o z h = (v, o, z)
  primed-Open more r s true true v o z h = (v, o, z)
  primed-Open more r s false true v o z h = h

  Open-along :
      (r s : Reader) (x : Reader × Result ReadError (Unit {0}))
      → s.offset ≡ r.offset
      → s.size ≡ r.size
      → Open s x
      → Open r x
  Open-along r s (t, err e) o z h = h
  Open-along r s (t, ok u) o z h = ground (arith, o, z, h)

  prime_loop-Open :
      (fuel issued max_bytes : ℕ) (r : Reader)
      → IsOpen r
      → Open r (prime_loop env fuel issued max_bytes r)
  unfolding prime_loop
  prime_loop-Open zero issued max_bytes r v = (v, refl, refl)
  prime_loop-Open (suc fuel) issued max_bytes r v =
      if-Open r (leb queue_depth r.in_flight_reads) _ _ (λ _. (v, refl, refl))
        (λ _. elim (issue_next_read_total env r healthy v) [
          | inl (b, e) ↦ next r b e v refl refl (λ n. prime_loop-Open fuel n max_bytes r v)
          | inr (b, e, h, k) ↦
              let w : IsOpen (with_read r) = with_read-IsOpen r v h k in
              next (with_read r) b e w refl refl
                (λ n. prime_loop-Open fuel n max_bytes (with_read r) w)
        ])
    where
      next :
          (s : Reader) (b : Bool)
          → issue_next_read env r ≡ (s, ok b)
          → IsOpen s
          → s.offset ≡ r.offset
          → s.size ≡ r.size
          → ((n : ℕ) → Open s (prime_loop env fuel n max_bytes s))
          → let x : Reader × Result ReadError Bool = issue_next_read env r in
            let total : ℕ = issued + (x.0.next_issue_offset - r.next_issue_offset) in
            Open r (primed env (prime_loop env fuel total max_bytes) (leb max_bytes total) x)
      next s b e w o z ih =
          subst
            (λ (x : Reader × Result ReadError Bool).
              let total : ℕ = issued + (x.0.next_issue_offset - r.next_issue_offset) in
              Open r (primed env (prime_loop env fuel total max_bytes) (leb max_bytes total) x))
            (sym e)
            (primed-Open
              (prime_loop env fuel (issued + (s.next_issue_offset - r.next_issue_offset)) max_bytes)
              r s _ b w o z
              (Open-along r s _ o z (ih (issued + (s.next_issue_offset - r.next_issue_offset)))))

  -- On an open reader, when every read is served, `start_prefetch` returns; the reader stays open
  -- and in order, and reading goes on where it was.
  pub start_prefetch-Open :
      (max_bytes : ℕ) (r : Reader) → IsOpen r → Open r (start_prefetch env max_bytes r)
  unfolding start_prefetch prime_prefetch_window
  start_prefetch-Open max_bytes r v =
      if-Open r r.cancel_requested _ _ (λ c. absurd (ground (arith, c, v.not_cancelled)))
        (λ _.
          if-Open r (not r.handle_valid) _ _ (λ h. absurd (ground (arith, h, v.valid)))
            (λ _.
              if-Open r r.prefetch_started _ _ (λ _. (v, refl, refl))
                (λ _.
                  if-Open r (r.size == 0 || max_bytes == 0) _ _ (λ _. (begun, refl, refl))
                    (λ _.
                      if-Open r r.cancel_requested _ _
                        (λ c. absurd (ground (arith, c, v.not_cancelled)))
                        (λ _.
                          Open-along r (record r { prefetch_started = true }) _ refl refl
                            (prime_loop-Open queue_depth 0 max_bytes
                              (record r { prefetch_started = true }) begun))))))
    where
      begun : IsOpen (record r { prefetch_started = true })
      begun = record {
        inv = record {
          eight = v.inv.eight;
          chunked = v.inv.chunked;
          depth = v.inv.depth;
          consume_bound = v.inv.consume_bound;
          issue_next = v.inv.issue_next;
          within = v.inv.within;
          issued = v.inv.issued;
          busy = v.inv.busy;
          free = v.inv.free;
        };
        not_cancelled = v.not_cancelled;
        valid = v.valid;
        small_chunks = v.small_chunks;
      }
