-- ===== src/SocketSource/Stream.antt =====
-- Reading the data of a transport through a `SocketByteSource`.
use sora_transport.Prelude.{
  ℕ, zero, suc, ◌+◌, ◌-◌, ◌≤◌, ◌<◌, ◌≡◌, refl, sym, ap, ◌∙◌, subst, true, false, List, [], ◌∷◌,
  ◌++◌, length, take, drop, min, arith, inl, inr, ◌⊎◌, All, append-nil, append_assoc, length-append,
  length-take, length-drop, take-append-drop, drop-drop, drop_all, leb, ltb, ◌==◌, not,
}
use sora_transport.Prelude.Result.{ok}
use sora_transport.Prelude.Run.{Run, Ends, if-Ends}
use sora_transport.Protocol.Header.{Header, channel_byte, control_channel}
use sora_transport.Protocol.Frame.{parse_frame}
use sora_transport.Protocol.Record.{decode}
use sora_transport.SocketSource.{
  Source, ReceiveError, Env, Incoming, message, plain, not_object, end_event, next_incoming, later,
  received, handle_message, handle_all, done, on_data_frame, frame_handled, unconsumed,
  without_message, read_loop, read, read_next_frame,
}

-- A text that the handler takes without an exception.
abbrev pub IsTaken : Env → List ℕ → Type 0
IsTaken env text =
    ((env.kind text ≡ plain) ⊎ (env.kind text ≡ not_object))
    × (env.has_handler ≡ true)
    × (env.handler_throws text ≡ false)

-- The rest of a transport, and its data: frames of data, and of messages that the handler takes,
-- up to the frame of the end event.
pub data Feeds (env : Env) : List Incoming → List ℕ → Type 0 where
  ending :
      {is : List Incoming} (raw : List ℕ) (header : Header) (payload text : List ℕ)
      → parse_frame raw ≡ ok (header, payload)
      → (header.channel == channel_byte control_channel) ≡ true
      → decode payload ≡ text ∷ []
      → env.kind text ≡ end_event
      → Feeds env (message raw ∷ is) []
  data_frame :
      {is : List Incoming} {bytes : List ℕ} (raw : List ℕ) (header : Header) (payload : List ℕ)
      → parse_frame raw ≡ ok (header, payload)
      → (header.channel == channel_byte control_channel) ≡ false
      → Feeds env is bytes
      → Feeds env (message raw ∷ is) (payload ++ bytes)
  control_frame :
      {is : List Incoming} {bytes : List ℕ} (raw : List ℕ) (header : Header) (payload : List ℕ)
      → parse_frame raw ≡ ok (header, payload)
      → (header.channel == channel_byte control_channel) ≡ true
      → All (IsTaken env) (decode payload)
      → Feeds env is bytes
      → Feeds env (message raw ∷ is) bytes

-- In the middle of a transport, with these bytes still to come.
pub record Open (env : Env) (bytes : List ℕ) (s : Source) : Type 0 where
  pub active : s.transport_active ≡ true
  pub calm : s.cancel_requested ≡ false
  pub more : List ℕ
  pub feeds : Feeds env s.incoming more
  pub comes : unconsumed env s ++ more ≡ bytes

pub record Got (env : Env) (want : ℕ) (bytes : List ℕ) (q : Source × List ℕ) : Type 0 where
  pub rest : List ℕ
  pub in_order : q.1 ++ rest ≡ bytes
  pub amount : length q.1 ≡ min want (length bytes)
  pub after : Open env rest q.0 ⊎ ((q.0.transport_finished ≡ true) × (rest ≡ []))

module _ (env : Env) where
  handle_all-done :
      (texts : List (List ℕ)) (s : Source)
      → All (IsTaken env) texts
      → handle_all env texts s false ≡ done (record s { handled = s.handled ++ texts }) false
  unfolding handle_all
  handle_all-done [] s h =
      ap (λ ts. done (record s { handled = ts }) false) (sym (append-nil s.handled))
  handle_all-done (text ∷ texts) s h = one h.0.0 (
      handle_all-done texts (record s { handled = s.handled ++ (text ∷ []) }) h.1
      ∙ ap (λ ts. done (record s { handled = ts }) false)
          (append_assoc s.handled (text ∷ []) texts))
    where
      called :
          handle_message env text s false (handle_all env texts) plain
          ≡ handle_all env texts (record s { handled = s.handled ++ (text ∷ []) }) false
      called = rw (h.0.1, h.0.2) refl

      one :
          (env.kind text ≡ plain) ⊎ (env.kind text ≡ not_object)
          → handle_all env texts (record s { handled = s.handled ++ (text ∷ []) }) false
            ≡ done (record s { handled = s.handled ++ (text ∷ texts) }) false
          → handle_message env text s false (handle_all env texts) (env.kind text)
            ≡ done (record s { handled = s.handled ++ (text ∷ texts) }) false
      one (inl k) e = ap (handle_message env text s false (handle_all env texts)) k ∙ called ∙ e
      one (inr k) e = ap (handle_message env text s false (handle_all env texts)) k ∙ called ∙ e

  next_frame-Got :
      (want : ℕ) (out : List ℕ) (s : Source) (is : List Incoming) (more : List ℕ)
      (go_on : Source → List ℕ → Run (Source × List ℕ) ReceiveError)
      → Feeds env is more
      → s.active_message ≡ []
      → s.active_offset ≡ 0
      → s.transport_active ≡ true
      → s.cancel_requested ≡ false
      → length out ≤ want
      → ((t : Source) (bytes : List ℕ)
          → Open env bytes t
          → length t.incoming < length is
          → Ends (Got env want (out ++ bytes)) (λ q. ⊥) (go_on t out))
      → Ends
          (Got env want (out ++ more))
          (λ q. ⊥)
          (received env
            (record s { incoming = later is })
            (next_incoming is)
            (on_data_frame env out go_on)
            out)
  unfolding handle_all
  next_frame-Got want out s _ _ go_on (ending raw header payload text p c d k) m o a n h ih =
      rw (p, c, d, k)
        (record {
          rest = [];
          in_order = refl;
          amount = omega (arith, length-append out [], h);
          after = inr (refl, refl);
        })
  next_frame-Got want out s _ _ go_on (data_frame {is} {bytes} raw header payload p c f) m o a n h
        ih =
      rw (p, c)
        (ih (record s { incoming = is; active_message = payload }) (payload ++ bytes)
          (record {
            active = a;
            calm = n;
            more = bytes;
            feeds = f;
            comes = ap (λ k. drop k payload ++ bytes) o;
          })
          (omega arith))
  next_frame-Got want out s _ _ go_on (control_frame {is} {bytes} raw header payload p c t f) m o a
        n h ih =
      rw (p, c)
        (subst
          (λ r.
            Ends (Got env want (out ++ bytes)) (λ q. ⊥)
              (frame_handled env (decode payload) out go_on r))
          (sym (handle_all-done (decode payload) (record s { incoming = is }) t))
          (ih (record s { incoming = is; handled = s.handled ++ decode payload }) bytes
            (record {
              active = a;
              calm = n;
              more = bytes;
              feeds = f;
              comes = ap (λ k. drop k s.active_message ++ bytes) o ∙ ap (λ k. k ++ bytes) m;
            })
            (omega arith)))

  read_loop-Got :
      (fuel want : ℕ) (s : Source) (copied bytes : List ℕ)
      → Open env bytes s
      → length copied ≤ want
      → length s.incoming + 2 ≤ fuel
      → Ends (Got env want (copied ++ bytes)) (λ q. ⊥) (read_loop env fuel want s copied)
  unfolding read_loop read_next_frame
  read_loop-Got zero want s copied bytes v h k = absurd (omega arith)
  read_loop-Got (suc fuel) want s copied bytes v h k =
      if-Ends (Got env want (copied ++ bytes)) (λ q. ⊥) (leb want (length copied)) _ _
        (λ full. record {
          rest = bytes;
          in_order = refl;
          amount = ground (arith, full, length-append copied bytes);
          after = inl v;
        })
        (λ short.
          if-Ends (Got env want (copied ++ bytes)) (λ q. ⊥)
            (ltb (s.active_offset + n) (length s.active_message)) _ _
            (λ some_left. record {
              rest = drop n (unconsumed env s) ++ v.more;
              in_order =
                  append_assoc copied (take n (unconsumed env s))
                    (drop n (unconsumed env s) ++ v.more)
                  ∙ ap (◌++◌ copied) split;
              amount = some_amount some_left;
              after = inl (record {
                active = v.active;
                calm = v.calm;
                more = v.more;
                feeds = v.feeds;
                comes =
                    ap (λ xs. xs ++ v.more) (sym (drop-drop n s.active_offset s.active_message));
              });
            })
            (λ used_up.
              subst (λ xs. Ends (Got env want xs) (λ q. ⊥) next) (joined used_up)
                (next_frame-Got want out (without_message env s) s.incoming v.more
                  (read_loop env fuel want) v.feeds refl refl v.active v.calm out_fits
                  (λ t more w g.
                    read_loop-Got fuel want t out more w out_fits (omega (arith, g, k))))))
    where
      n : ℕ
      n = min (length (unconsumed env s)) (want - length copied)

      out : List ℕ
      out = copied ++ take n (unconsumed env s)

      split : take n (unconsumed env s) ++ (drop n (unconsumed env s) ++ v.more) ≡ bytes
      split =
          sym (append_assoc (take n (unconsumed env s)) (drop n (unconsumed env s)) v.more)
          ∙ ap (λ xs. xs ++ v.more) (take-append-drop n (unconsumed env s))
          ∙ v.comes

      next : Run (Source × List ℕ) ReceiveError
      next =
          read_next_frame env (without_message env s)
            (on_data_frame env out (read_loop env fuel want)) out

      out_length : length out ≡ length copied + n
      out_length = omega (
        arith,
        length-append copied (take n (unconsumed env s)),
        length-take n (unconsumed env s),
      )

      left_length : length (unconsumed env s) ≡ length s.active_message - s.active_offset
      left_length = length-drop s.active_offset s.active_message

      out_fits : length out ≤ want
      out_fits = omega (arith, out_length, h)

      total : length (copied ++ bytes) ≡ length copied + (length (unconsumed env s) + length v.more)
      total =
          length-append copied bytes
          ∙ ap (λ xs. length copied + length xs) (sym v.comes)
          ∙ ap (◌+◌ (length copied)) (length-append (unconsumed env s) v.more)

      some_amount :
          ltb (s.active_offset + n) (length s.active_message) ≡ true
          → length out ≡ min want (length (copied ++ bytes))
      some_amount e = ground (arith, e, out_length, left_length, total, h)

      joined :
          ltb (s.active_offset + n) (length s.active_message) ≡ false
          → out ++ v.more ≡ copied ++ bytes
      joined e =
          append_assoc copied (take n (unconsumed env s)) v.more
          ∙ ap (λ xs. copied ++ (take n (unconsumed env s) ++ (xs ++ v.more))) (sym (nothing e))
          ∙ ap (◌++◌ copied) split
        where
          nothing :
              ltb (s.active_offset + n) (length s.active_message) ≡ false
              → drop n (unconsumed env s) ≡ []
          nothing e = drop_all n (unconsumed env s) (ground (arith, e, left_length))

-- In the middle of a transport, where what is left of the current frame and the frames still to be
-- read, up to the one of the end event, carry these bytes, `SocketByteSource::read` of some bytes
-- ends without an error. It gives the next bytes, as many as wanted, or all when there are not so
-- many. After it the source is in the middle of the transport with exactly the other bytes to come,
-- or the transport has finished and no byte is left.
pub read-Got :
    (env : Env) (bytes : List ℕ) (s : Source) (want : ℕ)
    → 0 < want
    → Open env bytes s
    → Ends (Got env want bytes) (λ q. ⊥) (read env s want)
unfolding read
read-Got env bytes s want h v =
    if-Ends (Got env want bytes) (λ q. ⊥) (want == 0) _ _ (λ e. absurd (ground (arith, e, h)))
      (λ e.
        if-Ends (Got env want bytes) (λ q. ⊥) s.cancel_requested _ _ (λ c. absurd (cc (c, v.calm)))
          (λ c.
            if-Ends (Got env want bytes) (λ q. ⊥) (not s.transport_active) _ _
              (λ f. absurd (ground (arith, f, v.active)))
              (λ f.
                read_loop-Got env (length s.incoming + 2) want s [] bytes v (omega arith)
                  (omega arith))))
