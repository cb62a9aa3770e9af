-- ===== src/Conn/Event.antt =====
-- `connection_io`: everything that happens to a connection between two calls of `poll`.
use mathlib.Core.Path.{subst}
use redis_c.Base.{
  abort, ℕ, zero, suc, ◌<◌, ◌≤◌, ◌≡◌, ◌≢◌, ◌⊎◌, inl, inr, refl, sym, ap, ◌∙◌, Bool, true, false,
  List, [], ◌++◌, length, length-append, Run, ok, Returns, ◌>>=◌, arith, All, append-nil,
}
use redis_c.Wire.Bytes.{IsByte}
use redis_c.Request.{k_max_msg, Command}
use redis_c.Request.Format.{request_bytes}
use redis_c.Conn.{
  State, req, res, ended, buf_size, Session, try_fill_buffer, state_req, connection_io, state_res,
}
use redis_c.Conn.Flush.{unsent, state_res-Flushed}
use redis_c.Conn.Stream.{NoRequest, Settled, Serves, start, Advances, advance_twice}
use redis_c.Conn.Serve.{incoming, GivesBytes, IsSession}
use redis_c.Conn.Fill.{Filled, Offers, try_fill_buffer-Filled}

ended_or_not : (st : State) → (st ≡ ended) ⊎ (st ≢ ended)
ended_or_not req = inr (λ e. cc)
ended_or_not res = inr (λ e. cc)
ended_or_not ended = inl refl

module _ {ℓ} {G : Type ℓ} (do_request : Command → G → Run (List ℕ × G)) (Ready : ℕ → G → Type ℓ)
    (serves : (n : ℕ) (cmd : Command) (g : G)
      → length (request_bytes cmd) ≤ k_max_msg
      → Ready (suc n) g
      → Returns (do_request cmd g) (λ (out, g'). Ready n g'))
    (fewer : (n m : ℕ) (g : G) → n ≤ m → Ready m g → Ready n g) where
  abbrev Valid : Session G → Type ℓ
  Valid s = IsSession do_request Ready serves fewer s

  abbrev Fill : Session G → Bool → Session G → Type ℓ
  Fill s more s' = Filled do_request Ready serves fewer s more s'

  -- a connection that waits for an event
  pub record IsOpen (s : Session G) : Type ℓ where
    pub valid : Valid s
    pub alive : s.conn.state ≢ ended
    pub room : length s.conn.rbuf < buf_size

  -- an event: the stream of requests was served in order, and `s'` is closed or waits
  pub record Handled (s s' : Session G) : Type ℓ where
    pub advances : Advances do_request s s'
    pub sending : Valid s'
    pub next : (s'.conn.state ≡ ended) ⊎ IsOpen s'
    pub settled :
        s.conn.state ≡ req → NoRequest s.conn.rbuf ⊎ (0 < length advances.news) → Settled s'.conn
    pub heard : s.conn.state ≡ req → Offers s.socket.reads → 0 < length advances.news

  still-IsOpen :
      (s : Session G)
      → Valid s
      → (s.conn.state ≡ ended) ⊎ (length s.conn.rbuf < buf_size)
      → (s.conn.state ≡ ended) ⊎ IsOpen s
  still-IsOpen s v (inl e) = inl e
  still-IsOpen s v (inr room) = elim (ended_or_not s.conn.state) [
    | inl e ↦ inl e
    | inr alive ↦ inr (record { valid = v; alive = alive; room = room })
  ]

  -- in STATE_REQ no reply waits
  nothing_left :
      (s : Session G) → Valid s → s.conn.state ≡ req → Settled s.conn → NoRequest s.conn.rbuf
  nothing_left s v here (inl nothing) = nothing
  nothing_left s v here (inr pending) =
      absurd (omega (arith, ap length (v.sending.idle here), pending))

  req_or_res : req ≡ res → ⊥
  req_or_res e = cc

  state_req-Handled :
      (fuel rounds : ℕ) (s : Session G)
      → Valid s
      → s.conn.state ≡ req
      → length s.conn.rbuf < buf_size
      → length s.socket.writes < fuel
      → buf_size < fuel
      → length s.socket.reads < rounds
      → Returns (state_req do_request fuel rounds s) (λ s'. Handled s s')
  unfolding state_req advance_twice
  state_req-Handled fuel zero s v here inside enough many some = absurd (omega arith)
  state_req-Handled fuel (suc rounds) s v here inside enough many some =
      go
        (λ s' v' here' inside' few less.
          state_req-Handled fuel rounds s' v' here' inside' few many (omega (arith, less)))
        (try_fill_buffer-Filled do_request Ready serves fewer fuel s v here inside enough many)
    where
      go :
          ((s' : Session G)
            → Valid s'
            → s'.conn.state ≡ req
            → length s'.conn.rbuf < buf_size
            → length s'.socket.writes < fuel
            → length s'.socket.reads < length s.socket.reads
            → Returns (state_req do_request fuel rounds s') (λ s''. Handled s' s''))
          → Returns (try_fill_buffer do_request fuel s) (λ (more, s'). Fill s more s')
          → Returns (state_req do_request fuel (suc rounds) s) (λ s'. Handled s s')
      go later ((false, s'), run, filled) = (
        s',
        rw run,
        record {
          advances = filled.advances;
          sending = filled.valid;
          next = still-IsOpen s' filled.valid filled.room;
          settled = λ e h. filled.settled h;
          heard = λ e o. filled.heard o;
        },
      )
      go later ((true, s'), run, filled) =
          let (here', less) = filled.goes refl in
          let inside' : length s'.conn.rbuf < buf_size = elim filled.room [
            | inl e ↦ absurd (cc)
            | inr h ↦ h
          ] in
          let (s'', run', rest) =
            later s' filled.valid here' inside' (omega (arith, filled.writes, enough)) less in
          (
            s'',
            rw run run',
            record {
              advances = advance_twice do_request s s' s'' filled.advances rest.advances;
              sending = rest.sending;
              next = rest.next;
              settled = λ e h.
                  rest.settled here' (inl (nothing_left s' filled.valid here' (filled.came refl)));
              heard = λ e o.
                  omega
                    (arith, filled.heard o, length-append filled.advances.news rest.advances.news);
            },
          )

  -- in STATE_RES the event is spent on the reply
  state_res-Handled :
      (fuel : ℕ) (s : Session G)
      → IsOpen s
      → s.conn.state ≡ res
      → length s.socket.writes < fuel
      → Returns
          (state_res fuel s.conn s.socket)
          (λ (c, k). Handled s (record s { conn = c; socket = k }))
  state_res-Handled fuel s opened here enough =
      let v = opened.valid in
      let ((c, k), run, flushed) = state_res-Flushed fuel s.conn s.socket here v.sending enough in
      let left : length c.rbuf ≡ length s.conn.rbuf = ap length flushed.rbuf in
      let valid : Valid (record s { conn = c; socket = k }) = record {
        sending = flushed.valid;
        bytes = subst (All IsByte) (sym flushed.rbuf) v.bytes;
        to_come = subst GivesBytes (sym flushed.reads) v.to_come;
        ready = fewer _ _ s.store (omega (arith, left, ap incoming flushed.reads)) v.ready;
      } in
      (
        (c, k),
        run,
        record {
          advances = record {
            news = [];
            replies = [];
            received = flushed.received ∙ sym (append-nil s.socket.received);
            steps =
                subst (λ l. Serves do_request s.store (s.conn.rbuf ++ []) [] s.store l)
                  (append-nil s.conn.rbuf ∙ sym flushed.rbuf) start;
            kept = flushed.kept ∙ sym (append-nil (s.socket.sent ++ unsent s.conn));
          };
          sending = valid;
          next =
              still-IsOpen (record s { conn = c; socket = k }) valid
                (inr (omega (arith, left, opened.room)));
          settled = λ e h. absurd (req_or_res (sym e ∙ here));
          heard = λ e o. absurd (req_or_res (sym e ∙ here));
        },
      )

  module _ (fuel : ℕ) (s : Session G) (opened : IsOpen s) (enough : length s.socket.writes < fuel)
      (rounds : buf_size < fuel) (reads : length s.socket.reads < fuel) where
    by_state :
        (st : State)
        → s.conn.state ≡ st
        → Returns
            (elim st [
              | req ↦ state_req do_request fuel fuel s
              | res ↦ do
                (c, k) ← state_res fuel s.conn s.socket
                ok (record s { conn = c; socket = k })
              | ended ↦ abort
            ])
            (λ s'. Handled s s')
    by_state req here =
        state_req-Handled fuel fuel s opened.valid here opened.room enough rounds reads
    by_state res here =
        let ((c, k), run, handled) = state_res-Handled fuel s opened here enough in
        (record s { conn = c; socket = k }, rw run, handled)
    by_state ended here = absurd (opened.alive here)

    -- Suppose the commands return on requests of at most 4096 bytes and on data that is ready
    -- to serve as many requests as the bytes in `rbuf` and the bytes that the socket may still
    -- give. Then an event of an open connection (well formed, not in STATE_END, `rbuf` not
    -- full) with fuel above the size of a buffer and the numbers of answers that the socket has
    -- for `read` and `write` returns from `connection_io`, and no assertion fails. Some
    -- requests at the front of the stream, `rbuf` and the bytes that came in, were served in
    -- order, each by one call on the data that the one before left; what is left of the stream
    -- is `rbuf`; the replies, each behind its length and replaced by an error if too big, were
    -- appended to what is sent and still to be sent; and the connection is closed or open
    -- again. In STATE_REQ, bytes come in if the next `read` that is not interrupted gives some.
    -- If the connection was in STATE_REQ, and bytes came in or no acceptable request stood at
    -- the front of `rbuf`, then afterwards no acceptable request stands at the front of `rbuf`,
    -- or a reply is not fully sent.
    pub connection_io-Handled : Returns (connection_io do_request fuel s) (λ s'. Handled s s')
    unfolding connection_io
    connection_io-Handled = by_state s.conn.state refl
