-- ===== src/Conn/Stall.antt =====
-- `connection_io` in STATE_RES with requests in `rbuf`.
use redis_c.Base.{
  ℕ, suc, ◌+◌, ◌-◌, ◌<◌, ◌≤◌, ◌≡◌, refl, sym, ap, ◌∙◌, true, List, [], ◌∷◌, ◌++◌, leb, ==_refl,
  length, u64, min, abort, Run, ok, Returns, ◌>>=◌, arith, take-all, length-drop, lt→ltb,
}
use redis_c.Request.{Command}
use redis_c.Request.Format.{request_bytes}
use redis_c.Conn.{
  State, req, res, ended, Conn, buf_size, WriteAnswer, took, read_again, read_once, write_once,
  after_write, after_read, try_flush_buffer, Socket, Session, state_res, try_fill_buffer, state_req,
  connection_io,
}
use redis_c.Conn.Flush.{IsSending, unsent}
use redis_c.Conn.Stream.{framed}

-- the socket takes all that is left of the reply
flush_rest :
    (fuel n : ℕ) (c : Conn) (s : Socket) (ws : List WriteAnswer)
    → IsSending c
    → s.writes ≡ took n ∷ ws
    → length (unsent c) ≤ n
    → state_res (suc fuel) c s
      ≡ ok (
        record c { state = req; wbuf_sent = 0; wbuf = [] },
        record s { writes = ws; sent = s.sent ++ unsent c },
      )
unfolding state_res try_flush_buffer write_once after_write
flush_rest fuel n c s ws v answers fits =
    let left : length (unsent c) ≡ length c.wbuf - c.wbuf_sent = length-drop c.wbuf_sent c.wbuf in
    let all : min n (length c.wbuf - c.wbuf_sent) ≡ length (unsent c) = omega (arith, left, fits) in
    let exact : u64 (c.wbuf_sent + length (unsent c)) ≡ length c.wbuf =
      omega (arith, left, v.inside, v.small) in
    let ahead : leb (length c.wbuf) (length c.wbuf) ≡ true = ground arith in
    rw (answers, all, exact, ahead, ==_refl, take-all)

module _ {ℓ} {G : Type ℓ} (do_request : Command → G → Run (List ℕ × G)) where
  abbrev branch : ℕ → Session G → State → Run (Session G)
  branch fuel s st = elim st [
    | req ↦ state_req do_request fuel fuel s
    | res ↦ do (c, k) ← state_res fuel s.conn s.socket; ok (record s { conn = c; socket = k })
    | ended ↦ abort
  ]

  by_state :
      (fuel : ℕ) (s : Session G) {st : State}
      → s.conn.state ≡ st
      → connection_io do_request fuel s ≡ branch fuel s st
  unfolding connection_io
  by_state fuel s here = ap (branch fuel s) here

  -- a connection in STATE_REQ for which the socket has nothing
  nothing_to_read :
      (fuel : ℕ) (s : Session G)
      → s.conn.state ≡ req
      → s.socket.reads ≡ []
      → length s.conn.rbuf < buf_size
      → connection_io do_request (suc fuel) s ≡ ok s
  unfolding state_req try_fill_buffer read_once after_read
  nothing_to_read fuel s here empty room =
      let ahead = lt→ltb (length s.conn.rbuf) buf_size room in
      let again : read_once (buf_size - length s.conn.rbuf) s.socket.reads ≡ (read_again, []) =
        ap (read_once (buf_size - length s.conn.rbuf)) empty in
      by_state (suc fuel) s here
      ∙ rw (ahead, again)
          (ap (λ rs. ok (record s { socket = record s.socket { reads = rs } })) (sym empty))

  -- the replies are sent, the next request is complete in `rbuf`, and no event serves it
  pub record Stalls (s : Session G) (cmd : Command) (rest : List ℕ) (s' : Session G) : Type ℓ where
    pub waiting : s'.conn.state ≡ req
    pub request : s'.conn.rbuf ≡ framed (request_bytes cmd) ++ rest
    pub store : s'.store ≡ s.store
    pub sent : s'.socket.sent ≡ s.socket.sent ++ unsent s.conn
    pub fixed : (fuel : ℕ) → connection_io do_request (suc fuel) s' ≡ ok s'

  -- A connection in STATE_RES, with a complete request in `rbuf` and room behind it, whose
  -- socket takes the rest of the reply at once and has nothing to read, is brought back to
  -- STATE_REQ by `connection_io` with the reply sent and the request still in `rbuf` and not
  -- served; and every further event, as long as nothing comes in, leaves all of it as it is.
  pub connection_io-Stalls :
      (fuel n : ℕ) (s : Session G) (ws : List WriteAnswer) (cmd : Command) (rest : List ℕ)
      → s.conn.state ≡ res
      → IsSending s.conn
      → s.conn.rbuf ≡ framed (request_bytes cmd) ++ rest
      → length s.conn.rbuf < buf_size
      → s.socket.reads ≡ []
      → s.socket.writes ≡ took n ∷ ws
      → length (unsent s.conn) ≤ n
      → Returns (connection_io do_request (suc fuel) s) (Stalls s cmd rest)
  connection_io-Stalls fuel n s ws cmd rest here v front room empty answers fits =
      let c = record s.conn { state = req; wbuf_sent = 0; wbuf = [] } in
      let k = record s.socket { writes = ws; sent = s.socket.sent ++ unsent s.conn } in
      (
        record s { conn = c; socket = k },
        by_state (suc fuel) s here ∙ rw (flush_rest fuel n s.conn s.socket ws v answers fits),
        record {
          waiting = refl;
          request = front;
          store = refl;
          sent = refl;
          fixed =
              λ fuel'. nothing_to_read fuel' (record s { conn = c; socket = k }) refl empty room;
        },
      )
