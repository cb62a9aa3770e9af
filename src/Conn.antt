-- ===== src/Conn.antt =====
-- src/server.cpp, the connections: `struct Conn` and the functions behind `connection_io`.
-- `rbuf` and `wbuf` are the used parts of the two arrays, so `rbuf_size` and `wbuf_size` are their
-- lengths; what would be written past an array is a fault. The idle timer is not part of this.
-- The commands are a parameter: what `do_request` makes of a command and of the server's data.
pub mod Flush
pub mod Stream
pub mod Framing
pub mod Serve
pub mod Answer
pub mod Fill
pub mod Event
pub mod Stall
mod Tests
use redis_c.Base.{
  ℕ, zero, suc, ◌+◌, ◌-◌, min, Bool, true, false, ◌&&◌, Option, none, some, List, [], ◌∷◌, ◌++◌,
  ltb, leb, ◌==◌, if◌then◌else◌, length, take, drop, u32, u64, Run, ok, abort, fault, out_of_fuel,
  assert, ◌>>=◌, ◌>>◌,
}
use redis_c.Wire.{le_bytes, read_le, slice}
use redis_c.Request.{Command, k_max_msg, parse_req}
use redis_c.Reply.{out_err}

-- STATE_REQ, STATE_RES, STATE_END
pub data State : Type 0 where
  req res ended : State

abbrev pub is_req : State → Bool
is_req req = true
is_req res = false
is_req ended = false

pub record Conn : Type 0 where
  pub state : State
  pub rbuf : List ℕ
  pub wbuf : List ℕ
  pub wbuf_sent : ℕ

-- `sizeof(conn->rbuf)`
abbrev pub buf_size : ℕ
buf_size = 4 + k_max_msg

-- An answer to `write` or `read` on the non-blocking socket: EAGAIN, EINTR, another error, or what
-- the kernel would take or give if the call offered enough. A call moves at most what it asks for.
pub data WriteAnswer : Type 0 where
  took : ℕ → WriteAnswer
  write_again write_interrupted write_error : WriteAnswer

pub data ReadAnswer : Type 0 where
  gave : List ℕ → ReadAnswer
  read_again read_interrupted read_error : ReadAnswer

-- The answers to come, EAGAIN when they run out, and the bytes that went through so far.
pub record Socket : Type 0 where
  pub reads : List ReadAnswer
  pub writes : List WriteAnswer
  pub received : List ℕ
  pub sent : List ℕ

-- the `do` loops: calls for `n` bytes until one is not interrupted
unfoldable pub write_once : ℕ → List WriteAnswer → WriteAnswer × List WriteAnswer
write_once n [] = (write_again, [])
write_once n (write_interrupted ∷ ws) = write_once n ws
write_once n (took rv ∷ ws) = (took (min rv n), ws)
write_once n (write_again ∷ ws) = (write_again, ws)
write_once n (write_error ∷ ws) = (write_error, ws)

unfoldable pub read_once : ℕ → List ReadAnswer → ReadAnswer × List ReadAnswer
read_once n [] = (read_again, [])
read_once n (read_interrupted ∷ rs) = read_once n rs
read_once n (gave bytes ∷ rs) = (gave (take n bytes), rs)
read_once n (read_again ∷ rs) = (read_again, rs)
read_once n (read_error ∷ rs) = (read_error, rs)

abbrev pub Step : Type 0
Step = Bool × Conn × Socket

-- `try_flush_buffer` after the call of `write`; the socket took `rv` bytes from `wbuf_sent` on
unfoldable pub after_write : WriteAnswer → Conn → Socket → Run Step
after_write write_again c s = ok (false, c, s)
after_write write_interrupted c s = ok (false, c, s)
after_write write_error c s = ok (false, record c { state = ended }, s)
after_write (took rv) c s = do
  let wbuf_sent = u64 (c.wbuf_sent + rv)
  assert (leb wbuf_sent (length c.wbuf))
  let s' = record s { sent = s.sent ++ take rv (drop c.wbuf_sent c.wbuf) }
  ok (
      if wbuf_sent == length c.wbuf
      then (false, record c { state = req; wbuf_sent = 0; wbuf = [] }, s')
      else (true, record c { wbuf_sent = wbuf_sent }, s'))

unfoldable pub try_flush_buffer : Conn → Socket → Run Step
unfolding write_once after_write
try_flush_buffer c s =
    let (answer, ws) = write_once (length c.wbuf - c.wbuf_sent) s.writes in
    after_write answer c (record s { writes = ws })

-- the fuel counts the rounds of the loop
unfoldable pub state_res : ℕ → Conn → Socket → Run (Conn × Socket)
state_res zero c s = out_of_fuel
state_res (suc fuel) c s = do
  (more, c', s') ← try_flush_buffer c s
  elim more [ true ↦ state_res fuel c' s' | false ↦ ok (c', s') ]

-- ERR_2BIG and "response is too big"
abbrev pub err_2big : ℕ
err_2big = 2

abbrev pub too_big : List ℕ
too_big =
    114 ∷ 101 ∷ 115 ∷ 112 ∷ 111 ∷ 110 ∷ 115 ∷ 101 ∷ 32 ∷ 105 ∷ 115 ∷ 32 ∷ 116 ∷ 111 ∷ 111 ∷ 32 ∷ 98
    ∷ 105 ∷ 103 ∷ []

-- the reply that is sent for what the command wrote
unfoldable pub capped : List ℕ → List ℕ
capped out = if ltb k_max_msg (4 + length out) then out_err [] err_2big too_big else out

-- the two `memcpy` into `wbuf`
unfoldable pub pack_reply : List ℕ → Run (List ℕ)
pack_reply out =
    if leb (4 + length out) buf_size then ok (le_bytes 4 (u32 (length out)) ++ out) else fault

pub record Session {ℓ} (G : Type ℓ) : Type ℓ where
  pub conn : Conn
  pub socket : Socket
  pub store : G

-- a command is handed to the server, which writes a reply and changes its data
module _ {ℓ} {G : Type ℓ} (do_request : Command → G → Run (List ℕ × G)) where
  -- `try_one_request` from the call of `do_request` on; `rest` is what is left of `rbuf`
  unfoldable pub answer_request : ℕ → Session G → Command → List ℕ → Run (Bool × Session G)
  answer_request fuel s cmd rest = do
    (out, store) ← do_request cmd s.store
    wbuf ← pack_reply (capped out)
    (c, k) ← state_res fuel (record s.conn { state = res; wbuf = wbuf; rbuf = rest }) s.socket
    ok (is_req c.state, record { conn = c; socket = k; store = store })

  unfoldable pub try_one_request : ℕ → Session G → Run (Bool × Session G)
  try_one_request fuel s =
      let stop : Session G = record s { conn = record s.conn { state = ended } } in
      if ltb (length s.conn.rbuf) 4 then ok (false, s) else do
        len ← read_le 4 s.conn.rbuf 0
        if ltb k_max_msg len
            then ok (false, stop)
            else if ltb (length s.conn.rbuf) (u32 (4 + len))
            then ok (false, s)
            else do
              body ← slice s.conn.rbuf 4 len
              parsed ← parse_req body
              elim parsed [
                | none ↦ ok (false, stop)
                | some cmd ↦ answer_request fuel s cmd (drop (4 + len) s.conn.rbuf)
              ]

  -- `while (try_one_request(conn))`
  unfoldable pub serve : ℕ → ℕ → Session G → Run (Session G)
  serve fuel zero s = out_of_fuel
  serve fuel (suc rounds) s = do
    (more, s') ← try_one_request fuel s
    elim more [ true ↦ serve fuel rounds s' | false ↦ ok s' ]

  -- `try_fill_buffer` after the call of `read`
  unfoldable pub after_read : ℕ → ReadAnswer → Session G → Run (Bool × Session G)
  after_read fuel read_again s = ok (false, s)
  after_read fuel read_interrupted s = ok (false, s)
  after_read fuel read_error s = ok (false, record s { conn = record s.conn { state = ended } })
  after_read fuel (gave []) s = ok (false, record s { conn = record s.conn { state = ended } })
  after_read fuel (gave (b ∷ bytes)) s = do
    let rbuf = s.conn.rbuf ++ (b ∷ bytes)
    assert (leb (length rbuf) buf_size)
    s' ← serve fuel fuel (record s {
      conn = record s.conn { rbuf = rbuf };
      socket = record s.socket { received = s.socket.received ++ (b ∷ bytes) };
    })
    ok (is_req s'.conn.state, s')

  unfoldable pub try_fill_buffer : ℕ → Session G → Run (Bool × Session G)
  unfolding read_once after_read
  try_fill_buffer fuel s = do
    assert (ltb (length s.conn.rbuf) buf_size)
    let (answer, rs) = read_once (buf_size - length s.conn.rbuf) s.socket.reads
    after_read fuel answer (record s { socket = record s.socket { reads = rs } })

  unfoldable pub state_req : ℕ → ℕ → Session G → Run (Session G)
  state_req fuel zero s = out_of_fuel
  state_req fuel (suc rounds) s = do
    (more, s') ← try_fill_buffer fuel s
    elim more [ true ↦ state_req fuel rounds s' | false ↦ ok s' ]

  unfoldable pub connection_io : ℕ → Session G → Run (Session G)
  connection_io fuel s = elim s.conn.state [
    | req ↦ state_req fuel fuel s
    | res ↦ do (c, k) ← state_res fuel s.conn s.socket; ok (record s { conn = c; socket = k })
    | ended ↦ abort
  ]
