-- ===== src/Conn/Tests.antt =====
-- The theorems on connections at a server that numbers its requests.
use redis_c.Base.{
  length, ℕ, suc, ◌+◌, ◌≤◌, ◌≡◌, refl, List, [], ◌∷◌, ◌++◌, take, drop, Run, ok, Returns, arith,
}
use redis_c.Wire.{le_bytes}
use redis_c.Reply.{out_int}
use redis_c.Request.{Command, k_max_msg}
use redis_c.Request.Format.{request_bytes, args_bytes, arg_bytes}
use redis_c.Conn.{
  req, res, Conn, took, write_again, gave, Socket, state_res, Session, try_one_request,
  connection_io,
}
use redis_c.Conn.Flush.{IsSending, Flushed, state_res-Flushed}
use redis_c.Conn.Stream.{framed}
use redis_c.Conn.Serve.{IsSession, Tried}
use redis_c.Conn.Answer.{Attempt, try_one_request-Tried}
use redis_c.Conn.Event.{IsOpen, Handled, connection_io-Handled}
use redis_c.Conn.Stall.{Stalls, connection_io-Stalls}

abbrev number : Command → ℕ → Run (List ℕ × ℕ)
number cmd n = ok (out_int [] n, n + 1)

abbrev Ready : ℕ → ℕ → Type 0
Ready n g = Unit

number-Ready :
    (n : ℕ) (cmd : Command) (g : ℕ)
    → length (request_bytes cmd) ≤ k_max_msg
    → Ready (suc n) g
    → Returns (number cmd g) (λ (out, g'). Ready n g')
number-Ready n cmd g small r = ((out_int [] g, g + 1), refl, tt)

fewer_ready : (n m : ℕ) (g : ℕ) → n ≤ m → Ready m g → Ready n g
fewer_ready n m g h r = tt

-- the reply nil, of which nothing is sent yet
abbrev replying : Conn
replying = record { state = res; rbuf = []; wbuf = 1 ∷ 0 ∷ 0 ∷ 0 ∷ 0 ∷ []; wbuf_sent = 0 }

replying-IsSending : IsSending replying
replying-IsSending = record {
  inside = omega arith;
  small = omega arith;
  idle = λ e. absurd (cc);
  busy = λ e. omega arith;
}

abbrev slow : Socket
slow = record { reads = []; writes = took 3 ∷ write_again ∷ []; received = []; sent = [] }

state_res-Flushed_example :
    Returns (state_res 3 replying slow) (λ (c', s'). Flushed replying slow c' s')
state_res-Flushed_example = state_res-Flushed 3 replying slow refl replying-IsSending (omega arith)

-- the request of one string, `a`
abbrev a_bytes : List ℕ
a_bytes = 9 ∷ 0 ∷ 0 ∷ 0 ∷ 1 ∷ 0 ∷ 0 ∷ 0 ∷ 1 ∷ 0 ∷ 0 ∷ 0 ∷ 97 ∷ []

abbrev a : Command
a = (97 ∷ []) ∷ []

a-framed : framed (request_bytes a) ≡ a_bytes
unfolding framed request_bytes args_bytes arg_bytes le_bytes
a-framed = refl

-- the request comes in two parts
abbrev session : Session ℕ
session = record {
  conn = record { state = req; rbuf = []; wbuf = []; wbuf_sent = 0 };
  socket = record {
    reads = gave (take 6 a_bytes) ∷ gave (drop 6 a_bytes) ∷ [];
    writes = took 100 ∷ [];
    received = [];
    sent = [];
  };
  store = 7;
}

session-IsSession : IsSession number Ready number-Ready fewer_ready session
session-IsSession = record {
  sending = record {
    inside = omega arith;
    small = omega arith;
    idle = λ e. refl;
    busy = λ e. absurd (cc);
  };
  bytes = tt;
  to_come = (ground arith, (ground arith, tt));
  ready = tt;
}

session-IsOpen : IsOpen number Ready number-Ready fewer_ready session
session-IsOpen = record { valid = session-IsSession; alive = λ e. cc; room = omega arith }

connection_io-Handled_example :
    Returns
      (connection_io number 5000 session)
      (λ s'. Handled number Ready number-Ready fewer_ready session s')
connection_io-Handled_example =
    connection_io-Handled number Ready number-Ready fewer_ready 5000 session session-IsOpen
      (omega arith) (omega arith) (omega arith)

abbrev waiting : Session ℕ
waiting = record session { conn = record session.conn { rbuf = a_bytes ++ 5 ∷ [] } }

waiting-IsSession : IsSession number Ready number-Ready fewer_ready waiting
waiting-IsSession = record {
  sending = record {
    inside = omega arith;
    small = omega arith;
    idle = λ e. refl;
    busy = λ e. absurd (cc);
  };
  bytes = ground arith;
  to_come = (ground arith, (ground arith, tt));
  ready = tt;
}

try_one_request-Tried_example : Returns (try_one_request number 2 waiting) (λ (more, s').
    Tried number Ready number-Ready fewer_ready waiting more s'
    × Attempt number Ready number-Ready fewer_ready waiting s')
try_one_request-Tried_example =
    try_one_request-Tried number Ready number-Ready fewer_ready 2 waiting waiting-IsSession refl
      (omega arith)

abbrev pipelined : Session ℕ
pipelined = record {
  conn = record replying { rbuf = a_bytes ++ [] };
  socket = record slow { writes = took 100 ∷ [] };
  store = 7;
}

connection_io-Stalls_example :
    Returns (connection_io number 2 pipelined) (Stalls number pipelined a [])
connection_io-Stalls_example =
    connection_io-Stalls number 1 100 pipelined [] a [] refl
      (record {
        inside = omega arith;
        small = omega arith;
        idle = λ e. absurd (cc);
        busy = λ e. omega arith;
      })
      (rw a-framed) (omega arith) refl refl (omega arith)
