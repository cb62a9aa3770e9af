-- ===== src/Server/Tests.antt =====
-- The theorems on the server with no keys and no sorted sets.
use mathlib.Core.List.{flatten}
use redis_c.Base.{ℕ, ◌<◌, ◌≡◌, refl, List, [], ◌∷◌, none, Returns, arith}
use redis_c.HashMap.{empty_map}
use redis_c.HashMap.Invariant.{empty_map-IsMap}
use redis_c.Request.{Command}
use redis_c.Request.Format.{args_size}
use redis_c.Client.Exchange.{length-request_bytes}
use redis_c.Keys.{hashed_entry}
use redis_c.ZSet.{empty_zset, hashed_ref}
use redis_c.Sets.{State}
use redis_c.Conn.{req, gave, took, Session, connection_io}
use redis_c.Conn.Serve.{incoming}
use redis_c.Server.{do_request, zadd}
use redis_c.Server.Data.{Ready, empty_zset-IsSmallSet}
use redis_c.Server.Ready.{
  Served, do_request-Ready, IsOpenServer, HandledServer, connection_io-HandledServer,
}

-- one digit, with that bit pattern
abbrev one_digit : List ℕ → ℕ × ℕ
one_digit [] = (0, 0)
one_digit (b ∷ rest) = (b, 1)

abbrev no_data : State
no_data = record { db = empty_map; sets = λ key. empty_zset }

no_data-Ready : (n : ℕ) → n < 32 → Ready n no_data
unfolding flatten
no_data-Ready n h = record {
  values = λ key. none;
  holds = record { calm = record { valid = empty_map-IsMap; idle = refl }; holds = λ key. refl };
  roomy = omega arith;
  few = omega arith;
  sets = λ key. empty_zset-IsSmallSet n h;
}

-- `zadd a 1 b`
abbrev zadd_a : Command
zadd_a = zadd ∷ (97 ∷ []) ∷ (49 ∷ []) ∷ (98 ∷ []) ∷ []

zadd_a-size : args_size zadd_a ≡ 23
unfolding args_size
zadd_a-size = refl

do_request-Ready_example :
    Returns
      (do_request one_digit 129 zadd_a no_data)
      (Served one_digit 5 no_data (no_data-Ready 6 (omega arith)) zadd_a)
do_request-Ready_example =
    do_request-Ready one_digit 5 no_data (no_data-Ready 6 (omega arith)) zadd_a
      (omega (arith, length-request_bytes zadd_a, zadd_a-size))

-- a connection that gets the bytes of `get a`
abbrev asked : Session State
asked = record {
  conn = record { state = req; rbuf = []; wbuf = []; wbuf_sent = 0 };
  socket = record {
    reads =
        gave (
          16 ∷ 0 ∷ 0 ∷ 0 ∷ 2 ∷ 0 ∷ 0 ∷ 0 ∷ 3 ∷ 0 ∷ 0 ∷ 0 ∷ 103 ∷ 101 ∷ 116 ∷ 1 ∷ 0 ∷ 0 ∷ 0 ∷ 97
          ∷ [])
        ∷ [];
    writes = took 100 ∷ [];
    received = [];
    sent = [];
  };
  store = no_data;
}

asked-IsOpen : IsOpenServer one_digit asked
unfolding incoming
asked-IsOpen = record {
  valid = record {
    sending = record {
      inside = omega arith;
      small = omega arith;
      idle = λ e. refl;
      busy = λ e. absurd (cc);
    };
    bytes = tt;
    to_come = (ground arith, tt);
    ready = no_data-Ready 20 (omega arith);
  };
  alive = λ e. cc;
  room = omega arith;
}

connection_io-HandledServer_example :
    Returns (connection_io (do_request one_digit 129) 5000 asked) (HandledServer one_digit asked)
connection_io-HandledServer_example =
    connection_io-HandledServer one_digit 5000 asked asked-IsOpen (omega arith) (omega arith)
      (omega arith)
