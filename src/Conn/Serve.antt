-- ===== src/Conn/Serve.antt =====
-- What holds of a connection between two steps, and what `try_one_request` may do to it.
use mathlib.Core.Path.{subst}
use redis_c.Base.{
  ℕ, suc, ◌+◌, ◌<◌, ◌≤◌, ◌≡◌, ◌⊎◌, inl, inr, refl, sym, Bool, true, false, List, [], ◌∷◌, ◌++◌,
  length, Run, ok, Returns, arith, All, append-nil,
}
use redis_c.Wire.Bytes.{IsByte}
use redis_c.Request.{k_max_msg, Command}
use redis_c.Request.Format.{request_bytes}
use redis_c.Conn.{
  State, req, res, ended, buf_size, ReadAnswer, gave, read_again, read_interrupted, read_error,
  Session, is_req, capped,
}
use redis_c.Conn.Flush.{IsSending, unsent}
use redis_c.Conn.Stream.{framed, Asks, NoRequest, Settled, Serves, start, Advances}

pub state_of_is_req : (st : State) → is_req st ≡ true → st ≡ req
state_of_is_req req e = refl
state_of_is_req res e = absurd (cc)
state_of_is_req ended e = absurd (cc)

-- the bytes that the socket may still give
unfoldable pub incoming : List ReadAnswer → ℕ
incoming [] = 0
incoming (gave bytes ∷ rs) = length bytes + incoming rs
incoming (read_again ∷ rs) = incoming rs
incoming (read_interrupted ∷ rs) = incoming rs
incoming (read_error ∷ rs) = incoming rs

abbrev pub GivesBytes : List ReadAnswer → Type 0
GivesBytes [] = Unit
GivesBytes (gave bytes ∷ rs) = All IsByte bytes × GivesBytes rs
GivesBytes (read_again ∷ rs) = GivesBytes rs
GivesBytes (read_interrupted ∷ rs) = GivesBytes rs
GivesBytes (read_error ∷ rs) = GivesBytes rs

-- The commands return while there is room for them: `Ready n` data can serve `n` more.
module _ {ℓ} {G : Type ℓ} (do_request : Command → G → Run (List ℕ × G)) (Ready : ℕ → G → Type ℓ)
    (serves : (n : ℕ) (cmd : Command) (g : G)
      → length (request_bytes cmd) ≤ k_max_msg
      → Ready (suc n) g
      → Returns (do_request cmd g) (λ (out, g'). Ready n g'))
    (fewer : (n m : ℕ) (g : G) → n ≤ m → Ready m g → Ready n g) where
  pub record IsSession (s : Session G) : Type ℓ where
    pub sending : IsSending s.conn
    pub bytes : All IsByte s.conn.rbuf
    pub to_come : GivesBytes s.socket.reads
    pub ready : Ready (length s.conn.rbuf + incoming s.socket.reads) s.store

  -- `try_one_request` gave `more` and left `s'`
  pub record Tried (s : Session G) (more : Bool) (s' : Session G) : Type ℓ where
    pub valid : IsSession s'
    pub advances : Advances do_request s s'
    pub reads : s'.socket.reads ≡ s.socket.reads
    pub writes : length s'.socket.writes ≤ length s.socket.writes
    pub goes : more ≡ true → (s'.conn.state ≡ req) × (length s'.conn.rbuf < length s.conn.rbuf)
    pub room :
        length s.conn.rbuf ≤ buf_size → (s'.conn.state ≡ ended) ⊎ (length s'.conn.rbuf < buf_size)
    pub settled : more ≡ false → Settled s'.conn

  -- one request was answered: its command was run once, its bytes taken, its reply appended
  pub record AnswersOne (s s' : Session G) : Type ℓ where
    pub cmd : Command
    pub rest : List ℕ
    pub out : List ℕ
    pub asks : Asks s.conn.rbuf cmd rest
    pub ran : do_request cmd s.store ≡ ok (out, s'.store)
    pub left : s'.conn.rbuf ≡ rest
    pub reply :
        s'.socket.sent ++ unsent s'.conn ≡ (s.socket.sent ++ unsent s.conn) ++ framed (capped out)

  -- there was no request, and nothing was served
  abbrev pub AnswersNone : Session G → Session G → Type ℓ
  AnswersNone s s' = NoRequest s.conn.rbuf × (s'.conn.rbuf ≡ s.conn.rbuf) × (s'.store ≡ s.store)

  abbrev pub with_state : Session G → State → Session G
  with_state s st = record s { conn = record s.conn { state = st } }

  -- Nothing is read or sent.
  unfoldable pub still :
      (s : Session G) (st : State) (rs : List ReadAnswer)
      → Advances do_request s (record s {
        conn = record s.conn { state = st };
        socket = record s.socket { reads = rs };
      })
  still s st rs = record {
    news = [];
    replies = [];
    received = sym (append-nil s.socket.received);
    steps =
        subst (λ l. Serves do_request s.store (s.conn.rbuf ++ []) [] s.store l)
          (append-nil s.conn.rbuf) start;
    kept = sym (append-nil (s.socket.sent ++ unsent s.conn));
  }

  pub waits-Tried :
      (s : Session G)
      → IsSession s
      → (length s.conn.rbuf ≤ buf_size → length s.conn.rbuf < buf_size)
      → NoRequest s.conn.rbuf
      → Tried s false s × (AnswersNone s s ⊎ AnswersOne s s)
  waits-Tried s v room nothing = (waits, inl (nothing, refl, refl))
    where
      waits : Tried s false s
      waits = record {
        valid = v;
        advances = still s s.conn.state s.socket.reads;
        reads = refl;
        writes = omega arith;
        goes = λ e. absurd (cc);
        room = λ h. inr (room h);
        settled = λ e. inl nothing;
      }

  pub stopped-IsSession : (s : Session G) → IsSession s → IsSession (with_state s ended)
  stopped-IsSession s v = record {
    sending = record {
      inside = v.sending.inside;
      small = v.sending.small;
      idle = λ e. absurd (cc);
      busy = λ e. absurd (cc);
    };
    bytes = v.bytes;
    to_come = v.to_come;
    ready = v.ready;
  }

  pub stops-Tried :
      (s : Session G)
      → IsSession s
      → NoRequest s.conn.rbuf
      → Tried s false (with_state s ended)
        × (AnswersNone s (with_state s ended) ⊎ AnswersOne s (with_state s ended))
  stops-Tried s v nothing = (stops, inl (nothing, refl, refl))
    where
      stops : Tried s false (with_state s ended)
      stops = record {
        valid = stopped-IsSession s v;
        advances = still s ended s.socket.reads;
        reads = refl;
        writes = omega arith;
        goes = λ e. absurd (cc);
        room = λ h. inl refl;
        settled = λ e. inl nothing;
      }
