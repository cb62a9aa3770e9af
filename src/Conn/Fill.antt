-- ===== src/Conn/Fill.antt =====
-- `try_fill_buffer`: bytes are read, and the requests that they complete are served.
use redis_c.Base.{
  ℕ, zero, suc, ◌+◌, ◌-◌, ◌<◌, ◌≤◌, ◌≡◌, ◌≢◌, ◌⊎◌, inl, inr, refl, sym, ap, ◌∙◌, Bool, true, false,
  List, [], ◌∷◌, ◌++◌, leb, length, Run, Returns, arith, All, All-take, All-append, append-nil,
  length-append, length-take, lt→ltb,
}
use redis_c.Wire.Bytes.{IsByte}
use redis_c.Request.{k_max_msg, Command}
use redis_c.Request.Format.{request_bytes}
use redis_c.Conn.{
  req, ended, buf_size, ReadAnswer, gave, read_again, read_interrupted, read_error, read_once,
  Session, try_one_request, serve, after_read, try_fill_buffer, is_req,
}
use redis_c.Conn.Flush.{unsent}
use redis_c.Conn.Stream.{NoRequest, Settled, start, Advances, advance_twice}
use redis_c.Conn.Answer.{Attempt, try_one_request-Tried}
use redis_c.Conn.Serve.{
  incoming, GivesBytes, IsSession, Tried, still, stopped-IsSession, state_of_is_req,
}

-- What `read_once n` found: an answer of at most `n` bytes, and the answers behind it.
abbrev Gave : ℕ → List ReadAnswer → ReadAnswer → List ReadAnswer → Type 0
Gave n rs (gave bytes) rest =
    (length bytes ≤ n) × All IsByte bytes × (length bytes + incoming rest ≤ incoming rs)
Gave n rs read_again rest = incoming rest ≤ incoming rs
Gave n rs read_interrupted rest = incoming rest ≤ incoming rs
Gave n rs read_error rest = incoming rest ≤ incoming rs

record Answered (n : ℕ) (rs : List ReadAnswer) (answer : ReadAnswer) (rest : List ReadAnswer)
    : Type 0 where
  found : Gave n rs answer rest
  to_come : GivesBytes rest
  used : (answer ≡ read_again) ⊎ (length rest < length rs)

read_once-Answered :
    (n : ℕ) (rs : List ReadAnswer)
    → GivesBytes rs
    → Answered n rs (read_once n rs).0 (read_once n rs).1
unfolding read_once incoming
read_once-Answered n [] h = record { found = omega arith; to_come = tt; used = inl refl }
read_once-Answered n (gave bytes ∷ rs) h = record {
  found = (
    omega (arith, length-take n bytes),
    All-take IsByte n bytes h.0,
    omega (arith, length-take n bytes),
  );
  to_come = h.1;
  used = inr (omega arith);
}
read_once-Answered n (read_again ∷ rs) h = record {
  found = omega arith;
  to_come = h;
  used = inl refl;
}
read_once-Answered n (read_error ∷ rs) h = record {
  found = omega arith;
  to_come = h;
  used = inr (omega arith);
}
read_once-Answered n (read_interrupted ∷ rs) h =
    let later = read_once-Answered n rs h in
    record {
      found = later.found;
      to_come = later.to_come;
      used = elim later.used [ inl e ↦ inl e | inr less ↦ inr (omega (arith, less)) ];
    }

-- the next `read` gives bytes
abbrev pub Offers : List ReadAnswer → Type 0
Offers [] = ⊥
Offers (gave [] ∷ rs) = ⊥
Offers (gave (b ∷ bytes) ∷ rs) = Unit
Offers (read_again ∷ rs) = ⊥
Offers (read_interrupted ∷ rs) = Offers rs
Offers (read_error ∷ rs) = ⊥

abbrev Gives : ReadAnswer → Type 0
Gives (gave []) = ⊥
Gives (gave (b ∷ bytes)) = Unit
Gives read_again = ⊥
Gives read_interrupted = ⊥
Gives read_error = ⊥

read_once-Gives : (n : ℕ) (rs : List ReadAnswer) → 0 < n → Offers rs → Gives (read_once n rs).0
unfolding read_once
read_once-Gives n [] h o = o
read_once-Gives n (gave [] ∷ rs) h o = absurd o
read_once-Gives zero (gave (b ∷ bytes) ∷ rs) h o = absurd (omega arith)
read_once-Gives (suc n) (gave (b ∷ bytes) ∷ rs) h o = tt
read_once-Gives n (read_again ∷ rs) h o = o
read_once-Gives n (read_interrupted ∷ rs) h o = read_once-Gives n rs h o
read_once-Gives n (read_error ∷ rs) h o = o

module _ {ℓ} {G : Type ℓ} (do_request : Command → G → Run (List ℕ × G)) (Ready : ℕ → G → Type ℓ)
    (serves : (n : ℕ) (cmd : Command) (g : G)
      → length (request_bytes cmd) ≤ k_max_msg
      → Ready (suc n) g
      → Returns (do_request cmd g) (λ (out, g'). Ready n g'))
    (fewer : (n m : ℕ) (g : G) → n ≤ m → Ready m g → Ready n g) where
  abbrev Valid : Session G → Type ℓ
  Valid s = IsSession do_request Ready serves fewer s

  abbrev Try : Session G → Bool → Session G → Type ℓ
  Try s more s' = Tried do_request Ready serves fewer s more s'

  Tried-trans : (a b c : Session G) → Try a true b → Try b false c → Try a false c
  Tried-trans a b c p q = record {
    valid = q.valid;
    advances = advance_twice do_request a b c p.advances q.advances;
    reads = q.reads ∙ p.reads;
    writes = omega (arith, p.writes, q.writes);
    goes = λ e. absurd (cc);
    room = λ h. q.room (omega (arith, (p.goes refl).1, h));
    settled = q.settled;
  }

  -- every round takes a request of at least 4 bytes out of `rbuf`
  serve-Tried :
      (fuel rounds : ℕ) (s : Session G)
      → Valid s
      → s.conn.state ≡ req
      → length s.socket.writes < fuel
      → length s.conn.rbuf < rounds
      → Returns (serve do_request fuel rounds s) (λ s'. Try s false s')
  unfolding serve
  serve-Tried fuel zero s v here enough many = absurd (omega arith)
  serve-Tried fuel (suc rounds) s v here enough many =
      go (λ s' v' here' few less. serve-Tried fuel rounds s' v' here' few (omega (arith, less)))
        (try_one_request-Tried do_request Ready serves fewer fuel s v here enough)
    where
      go :
          ((s' : Session G)
            → Valid s'
            → s'.conn.state ≡ req
            → length s'.socket.writes < fuel
            → length s'.conn.rbuf < length s.conn.rbuf
            → Returns (serve do_request fuel rounds s') (λ s''. Try s' false s''))
          → Returns
              (try_one_request do_request fuel s)
              (λ (more, s'). Try s more s' × Attempt do_request Ready serves fewer s s')
          → Returns (serve do_request fuel (suc rounds) s) (λ s'. Try s false s')
      go later ((false, s'), run, (tried, did)) = (s', rw run, tried)
      go later ((true, s'), run, (tried, did)) =
          let (here', less) = tried.goes refl in
          let (s'', run', rest) =
            later s' tried.valid here' (omega (arith, tried.writes, enough)) less in
          (s'', rw run run', Tried-trans s s' s'' tried rest)

  -- `try_fill_buffer` gave `more` and left `s'`
  pub record Filled (s : Session G) (more : Bool) (s' : Session G) : Type ℓ where
    pub valid : Valid s'
    pub advances : Advances do_request s s'
    pub writes : length s'.socket.writes ≤ length s.socket.writes
    pub goes :
        more ≡ true → (s'.conn.state ≡ req) × (length s'.socket.reads < length s.socket.reads)
    pub room : (s'.conn.state ≡ ended) ⊎ (length s'.conn.rbuf < buf_size)
    -- where no request waited before, or bytes came, none waits that could be served
    pub settled : NoRequest s.conn.rbuf ⊎ (0 < length advances.news) → Settled s'.conn
    pub came : more ≡ true → Settled s'.conn
    pub heard : Offers s.socket.reads → 0 < length advances.news

  abbrev reading : Session G → List ReadAnswer → Session G
  reading s rs = record s { socket = record s.socket { reads = rs } }

  module _ (fuel : ℕ) (s : Session G) (v : Valid s) (here : s.conn.state ≡ req)
      (inside : length s.conn.rbuf < buf_size) (enough : length s.socket.writes < fuel)
      (rounds : buf_size < fuel) (rs : List ReadAnswer) (to_come : GivesBytes rs) where
    -- No byte came.
    nothing-Filled :
        incoming rs ≤ incoming s.socket.reads
        → (Offers s.socket.reads → ⊥)
        → Filled s false (reading s rs)
          × Filled s false (record (reading s rs) { conn = record s.conn { state = ended } })
    unfolding still
    nothing-Filled less silent =
        let valid : Valid (reading s rs) = record {
          sending = v.sending;
          bytes = v.bytes;
          to_come = to_come;
          ready = fewer _ _ s.store (omega (arith, less)) v.ready;
        } in
        (
          record {
            valid = valid;
            advances = still do_request Ready serves fewer s s.conn.state rs;
            writes = omega arith;
            goes = λ e. absurd (cc);
            room = inr inside;
            settled = no_news;
            came = λ e. absurd (cc);
            heard = λ o. absurd (silent o);
          },
          record {
            valid = stopped-IsSession do_request Ready serves fewer (reading s rs) valid;
            advances = still do_request Ready serves fewer s ended rs;
            writes = omega arith;
            goes = λ e. absurd (cc);
            room = inl refl;
            settled = no_news;
            came = λ e. absurd (cc);
            heard = λ o. absurd (silent o);
          },
        )
      where
        no_news : NoRequest s.conn.rbuf ⊎ (0 < 0) → Settled s.conn
        no_news (inl h) = inl h
        no_news (inr h) = absurd (omega arith)

    -- Bytes came, and stand in `rbuf`.
    abbrev arrived : List ℕ → Session G
    arrived news = record {
      conn = record s.conn { rbuf = s.conn.rbuf ++ news };
      socket = record s.socket { reads = rs; received = s.socket.received ++ news };
      store = s.store;
    }

    arrived-IsSession :
        (news : List ℕ)
        → All IsByte news
        → length news + incoming rs ≤ incoming s.socket.reads
        → Valid (arrived news)
    arrived-IsSession news bytes less = record {
      sending = record {
        inside = v.sending.inside;
        small = v.sending.small;
        idle = v.sending.idle;
        busy = v.sending.busy;
      };
      bytes = All-append IsByte s.conn.rbuf news v.bytes bytes;
      to_come = to_come;
      ready = fewer _ _ s.store (omega (arith, less, length-append s.conn.rbuf news)) v.ready;
    }

    unfoldable arrival : (news : List ℕ) → Advances do_request s (arrived news)
    arrival news = record {
      news = news;
      replies = [];
      received = refl;
      steps = start;
      kept = sym (append-nil (s.socket.sent ++ unsent s.conn));
    }

    after_read-Filled :
        (answer : ReadAnswer)
        → Gave (buf_size - length s.conn.rbuf) s.socket.reads answer rs
        → (answer ≢ read_again → length rs < length s.socket.reads)
        → (Offers s.socket.reads → Gives answer)
        → Returns
            (after_read do_request fuel answer (reading s rs))
            (λ (more, s'). Filled s more s')
    unfolding after_read advance_twice arrival
    after_read-Filled read_again found used offered = (_, refl, (nothing-Filled found offered).0)
    after_read-Filled read_interrupted found used offered =
        (_, refl, (nothing-Filled found offered).0)
    after_read-Filled read_error found used offered = (_, refl, (nothing-Filled found offered).1)
    after_read-Filled (gave []) found used offered =
        (_, refl, (nothing-Filled (omega (arith, found.2)) offered).1)
    after_read-Filled (gave (b ∷ bytes)) found used offered =
        let news = b ∷ bytes in
        let size = length-append s.conn.rbuf news in
        let fits : length (s.conn.rbuf ++ news) ≤ buf_size = omega (arith, size, found.0) in
        let ahead : leb (length (s.conn.rbuf ++ news)) buf_size ≡ true = ground arith in
        let valid = arrived-IsSession news found.1 found.2 in
        let (s', run, tried) =
          serve-Tried fuel fuel (arrived news) valid here enough (omega (arith, fits)) in
        (
          (is_req s'.conn.state, s'),
          rw (ahead, run),
          record {
            valid = tried.valid;
            advances = advance_twice do_request s (arrived news) s' (arrival news) tried.advances;
            writes = tried.writes;
            goes = λ e. (
              state_of_is_req s'.conn.state e,
              omega (arith, ap length tried.reads, used (λ e'. cc)),
            );
            room = tried.room fits;
            settled = λ h. tried.settled refl;
            came = λ e. tried.settled refl;
            heard = λ o. omega arith;
          },
        )

  pub try_fill_buffer-Filled :
      (fuel : ℕ) (s : Session G)
      → Valid s
      → s.conn.state ≡ req
      → length s.conn.rbuf < buf_size
      → length s.socket.writes < fuel
      → buf_size < fuel
      → Returns (try_fill_buffer do_request fuel s) (λ (more, s'). Filled s more s')
  unfolding try_fill_buffer
  try_fill_buffer-Filled fuel s v here inside enough rounds =
      let n = buf_size - length s.conn.rbuf in
      let answered = read_once-Answered n s.socket.reads v.to_come in
      let ahead = lt→ltb (length s.conn.rbuf) buf_size inside in
      let (r, run, filled) =
        after_read-Filled fuel s v here inside enough rounds (read_once n s.socket.reads).1
          answered.to_come (read_once n s.socket.reads).0 answered.found
          (λ other. elim answered.used [ inl e ↦ absurd (other e) | inr less ↦ less ])
          (λ o. read_once-Gives n s.socket.reads (omega (arith, inside)) o) in
      (r, rw ahead run, filled)
