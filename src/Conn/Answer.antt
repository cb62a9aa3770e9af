-- ===== src/Conn/Answer.antt =====
-- `try_one_request`: one request is taken from the front of `rbuf` and answered, or none is.
use mathlib.Core.Path.{subst}
use redis_c.Base.{
  length-take, ℕ, suc, ◌+◌, ◌-◌, ◌<◌, ◌≤◌, ◌≡◌, ◌≢◌, ◌⊎◌, inl, inr, refl, sym, ap, ◌∙◌, Bool, true,
  false, Option, none, some, List, [], ◌++◌, ltb, leb, length, take, drop, u32, Run, ok, Returns,
  ◌>>=◌, Bool-cases, arith, All, All-take, All-drop, append-nil, length-append,
}
use redis_c.Wire.{from_le, read_le, slice}
use redis_c.Wire.Bytes.{IsByte}
use redis_c.Request.{Command, k_max_msg, parse_req}
use redis_c.Request.Format.{request_bytes}
use redis_c.Request.Sound.{Parsed, parse_req-Parsed}
use redis_c.Conn.{
  State, req, res, ended, Conn, Socket, capped, Session, answer_request, try_one_request, is_req,
}
use redis_c.Conn.Flush.{IsSending, unsent, Flushed, state_res-Flushed}
use redis_c.Conn.Stream.{framed, Asks, NoRequest, Serves, start, next}
use redis_c.Conn.Framing.{
  capped-fits, pack_reply-framed, length-framed, front-framed, Asks-length, Asks-header,
  refused_NoRequest,
}
use redis_c.Conn.Serve.{
  state_of_is_req, incoming, GivesBytes, IsSession, Tried, AnswersOne, AnswersNone, with_state,
  waits-Tried, stops-Tried,
}

-- the body of a message that is not too long
parsed_body :
    (len : ℕ) (rbuf : List ℕ)
    → All IsByte rbuf
    → ltb k_max_msg len ≡ false
    → Returns (parse_req (take len (drop 4 rbuf))) (Parsed (take len (drop 4 rbuf)))
parsed_body len rbuf bytes small =
    parse_req-Parsed (take len (drop 4 rbuf))
      (All-take IsByte len (drop 4 rbuf) (All-drop IsByte 4 rbuf bytes))
      (ground (arith, small, length-take len (drop 4 rbuf)))

-- the three tests that stop before `parse_req`
module _ (rbuf : List ℕ) (cmd : Command) (rest : List ℕ) (asks : Asks rbuf cmd rest) where
  too_short : ltb (length rbuf) 4 ≡ true → ⊥
  too_short short = let size = Asks-length rbuf cmd rest asks in ground (arith, size, short)

  too_long : ltb k_max_msg (from_le (take 4 rbuf)) ≡ true → ⊥
  too_long long =
      let header = Asks-header rbuf cmd rest asks in
      let fits = asks.1 in ground (arith, rw header at long, fits)

  in_part : ltb (length rbuf) (4 + from_le (take 4 rbuf)) ≡ true → ⊥
  in_part part =
      let header = Asks-header rbuf cmd rest asks in
      let size = Asks-length rbuf cmd rest asks in ground (arith, rw header at part, size)

module _ {ℓ} {G : Type ℓ} (do_request : Command → G → Run (List ℕ × G)) (Ready : ℕ → G → Type ℓ)
    (serves : (n : ℕ) (cmd : Command) (g : G)
      → length (request_bytes cmd) ≤ k_max_msg
      → Ready (suc n) g
      → Returns (do_request cmd g) (λ (out, g'). Ready n g'))
    (fewer : (n m : ℕ) (g : G) → n ≤ m → Ready m g → Ready n g) where
  abbrev Valid : Session G → Type ℓ
  Valid s = IsSession do_request Ready serves fewer s

  abbrev Try : Session G → Bool → Session G → Type ℓ
  Try s more s' = Tried do_request Ready serves fewer s more s'

  -- what `try_one_request` made of the front of `rbuf`
  abbrev pub Attempt : Session G → Session G → Type ℓ
  Attempt s s' =
      AnswersNone do_request Ready serves fewer s s' ⊎ AnswersOne do_request Ready serves fewer s s'

  module _ (fuel : ℕ) (s : Session G) (v : Valid s) (here : s.conn.state ≡ req)
      (enough : length s.socket.writes < fuel) where
    -- In STATE_REQ nothing is left to send.
    nothing_unsent : (s.conn.wbuf_sent ≡ 0) × (unsent s.conn ≡ [])
    nothing_unsent =
        let empty = v.sending.idle here in
        let zero_sent : s.conn.wbuf_sent ≡ 0 = omega (arith, ap length empty, v.sending.inside) in
        (zero_sent, ap (λ l. drop s.conn.wbuf_sent l) empty ∙ ap (λ k. drop k []) zero_sent)

    -- A request was answered, and its reply flushed as far as the socket took it.
    module _ (cmd : Command) (rest : List ℕ) (asks : Asks s.conn.rbuf cmd rest) where
      size : length s.conn.rbuf ≡ 4 + length (request_bytes cmd) + length rest
      size =
          ap length asks.0
          ∙ omega (
            arith,
            length-append (framed (request_bytes cmd)) rest,
            length-framed (request_bytes cmd),
          )

      abbrev answering : List ℕ → Conn
      answering out = record s.conn { state = res; wbuf = framed (capped out); rbuf = rest }

      answering-IsSending : (out : List ℕ) → IsSending (answering out)
      answering-IsSending out =
          let none_sent = nothing_unsent.0 in
          let width = length-framed (capped out) in
          record {
            inside = omega (arith, none_sent, width);
            small = omega (arith, width, capped-fits out);
            idle = λ e. absurd (cc);
            busy = λ e. omega (arith, none_sent, width);
          }

      served :
          (out : List ℕ) (store : G) (left : List ℕ)
          → left ≡ rest
          → do_request cmd s.store ≡ ok (out, store)
          → Serves do_request s.store (s.conn.rbuf ++ []) (framed (capped out)) store left
      served out store left e handled =
          let begun : Serves do_request s.store (s.conn.rbuf ++ []) [] s.store
              (framed (request_bytes cmd) ++ rest) =
            subst (λ l. Serves do_request s.store (s.conn.rbuf ++ []) [] s.store l)
              (append-nil s.conn.rbuf ∙ asks.0) start in
          subst (λ l. Serves do_request s.store (s.conn.rbuf ++ []) (framed (capped out)) store l)
            (sym e) (next cmd out store begun handled)

      module _ (out : List ℕ) (store : G) (n : ℕ) (c' : Conn) (k : Socket)
          (flushed : Flushed (answering out) s.socket c' k) where
        all_kept : k.sent ++ unsent c' ≡ (s.socket.sent ++ unsent s.conn) ++ framed (capped out)
        all_kept =
            let (none_sent, none_left) = nothing_unsent in
            flushed.kept
            ∙ ap (λ m. s.socket.sent ++ drop m (framed (capped out))) none_sent
            ∙ ap (λ l. l ++ framed (capped out))
                (sym (append-nil s.socket.sent) ∙ ap (λ l. s.socket.sent ++ l) (sym none_left))

        answered-Tried :
            All IsByte rest
            → do_request cmd s.store ≡ ok (out, store)
            → length s.conn.rbuf + incoming s.socket.reads ≡ suc n
            → Ready n store
            → Try s (is_req c'.state) (record { conn = c'; socket = k; store = store })
              × Attempt s (record { conn = c'; socket = k; store = store })
        answered-Tried rest_bytes handled one ready = (
          answered rest_bytes handled one ready,
          inr (record {
            cmd = cmd;
            rest = rest;
            out = out;
            asks = asks;
            ran = handled;
            left = flushed.rbuf;
            reply = all_kept;
          }),
        )
          where
            not_req : (st : State) → is_req st ≡ false → st ≢ req
            not_req req e = absurd (cc)
            not_req res e = λ f. cc
            not_req ended e = λ f. cc

            answered :
                All IsByte rest
                → do_request cmd s.store ≡ ok (out, store)
                → length s.conn.rbuf + incoming s.socket.reads ≡ suc n
                → Ready n store
                → Try s (is_req c'.state) (record { conn = c'; socket = k; store = store })
            answered rest_bytes handled one ready =
                let left : length c'.rbuf ≡ length rest = ap length flushed.rbuf in
                record {
                  valid = record {
                    sending = flushed.valid;
                    bytes = subst (All IsByte) (sym flushed.rbuf) rest_bytes;
                    to_come = subst GivesBytes (sym flushed.reads) v.to_come;
                    ready =
                        fewer (length c'.rbuf + incoming k.reads) n store
                          (omega (arith, one, left, ap incoming flushed.reads, size)) ready;
                  };
                  advances = record {
                    news = [];
                    replies = framed (capped out);
                    received = flushed.received ∙ sym (append-nil s.socket.received);
                    steps = served out store c'.rbuf flushed.rbuf handled;
                    kept = all_kept;
                  };
                  reads = flushed.reads;
                  writes = flushed.writes;
                  goes = λ e. (state_of_is_req c'.state e, omega (arith, left, size));
                  room = λ h. inr (omega (arith, left, size, h));
                  settled = λ e. inr (flushed.stuck (not_req c'.state e));
                }

      answer_request-Tried :
          length (request_bytes cmd) ≤ k_max_msg
          → All IsByte rest
          → Returns
              (answer_request do_request fuel s cmd rest)
              (λ (more, s'). Try s more s' × Attempt s s')
      unfolding answer_request
      answer_request-Tried fits_message rest_bytes =
          let n = length s.conn.rbuf + incoming s.socket.reads - 1 in
          let one : length s.conn.rbuf + incoming s.socket.reads ≡ suc n = omega (arith, size) in
          let ((out, store), handled, ready) =
            serves n cmd s.store fits_message (subst (λ k. Ready k s.store) one v.ready) in
          let ((c', k), run, flushed) =
            state_res-Flushed fuel (answering out) s.socket refl (answering-IsSending out) enough in
          (
            (is_req c'.state, record { conn = c'; socket = k; store = store }),
            rw (handled, pack_reply-framed out, run),
            answered-Tried out store n c' k flushed rest_bytes handled one ready,
          )

    -- The end of `try_one_request`, from the call of `parse_req` on.
    abbrev act : List ℕ → Option Command → Run (Bool × Session G)
    act rest parsed = elim parsed [
      | none ↦ ok (false, with_state do_request Ready serves fewer s ended)
      | some cmd ↦ answer_request do_request fuel s cmd rest
    ]

    act-Tried :
        (body rest : List ℕ)
        → (parse_req body ≡ ok none → NoRequest s.conn.rbuf)
        → s.conn.rbuf ≡ framed body ++ rest
        → length body ≤ k_max_msg
        → All IsByte rest
        → Returns (parse_req body) (Parsed body)
        → Returns (parse_req body >>= act rest) (λ (more, s'). Try s more s' × Attempt s s')
    act-Tried body rest refuses front fits_message bytes (none, run, parsed) = (
      (false, with_state do_request Ready serves fewer s ended),
      rw run,
      stops-Tried do_request Ready serves fewer s v (refuses run),
    )
    act-Tried body rest refuses front fits_message bytes (some cmd, run, (layout, few)) =
        let (r, run', tried) =
          answer_request-Tried cmd rest
            (front ∙ ap (λ l. framed l ++ rest) layout, rw layout at fits_message, few)
            (rw layout at fits_message) bytes in
        (r, rw run run', tried)

    -- On a well-formed connection in STATE_REQ, with fuel above the number of answers that the
    -- socket has for `write`, and commands that return on requests of at most 4096 bytes and on
    -- data ready for as many requests as the bytes in `rbuf` and to come, `try_one_request`
    -- returns and the connection stays well formed. If an acceptable request (of at most 4096
    -- bytes and 1024 strings) stands at the front of `rbuf`, then its command was run once on
    -- the data, its bytes were taken from `rbuf`, and its reply, behind its length and replaced
    -- by an error if too big, was appended to what is sent and still to be sent; otherwise
    -- nothing was run and `rbuf` is as before. Nothing is read. If it returns true, the state
    -- is STATE_REQ and `rbuf` is shorter; if false, no acceptable request stands at the front
    -- of `rbuf` or the reply is not fully sent. If `rbuf` was no longer than its array, the
    -- connection is closed or `rbuf` has room again.
    pub try_one_request-Tried :
        Returns (try_one_request do_request fuel s) (λ (more, s'). Try s more s' × Attempt s s')
    unfolding try_one_request read_le slice
    try_one_request-Tried = elim (Bool-cases (ltb (length s.conn.rbuf) 4)) [
      | inl short ↦ (
        (false, s),
        rw short,
        waits-Tried do_request Ready serves fewer s v (λ h. ground (arith, short))
            (λ cmd rest asks. too_short s.conn.rbuf cmd rest asks short),
      )
      | inr long ↦
          let rbuf = s.conn.rbuf in
          let len = from_le (take 4 rbuf) in
          let ahead : leb (0 + 4) (length rbuf) ≡ true = ground arith in
          elim (Bool-cases (ltb k_max_msg len)) [
            | inl large ↦ (
              (false, with_state do_request Ready serves fewer s ended),
              rw (long, ahead, large),
              stops-Tried do_request Ready serves fewer s v
                  (λ cmd rest asks. too_long rbuf cmd rest asks large),
            )
            | inr small ↦
                let word : u32 (4 + len) ≡ 4 + len = ground (arith, small) in
                elim (Bool-cases (ltb (length rbuf) (4 + len))) [
                  | inl part ↦ (
                    (false, s),
                    rw (long, ahead, small, word, part),
                    waits-Tried do_request Ready serves fewer s v (λ h. ground (arith, part, small))
                        (λ cmd rest asks. in_part rbuf cmd rest asks part),
                  )
                  | inr whole ↦
                      let fits : leb (4 + len) (length rbuf) ≡ true = ground (arith, whole) in
                      let body = take len (drop 4 rbuf) in
                      let front = front-framed rbuf v.bytes (ground (arith, whole)) in
                      let (r, run, tried) =
                        act-Tried body (drop (4 + len) rbuf) (refused_NoRequest rbuf) front
                          (ground (arith, small, length-take len (drop 4 rbuf)))
                          (All-drop IsByte (4 + len) rbuf v.bytes)
                          (parsed_body len rbuf v.bytes small) in
                      (r, rw (long, ahead, small, word, whole, fits) run, tried)
                ]
          ]
    ]
