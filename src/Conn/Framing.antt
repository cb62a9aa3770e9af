-- ===== src/Conn/Framing.antt =====
-- Messages behind their length, in `rbuf` and in `wbuf`.
use redis_c.Base.{
  ℕ, ◌+◌, ◌≤◌, ◌≡◌, inl, inr, sym, ap, ◌∙◌, true, List, ◌++◌, ltb, leb, length, take, drop, u32, ok,
  Bool-cases, arith, All, All-take, append_assoc, length-append, length-drop, length-take, drop-add,
  take-append-drop, take-append, drop-append, none, some,
}
use redis_c.Wire.{le_bytes, from_le}
use redis_c.Wire.Bytes.{IsByte, le_bytes-from_le, length-le_bytes, from_le-le_bytes_4}
use redis_c.Reply.{out_err}
use redis_c.Request.{Command, k_max_msg, parse_req}
use redis_c.Request.Format.{request_bytes}
use redis_c.Request.Complete.{parse_req-request_bytes}
use redis_c.Client.Exchange.{small-Is32}
use redis_c.Conn.{buf_size, capped, pack_reply}
use redis_c.Conn.Stream.{framed, Asks, NoRequest}

-- a reply fits the buffer with its length
pub capped-fits : (out : List ℕ) → 4 + length (capped out) ≤ k_max_msg
unfolding capped out_err le_bytes
capped-fits out = elim (Bool-cases (ltb k_max_msg (4 + length out))) [
  | inl large ↦ rw large (omega arith)
  | inr small ↦ rw small (ground arith)
]

pub pack_reply-framed : (out : List ℕ) → pack_reply (capped out) ≡ ok (framed (capped out))
unfolding pack_reply framed
pack_reply-framed out =
    let fits = capped-fits out in
    let room : leb (4 + length (capped out)) buf_size ≡ true = ground arith in
    let word : u32 (length (capped out)) ≡ length (capped out) = omega arith in rw (room, word)

pub length-framed : (bytes : List ℕ) → length (framed bytes) ≡ 4 + length bytes
unfolding framed
length-framed bytes =
    omega (arith, length-append (le_bytes 4 (length bytes)) bytes, length-le_bytes 4 (length bytes))

-- The front of the buffer is a message behind its length.
pub front-framed :
    (rbuf : List ℕ)
    → All IsByte rbuf
    → 4 + from_le (take 4 rbuf) ≤ length rbuf
    → rbuf
      ≡ framed (take (from_le (take 4 rbuf)) (drop 4 rbuf)) ++ drop (4 + from_le (take 4 rbuf)) rbuf
unfolding framed
front-framed rbuf bytes fits =
    let w = take 4 rbuf in
    let len = from_le w in
    let body = take len (drop 4 rbuf) in
    let four : length w ≡ 4 = omega (arith, length-take 4 rbuf) in
    let word = le_bytes-from_le w four (All-take IsByte 4 rbuf bytes) in
    let size : length body ≡ len =
      omega (arith, length-take len (drop 4 rbuf), length-drop 4 rbuf) in
    let tail : drop (4 + len) rbuf ≡ drop len (drop 4 rbuf) = drop-add 4 len rbuf in
    sym (
      append_assoc (le_bytes 4 (length body)) body (drop (4 + len) rbuf)
      ∙ ap (λ k. le_bytes 4 k ++ (body ++ drop (4 + len) rbuf)) size
      ∙ ap (λ l. l ++ (body ++ drop (4 + len) rbuf)) word
      ∙ ap (λ l. w ++ (body ++ l)) tail
      ∙ ap (λ l. w ++ l) (take-append-drop len (drop 4 rbuf))
      ∙ take-append-drop 4 rbuf)

-- what `try_one_request` reads of a request that the server accepts
module _ (d : List ℕ) (cmd : Command) (rest : List ℕ) (asks : Asks d cmd rest) where
  pub Asks-length : length d ≡ 4 + length (request_bytes cmd) + length rest
  Asks-length =
      ap length asks.0
      ∙ omega (
        arith,
        length-append (framed (request_bytes cmd)) rest,
        length-framed (request_bytes cmd),
      )

  parts : d ≡ le_bytes 4 (length (request_bytes cmd)) ++ (request_bytes cmd ++ rest)
  unfolding framed
  parts = asks.0 ∙ append_assoc (le_bytes 4 (length (request_bytes cmd))) (request_bytes cmd) rest

  four : length (le_bytes 4 (length (request_bytes cmd))) ≡ 4
  four = length-le_bytes 4 (length (request_bytes cmd))

  pub Asks-header : from_le (take 4 d) ≡ length (request_bytes cmd)
  Asks-header =
      let w = le_bytes 4 (length (request_bytes cmd)) in
      ap (λ l. from_le (take 4 l)) parts
      ∙ ap (λ k. from_le (take k (w ++ (request_bytes cmd ++ rest)))) (sym four)
      ∙ ap from_le (take-append w (request_bytes cmd ++ rest))
      ∙ from_le-le_bytes_4 (length (request_bytes cmd)) (omega (arith, asks.1))

  pub Asks-body : take (from_le (take 4 d)) (drop 4 d) ≡ request_bytes cmd
  Asks-body =
      let w = le_bytes 4 (length (request_bytes cmd)) in
      ap (λ k. take k (drop 4 d)) Asks-header
      ∙ ap (λ l. take (length (request_bytes cmd)) (drop 4 l)) parts
      ∙ ap (λ k. take (length (request_bytes cmd)) (drop k (w ++ (request_bytes cmd ++ rest))))
          (sym four)
      ∙ ap (take (length (request_bytes cmd))) (drop-append w (request_bytes cmd ++ rest))
      ∙ take-append (request_bytes cmd) rest

-- a body that `parse_req` refuses is the layout of no command
pub refused_NoRequest :
    (d : List ℕ) → parse_req (take (from_le (take 4 d)) (drop 4 d)) ≡ ok none → NoRequest d
refused_NoRequest d refused cmd rest asks =
    let parsed = parse_req-request_bytes cmd (small-Is32 cmd asks.1) asks.2 in
    differ (sym refused ∙ ap parse_req (Asks-body d cmd rest asks) ∙ parsed)
  where
    differ : ok none ≡ ok (some cmd) → ⊥
    differ e = cc
