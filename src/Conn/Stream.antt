-- ===== src/Conn/Stream.antt =====
-- What a connection does to the stream of requests: one after the other, in order, each answered.
use redis_c.Base.{
  ℕ, ◌≤◌, ◌<◌, ◌⊎◌, ◌≡◌, sym, ap, ◌∙◌, List, [], ◌++◌, length, Run, ok, append_assoc, append-nil,
}
use mathlib.Core.Path.{subst}
use redis_c.Wire.{le_bytes}
use redis_c.Request.{Command, k_max_msg, k_max_args}
use redis_c.Request.Format.{request_bytes}
use redis_c.Conn.{Conn, capped, Session}
use redis_c.Conn.Flush.{unsent}

-- a message behind its length
unfoldable pub framed : List ℕ → List ℕ
framed bytes = le_bytes 4 (length bytes) ++ bytes

-- the stream starts with a request that the server accepts: the layout of a command, behind its length
abbrev pub Asks : List ℕ → Command → List ℕ → Type 0
Asks stream cmd rest =
    (stream ≡ framed (request_bytes cmd) ++ rest)
    × (length (request_bytes cmd) ≤ k_max_msg)
    × (length cmd ≤ k_max_args)

abbrev pub NoRequest : List ℕ → Type 0
NoRequest stream = (cmd : Command) (rest : List ℕ) → Asks stream cmd rest → ⊥

-- nothing more can be served: there is no request, or the last reply is not sent
abbrev pub Settled : Conn → Type 0
Settled c = NoRequest c.rbuf ⊎ (c.wbuf_sent < length c.wbuf)

module _ {ℓ} {G : Type ℓ} (do_request : Command → G → Run (List ℕ × G)) where
  -- from the data `g`, the requests at the front of the stream are served: the replies so far, the
  -- data then, and the bytes of the stream that are left
  pub data Serves (g : G) (stream : List ℕ) : List ℕ → G → List ℕ → Type ℓ where
    start : Serves g stream [] g stream
    next :
        {replies left : List ℕ} {g₁ : G} (cmd : Command) (out : List ℕ) (g₂ : G)
        → Serves g stream replies g₁ (framed (request_bytes cmd) ++ left)
        → do_request cmd g₁ ≡ ok (out, g₂)
        → Serves g stream (replies ++ framed (capped out)) g₂ left

  -- more bytes may come later
  pub Serves-append :
      {g : G} {stream : List ℕ} (more : List ℕ) {replies : List ℕ} {g₁ : G} {left : List ℕ}
      → Serves g stream replies g₁ left
      → Serves g (stream ++ more) replies g₁ (left ++ more)
  Serves-append more start = start
  Serves-append {g} {stream} more {left = left} (next {replies} {g₁} cmd out g₂ steps run) =
      let longer =
        subst (λ l. Serves g (stream ++ more) replies g₁ l)
          (append_assoc (framed (request_bytes cmd)) left more) (Serves-append more steps) in
      next cmd out g₂ longer run

  pub Serves-trans :
      {g : G} {a r : List ℕ} {g₁ : G} {b r' : List ℕ} {g₂ : G} {c : List ℕ}
      → Serves g a r g₁ b
      → Serves g₁ b r' g₂ c
      → Serves g a (r ++ r') g₂ c
  Serves-trans {g} {a} {r} {g₂ = g₂} {c} steps start =
      subst (λ l. Serves g a l g₂ c) (sym (append-nil r)) steps
  Serves-trans {g} {a} {r} {g₂ = g₂} {c} steps (next {replies} cmd out g₃ steps' run) =
      subst (λ l. Serves g a l g₂ c) (append_assoc r replies (framed (capped out)))
        (next cmd out g₃ (Serves-trans steps steps') run)

  -- From one session to a later one: the bytes that came, the replies, and what was made of them.
  pub record Advances (s s' : Session G) : Type ℓ where
    pub news : List ℕ
    pub replies : List ℕ
    pub received : s'.socket.received ≡ s.socket.received ++ news
    pub steps : Serves s.store (s.conn.rbuf ++ news) replies s'.store s'.conn.rbuf
    pub kept : s'.socket.sent ++ unsent s'.conn ≡ (s.socket.sent ++ unsent s.conn) ++ replies

  unfoldable pub advance_twice : (a b c : Session G) → Advances a b → Advances b c → Advances a c
  advance_twice a b c p q = record {
    news = p.news ++ q.news;
    replies = p.replies ++ q.replies;
    received =
        q.received
        ∙ ap (λ l. l ++ q.news) p.received
        ∙ append_assoc a.socket.received p.news q.news;
    steps =
        subst (λ l. Serves a.store l (p.replies ++ q.replies) c.store c.conn.rbuf)
          (append_assoc a.conn.rbuf p.news q.news)
          (Serves-trans (Serves-append q.news p.steps) q.steps);
    kept =
        q.kept
        ∙ ap (λ l. l ++ q.replies) p.kept
        ∙ append_assoc (a.socket.sent ++ unsent a.conn) p.replies q.replies;
  }
