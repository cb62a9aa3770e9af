-- ===== src/Conn/Flush.antt =====
-- `state_res` and the reply buffer.
use redis_c.Base.{
  ℕ, zero, suc, ◌+◌, ◌-◌, ◌<◌, ◌≤◌, ◌≡◌, ◌≢◌, ◌⊎◌, inl, inr, refl, sym, ap, ◌∙◌, true, false, List,
  [], ◌∷◌, ◌++◌, leb, ◌==◌, ==_iff, length, take, drop, u64, Returns, Bool-cases, arith,
  append_assoc, eq-nil_of_length, length-drop, drop-add, take-append-drop,
}
use redis_c.Conn.{
  req, res, ended, Conn, buf_size, WriteAnswer, took, write_again, write_interrupted, write_error,
  Socket, write_once, after_write, try_flush_buffer, state_res,
}

-- the part of the reply that is still to be sent
abbrev pub unsent : Conn → List ℕ
unsent c = drop c.wbuf_sent c.wbuf

-- The reply buffer: empty in STATE_REQ, something left to send in STATE_RES.
pub record IsSending (c : Conn) : Type 0 where
  pub inside : c.wbuf_sent ≤ length c.wbuf
  pub small : length c.wbuf ≤ buf_size
  pub idle : c.state ≡ req → c.wbuf ≡ []
  pub busy : c.state ≡ res → c.wbuf_sent < length c.wbuf

-- what a flush keeps: no byte of the reply is lost or sent twice
pub record Flushed (c : Conn) (s : Socket) (c' : Conn) (s' : Socket) : Type 0 where
  pub valid : IsSending c'
  pub rbuf : c'.rbuf ≡ c.rbuf
  pub reads : s'.reads ≡ s.reads
  pub received : s'.received ≡ s.received
  pub writes : length s'.writes ≤ length s.writes
  pub kept : s'.sent ++ unsent c' ≡ s.sent ++ unsent c
  pub stuck : c'.state ≢ req → c'.wbuf_sent < length c'.wbuf

pub Flushed-trans :
    (c : Conn) (s : Socket) (c₁ : Conn) (s₁ : Socket) (c₂ : Conn) (s₂ : Socket)
    → Flushed c s c₁ s₁
    → Flushed c₁ s₁ c₂ s₂
    → Flushed c s c₂ s₂
Flushed-trans c s c₁ s₁ c₂ s₂ a b = record {
  valid = b.valid;
  rbuf = b.rbuf ∙ a.rbuf;
  reads = b.reads ∙ a.reads;
  received = b.received ∙ a.received;
  writes = omega (arith, a.writes, b.writes);
  kept = b.kept ∙ a.kept;
  stuck = b.stuck;
}

abbrev AtMost : ℕ → WriteAnswer → Type 0
AtMost n (took k) = k ≤ n
AtMost n write_again = Unit
AtMost n write_interrupted = Unit
AtMost n write_error = Unit

write_once-AtMost :
    (n : ℕ) (ws : List WriteAnswer)
    → AtMost n (write_once n ws).0
      × (((write_once n ws).0 ≡ write_again) ⊎ (length (write_once n ws).1 < length ws))
unfolding write_once
write_once-AtMost n [] = (tt, inl refl)
write_once-AtMost n (took k ∷ ws) = (omega arith, inr (omega arith))
write_once-AtMost n (write_again ∷ ws) = (tt, inl refl)
write_once-AtMost n (write_error ∷ ws) = (tt, inr (omega arith))
write_once-AtMost n (write_interrupted ∷ ws) = elim (write_once-AtMost n ws).1 [
  | inl e ↦ ((write_once-AtMost n ws).0, inl e)
  | inr h ↦ ((write_once-AtMost n ws).0, inr (omega (arith, h)))
]

write_once-shorter : (n : ℕ) (ws : List WriteAnswer) → length (write_once n ws).1 ≤ length ws
unfolding write_once
write_once-shorter n [] = omega arith
write_once-shorter n (took k ∷ ws) = omega arith
write_once-shorter n (write_again ∷ ws) = omega arith
write_once-shorter n (write_error ∷ ws) = omega arith
write_once-shorter n (write_interrupted ∷ ws) = omega (arith, write_once-shorter n ws)

-- A write that ends the flush, with nothing sent.
stopped :
    (c : Conn) (s : Socket)
    → IsSending c
    → c.state ≡ res
    → Flushed c s c s × Flushed c s (record c { state = ended }) s
stopped c s v here = (
  record {
    valid = v;
    rbuf = refl;
    reads = refl;
    received = refl;
    writes = omega arith;
    kept = refl;
    stuck = λ e. v.busy here;
  },
  record {
    valid = record {
      inside = v.inside;
      small = v.small;
      idle = λ e. absurd (cc);
      busy = λ e. absurd (cc);
    };
    rbuf = refl;
    reads = refl;
    received = refl;
    writes = omega arith;
    kept = refl;
    stuck = λ e. v.busy here;
  },
)

sent_part :
    (c : Conn) (s : Socket) (k : ℕ)
    → (s.sent ++ take k (unsent c)) ++ drop (c.wbuf_sent + k) c.wbuf ≡ s.sent ++ unsent c
sent_part c s k =
    append_assoc s.sent (take k (unsent c)) (drop (c.wbuf_sent + k) c.wbuf)
    ∙ ap (λ l. s.sent ++ (take k (unsent c) ++ l)) (drop-add c.wbuf_sent k c.wbuf)
    ∙ ap (λ l. s.sent ++ l) (take-append-drop k (unsent c))

after_write-Flushed :
    (answer : WriteAnswer) (c : Conn) (s : Socket)
    → c.state ≡ res
    → IsSending c
    → AtMost (length c.wbuf - c.wbuf_sent) answer
    → Returns (after_write answer c s) (λ (more, c', s').
      Flushed c s c' s'
      × (s'.writes ≡ s.writes)
      × (more ≡ true → (answer ≢ write_again) × (c'.state ≡ res)))
unfolding after_write
after_write-Flushed write_again c s here v fits =
    (_, refl, ((stopped c s v here).0, refl, λ e. absurd (cc)))
after_write-Flushed write_interrupted c s here v fits =
    (_, refl, ((stopped c s v here).0, refl, λ e. absurd (cc)))
after_write-Flushed write_error c s here v fits =
    (_, refl, ((stopped c s v here).1, refl, λ e. absurd (cc)))
after_write-Flushed (took k) c s here v fits =
    let exact : u64 (c.wbuf_sent + k) ≡ c.wbuf_sent + k = omega (arith, v.inside, v.small, fits) in
    let ahead : leb (c.wbuf_sent + k) (length c.wbuf) ≡ true = ground (arith, v.inside, fits) in
    elim (Bool-cases (c.wbuf_sent + k == length c.wbuf)) [
      | inl all_sent ↦
          let whole : c.wbuf_sent + k ≡ length c.wbuf =
            (==_iff (c.wbuf_sent + k) (length c.wbuf)).0 all_sent in
          let gone : drop (c.wbuf_sent + k) c.wbuf ≡ [] =
            eq-nil_of_length (drop (c.wbuf_sent + k) c.wbuf)
              (omega (arith, whole, length-drop (c.wbuf_sent + k) c.wbuf)) in
          (
            (
              false,
              record c { state = req; wbuf_sent = 0; wbuf = [] },
              record s { sent = s.sent ++ take k (unsent c) },
            ),
            rw (exact, ahead, all_sent),
            (
              record {
                valid = record {
                  inside = omega arith;
                  small = omega arith;
                  idle = λ e. refl;
                  busy = λ e. absurd (cc);
                };
                rbuf = refl;
                reads = refl;
                received = refl;
                writes = omega arith;
                kept = ap (λ l. (s.sent ++ take k (unsent c)) ++ l) (sym gone) ∙ sent_part c s k;
                stuck = λ e. absurd (e refl);
              },
              refl,
              λ e. absurd (cc),
            ),
          )
      | inr some_left ↦ (
        (
          true,
          record c { wbuf_sent = c.wbuf_sent + k },
          record s { sent = s.sent ++ take k (unsent c) },
        ),
        rw (exact, ahead, some_left),
        (
          record {
            valid = record {
              inside = omega (arith, v.inside, fits);
              small = v.small;
              idle = λ e. absurd (cc);
              busy = λ e. ground (arith, v.inside, fits, some_left);
            };
            rbuf = refl;
            reads = refl;
            received = refl;
            writes = omega arith;
            kept = sent_part c s k;
            stuck = λ e. ground (arith, v.inside, fits, some_left);
          },
          refl,
          λ e. (λ e'. cc, here),
        ),
      )
    ]

-- a flush that goes on has used up an answer
try_flush_buffer-Flushed :
    (c : Conn) (s : Socket)
    → c.state ≡ res
    → IsSending c
    → Returns (try_flush_buffer c s) (λ (more, c', s').
      Flushed c s c' s' × (more ≡ true → (length s'.writes < length s.writes) × (c'.state ≡ res)))
unfolding try_flush_buffer
try_flush_buffer-Flushed c s here v =
    let n = length c.wbuf - c.wbuf_sent in
    let (fits, used) = write_once-AtMost n s.writes in
    let ws = (write_once n s.writes).1 in
    let ((more, c', s'), run, (flushed, same, goes)) =
      after_write-Flushed (write_once n s.writes).0 c (record s { writes = ws }) here v fits in
    (
      (more, c', s'),
      run,
      (
        record {
          valid = flushed.valid;
          rbuf = flushed.rbuf;
          reads = flushed.reads;
          received = flushed.received;
          writes = omega (arith, flushed.writes, write_once-shorter n s.writes);
          kept = flushed.kept;
          stuck = flushed.stuck;
        },
        λ e. (
          elim used [ inl stop ↦ absurd ((goes e).0 stop) | inr less ↦ rw same less ],
          (goes e).1,
        ),
      ),
    )

-- On a well-formed reply buffer in STATE_RES, with fuel above the number of answers that the
-- socket has for `write`, `state_res` returns and its assertion holds. It neither reads nor
-- changes `rbuf`, no byte of the reply is lost or sent twice, and the reply buffer stays well
-- formed: empty in STATE_REQ, with something left to send in any other state.
pub state_res-Flushed :
    (fuel : ℕ) (c : Conn) (s : Socket)
    → c.state ≡ res
    → IsSending c
    → length s.writes < fuel
    → Returns (state_res fuel c s) (λ (c', s'). Flushed c s c' s')
unfolding state_res
state_res-Flushed zero c s here v enough = absurd (omega arith)
state_res-Flushed (suc fuel) c s here v enough =
    go (λ c' s' here' v' less. state_res-Flushed fuel c' s' here' v' (omega (arith, less)))
      (try_flush_buffer-Flushed c s here v)
  where
    go :
        ((c' : Conn) (s' : Socket)
          → c'.state ≡ res
          → IsSending c'
          → length s'.writes < length s.writes
          → Returns (state_res fuel c' s') (λ (c'', s''). Flushed c' s' c'' s''))
        → Returns (try_flush_buffer c s) (λ (more, c', s').
          Flushed c s c' s'
          × (more ≡ true → (length s'.writes < length s.writes) × (c'.state ≡ res)))
        → Returns (state_res (suc fuel) c s) (λ (c', s'). Flushed c s c' s')
    go next ((false, c', s'), run, (flushed, goes)) = ((c', s'), rw run, flushed)
    go next ((true, c', s'), run, (flushed, goes)) =
        let (less, here') = goes refl in
        let ((c'', s''), run', more) = next c' s' here' flushed.valid less in
        ((c'', s''), rw run run', Flushed-trans c s c' s' c'' s'' flushed more)
