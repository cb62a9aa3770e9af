-- ===== src/Client/Exchange.antt =====
-- Between the two programs: `send_req` of the client and `parse_req` of the server.
use redis_c.Base.{
  ℕ, ◌+◌, ◌^◌, ◌<◌, ◌≤◌, ◌≡◌, refl, sym, ap, ◌∙◌, some, true, false, ltb, Bool-cases, inl, inr,
  List, [], ◌∷◌, ◌++◌, length, take, drop, ok, Returns, arith, All, length-append, take-append,
  drop-append,
}
use redis_c.Wire.{le_bytes, from_le}
use redis_c.Wire.Bytes.{length-le_bytes, from_le-le_bytes_4}
use redis_c.Io.{Write}
use redis_c.Io.Transfer.{CoversWrite, write_all-SendsPart}
use redis_c.Request.{Command, parse_req, k_max_msg}
use redis_c.Request.Format.{args_size, length-args_bytes, args_bytes, request_bytes}
use redis_c.Request.Complete.{Is32, parse_req-request_bytes}
use redis_c.Client.{pack_req, send_req}
use redis_c.Client.Send.{frame_bytes, pack_req-fits, pack_req-too_long, length-le-args_size}

args_size-Is32 : (cmd : Command) → args_size cmd < 2 ^ 32 → All Is32 cmd
unfolding args_size
args_size-Is32 [] h = tt
args_size-Is32 (s ∷ cmd) h = (omega arith, args_size-Is32 cmd (omega arith))

pub length-request_bytes : (cmd : Command) → length (request_bytes cmd) ≡ 4 + args_size cmd
unfolding request_bytes
length-request_bytes cmd = omega (
  arith,
  length-append (le_bytes 4 (length cmd)) (args_bytes cmd),
  length-le_bytes 4 (length cmd),
  length-args_bytes cmd,
)

pub small-Is32 : (cmd : Command) → length (request_bytes cmd) ≤ k_max_msg → All Is32 cmd
small-Is32 cmd fits = args_size-Is32 cmd (omega (arith, fits, length-request_bytes cmd))

-- what `send_req` sends for a command that fits
pub record Framed (cmd : Command) (bytes : List ℕ) : Type 0 where
  pub header : from_le (take 4 bytes) ≡ length (drop 4 bytes)
  pub few : length (drop 4 bytes) ≤ k_max_msg
  pub parsed : parse_req (drop 4 bytes) ≡ ok (some cmd)

frame_bytes-Framed : (cmd : Command) → 4 + args_size cmd ≤ k_max_msg → Framed cmd (frame_bytes cmd)
unfolding frame_bytes
frame_bytes-Framed cmd fits =
    let w = le_bytes 4 (4 + args_size cmd) in
    let r = request_bytes cmd in
    let four : length w ≡ 4 = length-le_bytes 4 (4 + args_size cmd) in
    let head : take 4 (w ++ r) ≡ w = ap (λ k. take k (w ++ r)) (sym four) ∙ take-append w r in
    let body : drop 4 (w ++ r) ≡ r = ap (λ k. drop k (w ++ r)) (sym four) ∙ drop-append w r in
    record {
      header =
          ap from_le head
          ∙ from_le-le_bytes_4 (4 + args_size cmd) (omega arith)
          ∙ sym (length-request_bytes cmd)
          ∙ ap length (sym body);
      few = omega (arith, ap length body, length-request_bytes cmd, fits);
      parsed =
          ap parse_req body
          ∙ parse_req-request_bytes cmd (args_size-Is32 cmd (omega arith))
              (omega (arith, fits, length-le-args_size cmd));
    }

-- For a command whose request has at most 4096 bytes, `send_req` packs bytes of which the first
-- four are the length of the others, at most 4096, and the others are parsed by `parse_req` of
-- the server to that command.
pub pack_req-parse_req :
    (cmd : Command)
    → 4 + args_size cmd ≤ k_max_msg
    → Returns (pack_req cmd) (λ o. (bytes : List ℕ) × (o ≡ some bytes) × Framed cmd bytes)
pack_req-parse_req cmd fits = (
  some (frame_bytes cmd),
  pack_req-fits cmd fits,
  (frame_bytes cmd, refl, frame_bytes-Framed cmd fits),
)

-- For a command whose request has at most 4096 bytes, and a kernel that answers every `write`
-- of the loop with at most what was offered, `send_req` returns. If its result is 0, then the
-- bytes that reached the socket are a length, and a request of that length which `parse_req`
-- parses to the command.
pub send_req-sends :
    (cmd : Command) (answers : List Write)
    → 4 + args_size cmd ≤ k_max_msg
    → CoversWrite answers (8 + args_size cmd)
    → Returns (send_req answers cmd) (λ r. r.done ≡ true → Framed cmd r.sent)
unfolding send_req frame_bytes
send_req-sends cmd answers fits cover =
    let w = le_bytes 4 (4 + args_size cmd) in
    let size : length (frame_bytes cmd) ≡ 8 + args_size cmd = omega (
      arith,
      length-append w (request_bytes cmd),
      length-le_bytes 4 (4 + args_size cmd),
      length-request_bytes cmd,
    ) in
    let (r, run, (k, part, whole)) =
      write_all-SendsPart answers (frame_bytes cmd) (rw size cover) in
    (r, rw (pack_req-fits cmd fits) run, λ d. rw (whole d) (frame_bytes-Framed cmd fits))

-- For a command whose request is below 2 ^ 32 bytes, and a kernel that, if the request has at
-- most 4096 bytes, answers every `write` of the loop with at most what was offered, `send_req`
-- returns. If the request has more than 4096 bytes, nothing is sent and the result is an error.
-- Otherwise what is sent is a first part of the framed request, and all of it if the result is
-- 0.
pub send_req-limit :
    (cmd : Command) (answers : List Write)
    → length (request_bytes cmd) < 2 ^ 32
    → (length (request_bytes cmd) ≤ k_max_msg
        → CoversWrite answers (4 + length (request_bytes cmd)))
    → Returns (send_req answers cmd) (λ r.
      (k_max_msg < length (request_bytes cmd) → (r.sent ≡ []) × (r.done ≡ false))
      × (length (request_bytes cmd) ≤ k_max_msg
          → (k : ℕ) × (r.sent ≡ take k (frame_bytes cmd))
            × (r.done ≡ true → r.sent ≡ frame_bytes cmd)))
unfolding send_req frame_bytes
send_req-limit cmd answers small cover =
    let same = length-request_bytes cmd in
    elim (Bool-cases (ltb k_max_msg (length (request_bytes cmd)))) [
      | inl long ↦
          let over : k_max_msg < length (request_bytes cmd) = ground arith in
          (
            record { sent = []; done = false },
            rw (pack_req-too_long cmd (omega (arith, over, same)) (omega (arith, small, same))),
            (λ h. (refl, refl), λ h. absurd (omega (arith, h, over))),
          )
      | inr fits ↦
          let under : length (request_bytes cmd) ≤ k_max_msg = ground arith in
          let w = le_bytes 4 (4 + args_size cmd) in
          let size : length (frame_bytes cmd) ≡ 4 + length (request_bytes cmd) =
            omega
              (arith, length-append w (request_bytes cmd), length-le_bytes 4 (4 + args_size cmd)) in
          let (r, run, part) =
            write_all-SendsPart answers (frame_bytes cmd) (rw size (cover under)) in
          (
            r,
            rw (pack_req-fits cmd (omega (arith, under, same))) run,
            (λ h. absurd (omega (arith, h, under)), λ h. part),
          )
    ]
