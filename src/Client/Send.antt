-- ===== src/Client/Send.antt =====
-- `send_req` up to `write_all`, and its buffer.
use mathlib.Core.Path.{ap₂}
use redis_c.Base.{
  ℕ, ◌+◌, ◌*◌, ◌^◌, ◌<◌, ◌≤◌, ◌≡◌, sym, ap, ◌∙◌, none, some, List, [], ◌∷◌, ◌++◌, length, drop,
  le→ltb, lt→ltb, u32, ok, ◌>>=◌, bind_assoc, arith, length-append, append_assoc, append-nil,
  drop-add, length-drop, length-replicate,
}
use redis_c.Wire.{le_bytes, slice, write_at}
use redis_c.Wire.Bytes.{length-le_bytes, write_at-append, slice-append}
use redis_c.Request.{Command, k_max_msg}
use redis_c.Request.Format.{arg_bytes, args_bytes, request_bytes, args_size, length-args_bytes}
use redis_c.Client.{request_len, zeroed, fill_args, pack_req}

request_len-args_size :
    (cmd : Command) (len : ℕ)
    → len + args_size cmd < 2 ^ 32
    → request_len cmd len ≡ len + args_size cmd
unfolding request_len args_size
request_len-args_size [] len h = omega arith
request_len-args_size (s ∷ cmd) len h =
    let here : u32 (len + (4 + length s)) ≡ len + (4 + length s) = omega arith in
    rw here (request_len-args_size cmd (len + (4 + length s)) (omega arith) ∙ omega arith)

-- One string written behind what is there.
write_arg :
    (a z s : List ℕ)
    → 4 + length s ≤ length z
    → length s < 2 ^ 32
    → (write_at (a ++ z) (length a) (le_bytes 4 (u32 (length s))) >>= λ b.
        write_at b (length a + 4) s)
      ≡ ok ((a ++ arg_bytes s) ++ drop (4 + length s) z)
unfolding arg_bytes
write_arg a z s fits small =
    let w = le_bytes 4 (length s) in
    let four : length w ≡ 4 = length-le_bytes 4 (length s) in
    let word : u32 (length s) ≡ length s = omega arith in
    let first = write_at-append a z w (omega (arith, four)) in
    let at : length (a ++ w) ≡ length a + 4 = omega (arith, length-append a w, four) in
    let second =
      write_at-append (a ++ w) (drop (length w) z) s
        (omega (arith, four, length-drop (length w) z)) in
    let rest : drop (length s) (drop (length w) z) ≡ drop (4 + length s) z =
      sym (drop-add (length w) (length s) z) ∙ ap (λ k. drop (k + length s) z) four in
    rw (word, first)
      (ap₂ (λ l k. write_at l k s) (sym (append_assoc a w (drop (length w) z))) (sym at)
        ∙ second
        ∙ ap ok (sym (append_assoc (a ++ w) s _) ∙ ap₂ (λ l r. l ++ r) (append_assoc a w s) rest))

length_next : (a s : List ℕ) → length (a ++ arg_bytes s) ≡ length a + (4 + length s)
unfolding arg_bytes
length_next a s = omega (
  arith,
  length-append a (le_bytes 4 (length s) ++ s),
  length-append (le_bytes 4 (length s)) s,
  length-le_bytes 4 (length s),
)

fill_args-args_bytes :
    (cmd : Command) (a z : List ℕ)
    → args_size cmd ≤ length z
    → args_size cmd < 2 ^ 32
    → fill_args cmd (a ++ z) (length a) ≡ ok ((a ++ args_bytes cmd) ++ drop (args_size cmd) z)
unfolding fill_args args_bytes args_size
fill_args-args_bytes [] a z fits small = rw append-nil
fill_args-args_bytes (s ∷ cmd) a z fits small =
    let z' = drop (4 + length s) z in
    let step = write_arg a z s (omega (arith, fits)) (omega (arith, small)) in
    let at : length (a ++ arg_bytes s) ≡ length a + (4 + length s) = length_next a s in
    let ih =
      fill_args-args_bytes cmd (a ++ arg_bytes s) z'
        (omega (arith, fits, length-drop (4 + length s) z)) (omega (arith, small)) in
    let more = λ (b : List ℕ). fill_args cmd b (length a + (4 + length s)) in
    bind_assoc (write_at (a ++ z) (length a) (le_bytes 4 (u32 (length s))))
      (λ b. write_at b (length a + 4) s) more
    ∙ ap (λ m. m >>= more) step
    ∙ ap (fill_args cmd ((a ++ arg_bytes s) ++ z')) (sym at)
    ∙ ih
    ∙ ap ok (
        ap₂ (λ l r. l ++ r) (append_assoc a (arg_bytes s) (args_bytes cmd))
          (sym (drop-add (4 + length s) (args_size cmd) z)))

length-zeroed : (n : ℕ) → length (zeroed n) ≡ n
unfolding zeroed
length-zeroed n = length-replicate n 0

-- The four pieces of the buffer one after the other.
unfoldable pub frame_bytes : Command → List ℕ
unfolding request_bytes
frame_bytes cmd = le_bytes 4 (4 + args_size cmd) ++ request_bytes cmd

pack_into :
    (cmd : Command) (z : List ℕ)
    → 4 + args_size cmd ≤ k_max_msg
    → length cmd < 2 ^ 32
    → 8 + args_size cmd ≤ length z
    → (do
      wbuf ← write_at z 0 (le_bytes 4 (4 + args_size cmd))
      wbuf' ← write_at wbuf 4 (le_bytes 4 (u32 (length cmd)))
      filled ← fill_args cmd wbuf' 8
      bytes ← slice filled 0 (4 + (4 + args_size cmd))
      ok (some bytes))
      ≡ ok (some (frame_bytes cmd))
unfolding frame_bytes
pack_into cmd z fits few room =
    let total = 4 + args_size cmd in
    let l = le_bytes 4 total in
    let c = le_bytes 4 (length cmd) in
    let z₁ = drop (length l) z in
    let z₂ = drop (length c) z₁ in
    let f = (l ++ c) ++ args_bytes cmd in
    let z₃ = drop (args_size cmd) z₂ in
    let l4 : length l ≡ 4 = length-le_bytes 4 total in
    let c4 : length c ≡ 4 = length-le_bytes 4 (length cmd) in
    let lc8 : length (l ++ c) ≡ 8 = omega (arith, length-append l c, l4, c4) in
    let size : length f ≡ 4 + total =
      omega (arith, length-append (l ++ c) (args_bytes cmd), lc8, length-args_bytes cmd) in
    let word : u32 (length cmd) ≡ length cmd = omega arith in
    let s₁ : write_at z 0 l ≡ ok (l ++ z₁) = write_at-append [] z l (omega (arith, l4)) in
    let s₂ : write_at (l ++ z₁) 4 c ≡ ok ((l ++ c) ++ z₂) =
      ap (λ k. write_at (l ++ z₁) k c) (sym l4)
      ∙ write_at-append l z₁ c (omega (arith, l4, c4, length-drop (length l) z))
      ∙ ap ok (sym (append_assoc l c z₂)) in
    let s₃ : fill_args cmd ((l ++ c) ++ z₂) 8 ≡ ok (f ++ z₃) =
      ap (fill_args cmd ((l ++ c) ++ z₂)) (sym lc8)
      ∙ fill_args-args_bytes cmd (l ++ c) z₂
          (omega (arith, l4, c4, length-drop (length l) z, length-drop (length c) z₁))
          (omega (arith, fits)) in
    let s₄ : slice (f ++ z₃) 0 (4 + total) ≡ ok f =
      ap (slice (f ++ z₃) 0) (sym size) ∙ slice-append [] f z₃ in
    rw (s₁, word, s₂, s₃, s₄, append_assoc l c (args_bytes cmd))

-- a request of 4096 bytes has fewer than 1024 strings
pub length-le-args_size : (cmd : Command) → 4 * length cmd ≤ args_size cmd
unfolding args_size
length-le-args_size [] = omega arith
length-le-args_size (s ∷ cmd) = omega (arith, length-le-args_size cmd)

-- For a command whose request has at most 4096 bytes, `send_req` writes inside its buffer only
-- and sends the length, the number of strings, and a length and the string for each string.
pub pack_req-fits :
    (cmd : Command) → 4 + args_size cmd ≤ k_max_msg → pack_req cmd ≡ ok (some (frame_bytes cmd))
unfolding pack_req
pack_req-fits cmd fits =
    let len = request_len-args_size cmd 4 (omega arith) in
    let many = length-le-args_size cmd in
    rw (len, le→ltb k_max_msg (4 + args_size cmd) fits)
      (pack_into cmd (zeroed (4 + k_max_msg)) fits (omega arith)
        (omega (arith, length-zeroed (4 + k_max_msg))))

-- A longer request is refused.
pub pack_req-too_long :
    (cmd : Command)
    → k_max_msg < 4 + args_size cmd
    → 4 + args_size cmd < 2 ^ 32
    → pack_req cmd ≡ ok none
unfolding pack_req
pack_req-too_long cmd long small =
    let len = request_len-args_size cmd 4 small in
    rw (len, lt→ltb k_max_msg (4 + args_size cmd) long)
