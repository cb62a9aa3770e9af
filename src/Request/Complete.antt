-- ===== src/Request/Complete.antt =====
-- `parse_req` on the layout of a request.
use redis_c.Base.{
  ℕ, ◌+◌, ◌^◌, ◌<◌, ◌≤◌, ◌≡◌, sym, ap, ◌∙◌, some, List, [], ◌∷◌, ◌++◌, u32, ltb, length, ==_refl,
  le→ltb, false, ok, arith, All, length-append, append_assoc, append-nil,
}
use redis_c.Wire.{read_le, slice, le_bytes}
use redis_c.Wire.Bytes.{length-le_bytes, read_word, slice-append}
use redis_c.Request.{Command, parse_args, parse_req, k_max_args}
use redis_c.Request.Format.{arg_bytes, args_bytes, request_bytes}

abbrev pub Is32 : List ℕ → Type 0
Is32 s = 4 + length s < 2 ^ 32

module _ (pre s rest : List ℕ) (small : Is32 s) where
  whole : pre ++ (arg_bytes s ++ rest) ≡ pre ++ (le_bytes 4 (length s) ++ (s ++ rest))
  unfolding arg_bytes
  whole = rw (append_assoc (le_bytes 4 (length s)) s rest)

  next_length : length (pre ++ arg_bytes s) ≡ length pre + (4 + length s)
  unfolding arg_bytes
  next_length = omega (
    arith,
    length-append pre (le_bytes 4 (length s) ++ s),
    length-append (le_bytes 4 (length s)) s,
    length-le_bytes 4 (length s),
  )

  next_size : read_le 4 (pre ++ (arg_bytes s ++ rest)) (length pre) ≡ ok (length s)
  next_size = rw whole (read_word pre (length s) (s ++ rest) (omega arith))

  next_string : slice (pre ++ (arg_bytes s ++ rest)) (length pre + 4) (length s) ≡ ok s
  next_string =
      let four : length (pre ++ le_bytes 4 (length s)) ≡ length pre + 4 =
        omega (arith, length-append pre (le_bytes 4 (length s)), length-le_bytes 4 (length s)) in
      let found = slice-append (pre ++ le_bytes 4 (length s)) s rest in
      rw (whole, ← append_assoc pre (le_bytes 4 (length s)) (s ++ rest), ← four) found

  in_range : (length pre + (4 + length s) ≤ length (pre ++ (arg_bytes s ++ rest)))
  in_range = omega (
    arith,
    next_length,
    length-append (pre ++ arg_bytes s) rest,
    ap length (append_assoc pre (arg_bytes s) rest),
  )

parse_args-args_bytes :
    (cmd : Command) (pre : List ℕ) (out : Command)
    → All Is32 cmd
    → parse_args (pre ++ args_bytes cmd) (length cmd) (length pre) out ≡ ok (some (out ++ cmd))
unfolding parse_args args_bytes
parse_args-args_bytes [] pre out h = rw (append-nil pre, append-nil out, ==_refl)
parse_args-args_bytes (s ∷ cmd) pre out h =
    let rest = args_bytes cmd in
    let fits = in_range pre s rest h.0 in
    let ih = parse_args-args_bytes cmd (pre ++ arg_bytes s) (out ++ s ∷ []) h.1 in
    let d = pre ++ (arg_bytes s ++ rest) in
    let size_inside : ltb (length d) (length pre + 4) ≡ false = le→ltb _ _ (omega (arith, fits)) in
    let string_inside : ltb (length d) (length pre + 4 + length s) ≡ false =
      le→ltb _ _ (omega (arith, fits)) in
    let word : u32 (4 + length s) ≡ 4 + length s = omega (arith, h.0) in
    rw
      (
        size_inside,
        next_size pre s rest h.0,
        string_inside,
        next_string pre s rest h.0,
        word,
        ← next_length pre s rest h.0,
      )
      (ap (λ l. parse_args l (length cmd) (length (pre ++ arg_bytes s)) (out ++ s ∷ []))
          (sym (append_assoc pre (arg_bytes s) rest))
        ∙ ih
        ∙ ap (λ l. ok (some l)) (append_assoc out (s ∷ []) cmd))

-- The layout of a command of at most 1024 strings, each shorter than 2 ^ 32 - 4, is parsed by
-- `parse_req` to that command.
pub parse_req-request_bytes :
    (cmd : Command)
    → All Is32 cmd
    → length cmd ≤ k_max_args
    → parse_req (request_bytes cmd) ≡ ok (some cmd)
unfolding parse_req request_bytes
parse_req-request_bytes cmd small few =
    let hd = le_bytes 4 (length cmd) in
    let four : length hd ≡ 4 = length-le_bytes 4 (length cmd) in
    let long : ltb (length (hd ++ args_bytes cmd)) 4 ≡ false =
      le→ltb _ _ (omega (arith, length-append hd (args_bytes cmd), four)) in
    let count_read = read_word [] (length cmd) (args_bytes cmd) (omega arith) in
    rw (long, count_read, le→ltb k_max_args (length cmd) few)
      (rw four at (parse_args-args_bytes cmd hd [] small))
