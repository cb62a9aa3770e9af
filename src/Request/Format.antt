-- ===== src/Request/Format.antt =====
-- The layout of a request that README.md draws: nstr, then a length and a string for each string.
use redis_c.Base.{
  ℕ, ◌+◌, ◌≡◌, refl, sym, ap, ◌∙◌, List, [], ◌∷◌, ◌++◌, arith, length, length-append, append_assoc,
  append-nil,
}
use redis_c.Wire.{le_bytes}
use redis_c.Wire.Bytes.{length-le_bytes}
use redis_c.Request.{Command}

unfoldable pub arg_bytes : List ℕ → List ℕ
arg_bytes s = le_bytes 4 (length s) ++ s

unfoldable pub args_bytes : Command → List ℕ
unfolding arg_bytes
args_bytes [] = []
args_bytes (s ∷ cmd) = arg_bytes s ++ args_bytes cmd

unfoldable pub request_bytes : Command → List ℕ
request_bytes cmd = le_bytes 4 (length cmd) ++ args_bytes cmd

-- 4 bytes and the string, for each string
unfoldable pub args_size : Command → ℕ
args_size [] = 0
args_size (s ∷ cmd) = 4 + length s + args_size cmd

pub length-args_bytes : (cmd : Command) → length (args_bytes cmd) ≡ args_size cmd
unfolding args_bytes args_size
length-args_bytes [] = refl
length-args_bytes (s ∷ cmd) = omega (
  arith,
  length-append (le_bytes 4 (length s)) s,
  length-append (le_bytes 4 (length s) ++ s) (args_bytes cmd),
  length-le_bytes 4 (length s),
  length-args_bytes cmd,
)

pub args_bytes-snoc :
    (cmd : Command) (s : List ℕ) → args_bytes (cmd ++ s ∷ []) ≡ args_bytes cmd ++ arg_bytes s
unfolding args_bytes
args_bytes-snoc [] s = append-nil (arg_bytes s)
args_bytes-snoc (t ∷ cmd) s =
    ap (λ l. arg_bytes t ++ l) (args_bytes-snoc cmd s)
    ∙ sym (append_assoc (arg_bytes t) (args_bytes cmd) (arg_bytes s))
