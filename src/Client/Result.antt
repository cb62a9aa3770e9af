-- ===== src/Client/Result.antt =====
-- `read_res` on the frame of a reply.
use redis_c.Base.{
  ℕ, ◌+◌, ◌≤◌, ◌≡◌, sym, ap, ◌∙◌, ◌&&◌, not, none, some, List, [], ◌∷◌, ◌++◌, ltb, ◌==◌,
  if◌then◌else◌, length, le→ltb, ok, arith, append-nil,
}
use redis_c.Wire.{le_bytes, read_le}
use redis_c.Wire.Bytes.{read_word}
use redis_c.Reply.Value.{Value, Fits, write_value}
use redis_c.Io.{Read}
use redis_c.Io.Transfer.{Delivers, read_full-Delivers}
use redis_c.Request.{k_max_msg}
use redis_c.Client.{Response, show_bad, on_response, read_res}
use redis_c.Client.RoundTrip.{shown, on_response-write_value}

whole_reply : (n : ℕ) (x y : Response) → (if ltb 0 n && not (n == n) then x else y) ≡ y
whole_reply n x y = ground arith

-- If the socket delivers, in chunks of any size, the length of the reply of a value and then
-- the reply, where the value fits its fields and the reply has at most 4096 bytes, then
-- `read_res` prints the value and returns the length of the reply.
pub read_res-write_value :
    (v : Value) (answers middle left : List Read)
    → Fits v
    → length (write_value [] v) ≤ k_max_msg
    → Delivers answers 4 (le_bytes 4 (length (write_value [] v))) middle
    → Delivers middle (length (write_value [] v)) (write_value [] v) left
    → read_res answers ≡ ok (shown v, some (length (write_value [] v)))
unfolding read_res
read_res-write_value v answers middle left h fits head body =
    let n = length (write_value [] v) in
    let first = read_full-Delivers answers 4 (le_bytes 4 n) middle head in
    let word : read_le 4 (le_bytes 4 n) 0 ≡ ok n =
      ap (λ l. read_le 4 l 0) (sym (append-nil (le_bytes 4 n))) ∙ read_word [] n [] (omega arith) in
    let second = read_full-Delivers middle n (write_value [] v) left body in
    let walk : on_response (n + 1) (write_value [] v) ≡ ok (shown v, some n) =
      ap (on_response (n + 1)) (sym (append-nil (write_value [] v)))
      ∙ on_response-write_value v [] (n + 1) h (omega arith) (omega arith) in
    rw (first, word, le→ltb k_max_msg n fits, second, walk)
      (ap ok (whole_reply n (shown v ++ show_bad ∷ [], none) (shown v, some n)))
