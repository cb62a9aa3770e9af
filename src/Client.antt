-- ===== src/Client.antt =====
-- src/client.cpp. `send_req` packs a command into a buffer of 4 + K_MAX_MSG bytes; `on_response`
-- walks a reply and returns how many bytes it read, -1 being `none`; `read_res` reads a frame.
pub mod Send
pub mod Receive
pub mod RoundTrip
pub mod Result
pub mod Overflow
pub mod Exchange
mod Tests
use redis_c.Base.{
  ℕ, zero, suc, ◌+◌, ◌-◌, ◌*◌, ◌^◌, ◌<◌, ◌≡◌, Bool, true, false, ◌&&◌, not, Option, none, some,
  List, [], ◌∷◌, ◌++◌, ltb, leb, ◌==◌, if◌then◌else◌, length, take, drop, replicate, u32, Run, ok,
  fault, out_of_fuel, ◌>>=◌,
}
use redis_c.Wire.{le_bytes, read_le, slice, write_at}
use redis_c.Request.{Command, k_max_msg}
use redis_c.Io.{Write, Sent, write_all, Read, Received, read_full}

-- `len += 4 + s.size()` on a `uint32_t`
unfoldable pub request_len : Command → ℕ → ℕ
request_len [] len = len
request_len (s ∷ cmd) len = request_len cmd (u32 (len + (4 + length s)))

-- `char wbuf[n]{}`
unfoldable pub zeroed : ℕ → List ℕ
zeroed n = replicate n 0

unfoldable pub fill_args : Command → List ℕ → ℕ → Run (List ℕ)
fill_args [] wbuf curr_pos = ok wbuf
fill_args (s ∷ cmd) wbuf curr_pos = do
  sized ← write_at wbuf curr_pos (le_bytes 4 (u32 (length s)))
  filled ← write_at sized (curr_pos + 4) s
  fill_args cmd filled (curr_pos + (4 + length s))

-- `send_req` up to `write_all`: the bytes to send
unfoldable pub pack_req : Command → Run (Option (List ℕ))
pack_req cmd =
    let len = request_len cmd 4 in
    if ltb k_max_msg len then ok none else do
      wbuf ← write_at (zeroed (4 + k_max_msg)) 0 (le_bytes 4 len)
      wbuf' ← write_at wbuf 4 (le_bytes 4 (u32 (length cmd)))
      filled ← fill_args cmd wbuf' 8
      bytes ← slice filled 0 (4 + len)
      ok (some bytes)

-- true for the result 0
unfoldable pub send_req : List Write → Command → Run Sent
unfolding pack_req
send_req answers cmd = do
  packed ← pack_req cmd
  elim packed [
    | none ↦ ok (record { sent = []; done = false })
    | some bytes ↦ write_all answers bytes
  ]

-- a line that `on_response` prints
pub data Line : Type 0 where
  show_nil show_arr_end show_bad : Line
  show_err : ℕ → List ℕ → Line
  show_str : List ℕ → Line
  show_int show_dbl show_arr : ℕ → Line

-- what is printed, and the result
abbrev pub Response : Type 0
Response = List Line × Option ℕ

abbrev pub bad : Response
bad = (show_bad ∷ [], none)

-- a result as `int32_t`
abbrev pub int32 : ℕ → Option ℕ
int32 n = if ltb (u32 n) (2 ^ 31) then some (u32 n) else none

-- a C string: up to a zero
unfoldable pub c_text : List ℕ → List ℕ
c_text [] = []
c_text (b ∷ bs) = if b == 0 then [] else b ∷ c_text bs

-- `printf` of `%.*s` at the bytes that are left of the reply. The precision is an `int`: from 2 ^ 31 on
-- it is negative, and ignored. A text that does not end in the reply is read past it.
unfoldable pub printed : ℕ → List ℕ → Run (List ℕ)
printed len bytes =
    if ltb len (2 ^ 31) && leb len (length bytes)
    then ok (c_text (take len bytes))
    else if ltb (length (c_text bytes)) (length bytes)
    then ok (c_text bytes)
    else fault

-- the cases of the `switch`; `1 + 8 + len` is a `uint32_t`
unfoldable pub on_err : List ℕ → Run Response
unfolding printed
on_err data' = if ltb (length data') (1 + 8) then ok bad else do
  code ← read_le 4 data' 1
  len ← read_le 4 data' (1 + 4)
  if ltb (length data') (u32 (1 + 8 + len)) then ok bad else do
    text ← printed len (drop (1 + 8) data')
    ok (show_err code text ∷ [], int32 (1 + 8 + len))

unfoldable pub on_str : List ℕ → Run Response
unfolding printed
on_str data' = if ltb (length data') (1 + 4) then ok bad else do
  len ← read_le 4 data' 1
  if ltb (length data') (u32 (1 + 4 + len))
      then ok bad
      else do text ← printed len (drop (1 + 4) data'); ok (show_str text ∷ [], int32 (1 + 4 + len))

unfoldable pub on_int : List ℕ → Run Response
on_int data' =
    if ltb (length data') (1 + 8)
    then ok bad
    else do val ← read_le 8 data' 1; ok (show_int val ∷ [], some (1 + 8))

unfoldable pub on_dbl : List ℕ → Run Response
on_dbl data' =
    if ltb (length data') (1 + 8)
    then ok bad
    else do val ← read_le 8 data' 1; ok (show_dbl val ∷ [], some (1 + 8))

-- The loop over the items, with the call of `on_response` as an argument. `size - arr_bytes` would
-- wrap if `arr_bytes` passed `size`: that is a fault here.
unfoldable pub arr_loop : (List ℕ → Run Response) → ℕ → List ℕ → ℕ → Run Response
arr_loop item zero data' arr_bytes = ok (show_arr_end ∷ [], int32 arr_bytes)
arr_loop item (suc left) data' arr_bytes = if ltb (length data') arr_bytes then fault else do
  (lines, rv) ← item (drop arr_bytes data')
  elim rv [
    | none ↦ ok (lines, none)
    | some read ↦ do
      (lines', rv') ← arr_loop item left data' (arr_bytes + read)
      ok (lines ++ lines', rv')
  ]

unfoldable pub on_arr : (List ℕ → Run Response) → List ℕ → Run Response
on_arr item data' = if ltb (length data') (1 + 4) then ok bad else do
  len ← read_le 4 data' 1
  (lines, rv) ← arr_loop item len data' (1 + 4)
  ok (show_arr len ∷ lines, rv)

-- the `switch` on `data[0]`
unfoldable pub on_tag : ℕ → Run Response → List ℕ → Run Response
on_tag tag nested data' =
    if tag == 0
    then ok (show_nil ∷ [], some 1)
    else if tag == 1
    then on_err data'
    else if tag == 2
    then on_str data'
    else if tag == 3
    then on_int data'
    else if tag == 4
    then on_dbl data'
    else if tag == 5
    then nested
    else ok bad

-- the fuel bounds how deep arrays are nested
unfoldable pub on_response : ℕ → List ℕ → Run Response
unfolding on_tag
on_response zero data' = out_of_fuel
on_response (suc depth) [] = ok bad
on_response (suc depth) (tag ∷ rest) =
    let nested : Run Response = on_arr (on_response depth) (tag ∷ rest) in
    on_tag tag nested (tag ∷ rest)

-- `read_res`: the frame's header, its body, and the walk. The reply's length is enough fuel.
unfoldable pub read_res : List Read → Run Response
read_res answers = do
  header ← read_full answers 4
  if not header.complete then ok ([], none) else do
    len ← read_le 4 header.bytes 0
    if ltb k_max_msg len then ok ([], none) else do
      body ← read_full header.left len
      if not body.complete then ok ([], none) else do
        (lines, rv) ← on_response (len + 1) body.bytes
        elim rv [
          | none ↦ ok (lines, none)
          | some read ↦ ok (
              if ltb 0 read && not (read == len)
              then (lines ++ show_bad ∷ [], none)
              else (lines, some read))
        ]
