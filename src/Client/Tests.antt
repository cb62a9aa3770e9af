-- ===== src/Client/Tests.antt =====
-- The theorems on the client at `get a`, at an array, and at a string of 2 ^ 32 - 1 bytes.
use redis_c.Base.{
  List, [], ◌∷◌, ◌++◌, some, ok, arith, ℕ, ◌≡◌, ◌^◌, ◌-◌, ◌+◌, refl, inl, inr, length, replicate,
  length-replicate, Returns, true, false, take, ltb, if◌then◌else◌, fault, ◌<◌, ◌≤◌,
}
use redis_c.Wire.{le_bytes}
use redis_c.Io.{Write, wrote, Read, got}
use redis_c.Io.Transfer.{Delivers}
use redis_c.Request.{Command, k_max_msg}
use redis_c.Request.Format.{args_size, request_bytes}
use redis_c.Reply.{out_nil, out_str, out_arr}
use redis_c.Reply.Value.{
  Value, nil, str, arr, item, end, Fits, write_value, write_items, item_count,
}
use redis_c.Client.{pack_req, send_req, on_response, read_res, show_str, c_text}
use redis_c.Client.Send.{frame_bytes, pack_req-fits}
use redis_c.Client.Exchange.{
  Framed, pack_req-parse_req, send_req-sends, send_req-limit, length-request_bytes,
}
use redis_c.Client.Receive.{Checked, on_response-Checked}
use redis_c.Client.RoundTrip.{shown, on_response-write_value}
use redis_c.Client.Result.{read_res-write_value}
use redis_c.Client.Overflow.{on_response-wraps}

abbrev get_a : Command
get_a = (103 ∷ 101 ∷ 116 ∷ []) ∷ (97 ∷ []) ∷ []

get_a-size : args_size get_a ≡ 12
unfolding args_size
get_a-size = refl

pack_req-fits_example : pack_req get_a ≡ ok (some (frame_bytes get_a))
pack_req-fits_example = pack_req-fits get_a (omega (arith, get_a-size))

abbrev long : Command
long = replicate 5000 0 ∷ []

long-size : args_size long ≡ 5004
unfolding args_size
long-size = omega (arith, length-replicate {A = ℕ} 5000 0)

pack_req-parse_req_example :
    Returns (pack_req get_a) (λ o. (bytes : List ℕ) × (o ≡ some bytes) × Framed get_a bytes)
pack_req-parse_req_example = pack_req-parse_req get_a (omega (arith, get_a-size))

abbrev two_writes : List Write
two_writes = wrote 15 ∷ wrote 5 ∷ []

send_req-sends_example :
    Returns (send_req two_writes get_a) (λ r. r.done ≡ true → Framed get_a r.sent)
send_req-sends_example =
    send_req-sends get_a two_writes (omega (arith, get_a-size))
      (omega (arith, get_a-size), inr (omega (arith, get_a-size), inr (omega (arith, get_a-size))))

abbrev pair_of : Value
pair_of = arr (item (str (97 ∷ [])) (item nil end))

pair_of-Fits : Fits pair_of
unfolding item_count
pair_of-Fits = ((omega arith, (tt, tt)), omega arith)

abbrev pair_bytes : List ℕ
pair_bytes = 5 ∷ 2 ∷ 0 ∷ 0 ∷ 0 ∷ 2 ∷ 1 ∷ 0 ∷ 0 ∷ 0 ∷ 97 ∷ 0 ∷ []

pair_of-written : write_value [] pair_of ≡ pair_bytes
unfolding write_value write_items item_count out_arr out_str out_nil le_bytes
pair_of-written = refl

pair_of-size : length (write_value [] pair_of) ≡ 12
pair_of-size = rw pair_of-written

on_response-write_value_example :
    on_response 20 (write_value [] pair_of ++ 9 ∷ [])
    ≡ ok (shown pair_of, some (length (write_value [] pair_of)))
on_response-write_value_example =
    on_response-write_value pair_of (9 ∷ []) 20 pair_of-Fits (omega (arith, pair_of-size))
      (omega (arith, pair_of-size))

abbrev arrived : List Read
arrived = got (12 ∷ 0 ∷ 0 ∷ 0 ∷ []) ∷ got (pair_bytes) ∷ []

header-arrived :
    Delivers arrived 4 (le_bytes 4 (length (write_value [] pair_of))) (got pair_bytes ∷ [])
unfolding le_bytes
header-arrived =
    rw pair_of-size (inr (omega arith, omega arith, ([], refl, inl (refl, refl, refl))))

body-arrived :
    Delivers (got pair_bytes ∷ []) (length (write_value [] pair_of)) (write_value [] pair_of) []
body-arrived = rw pair_of-written (inr (omega arith, omega arith, ([], refl, (refl, refl, refl))))

read_res-write_value_example :
    read_res arrived ≡ ok (shown pair_of, some (length (write_value [] pair_of)))
read_res-write_value_example =
    read_res-write_value pair_of arrived (got pair_bytes ∷ []) [] pair_of-Fits
      (omega (arith, pair_of-size)) header-arrived body-arrived

abbrev huge : ℕ
huge = 2 ^ 32 - 1

abbrev behind_it : List ℕ
behind_it = 97 ∷ []

on_response-wraps_example : on_response 1 (2 ∷ (le_bytes 4 huge ++ behind_it)) ≡ (
    if ltb (length (c_text behind_it)) (length behind_it)
    then ok (show_str (c_text behind_it) ∷ [], some (5 + huge - 2 ^ 32))
    else fault)
on_response-wraps_example = on_response-wraps huge 0 behind_it (omega arith) (omega arith)

-- no zero follows, and the text is read past the reply
past_reply : on_response 1 (2 ∷ (le_bytes 4 huge ++ behind_it)) ≡ fault
unfolding c_text
past_reply = on_response-wraps huge 0 behind_it (omega arith) (omega arith)

-- a string of length 2 ^ 32 - 1 in an array
abbrev nested : List ℕ
nested = 5 ∷ 1 ∷ 0 ∷ 0 ∷ 0 ∷ 2 ∷ 255 ∷ 255 ∷ 255 ∷ 255 ∷ []

on_response-Checked_example : Checked nested (on_response 11 nested)
on_response-Checked_example = on_response-Checked 11 nested (omega arith) (omega arith)

send_req-limit_example : Returns (send_req two_writes long) (λ r.
    (k_max_msg < length (request_bytes long) → (r.sent ≡ []) × (r.done ≡ false))
    × (length (request_bytes long) ≤ k_max_msg
        → (k : ℕ) × (r.sent ≡ take k (frame_bytes long))
          × (r.done ≡ true → r.sent ≡ frame_bytes long)))
send_req-limit_example =
    send_req-limit long two_writes (omega (arith, length-request_bytes long, long-size))
      (λ h. absurd (omega (arith, h, length-request_bytes long, long-size)))
