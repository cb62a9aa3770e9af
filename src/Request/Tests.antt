-- ===== src/Request/Tests.antt =====
-- The theorems on `parse_req` at `get a`.
use redis_c.Base.{List, [], ◌∷◌, ok, some, Returns, arith, All, ℕ, refl, ◌≡◌}
use redis_c.Wire.{le_bytes}
use redis_c.Wire.Bytes.{IsByte}
use redis_c.Request.{Command, parse_req}
use redis_c.Request.Format.{request_bytes, args_bytes, arg_bytes}
use redis_c.Request.Sound.{Parsed, parse_req-Parsed}
use redis_c.Request.Complete.{parse_req-request_bytes}

abbrev get_a : Command
get_a = (103 ∷ 101 ∷ 116 ∷ []) ∷ (97 ∷ []) ∷ []

-- nstr, then a length and a string, twice
abbrev get_a_bytes : List ℕ
get_a_bytes = 2 ∷ 0 ∷ 0 ∷ 0 ∷ 3 ∷ 0 ∷ 0 ∷ 0 ∷ 103 ∷ 101 ∷ 116 ∷ 1 ∷ 0 ∷ 0 ∷ 0 ∷ 97 ∷ []

request_bytes-get_a : request_bytes get_a ≡ get_a_bytes
unfolding request_bytes args_bytes arg_bytes le_bytes
request_bytes-get_a = refl

get_a_bytes-IsByte : All IsByte get_a_bytes
get_a_bytes-IsByte = ground arith

parse_req-Parsed_example : Returns (parse_req get_a_bytes) (Parsed get_a_bytes)
parse_req-Parsed_example = parse_req-Parsed get_a_bytes get_a_bytes-IsByte (omega arith)

parse_req-request_bytes_example : parse_req (request_bytes get_a) ≡ ok (some get_a)
parse_req-request_bytes_example =
    parse_req-request_bytes get_a (omega arith, (omega arith, tt)) (omega arith)
