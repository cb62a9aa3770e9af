-- ===== src/Request.antt =====
-- src/server.cpp, `parse_req`: the command of a request, a list of strings. The bytes of the
-- request are the list, so a read past `len` is a fault. -1 is `none`.
pub mod Format
pub mod Sound
pub mod Complete
mod Tests
use redis_c.Base.{
  ℕ, zero, suc, ◌+◌, ◌<◌, Option, none, some, List, [], ◌∷◌, ◌++◌, ltb, ◌==◌, if◌then◌else◌, length,
  u32, Run, ok, ◌>>=◌,
}
use redis_c.Wire.{read_le, slice}

abbrev pub Command : Type 0
Command = List (List ℕ)

-- K_MAX_MSG and K_MAX_ARGS of src/constants.h
abbrev pub k_max_msg : ℕ
k_max_msg = 4096

abbrev pub k_max_args : ℕ
k_max_args = 1024

-- `while (n--)`, with `out` the strings so far; `pos` is a `size_t` and does not wrap, the
-- `4 + sz` that is added to it is a `uint32_t`
unfoldable pub parse_args : List ℕ → ℕ → ℕ → Command → Run (Option Command)
parse_args data' zero pos out = ok (if pos == length data' then some out else none)
parse_args data' (suc n) pos out = if ltb (length data') (pos + 4) then ok none else do
  sz ← read_le 4 data' pos
  if ltb (length data') (pos + 4 + sz)
      then ok none
      else do s ← slice data' (pos + 4) sz; parse_args data' n (pos + u32 (4 + sz)) (out ++ s ∷ [])

unfoldable pub parse_req : List ℕ → Run (Option Command)
unfolding parse_args
parse_req data' =
    if ltb (length data') 4
    then ok none
    else do n ← read_le 4 data' 0; if ltb k_max_args n then ok none else parse_args data' n 4 []
