-- ===== src/Reply.antt =====
-- src/utils.h, the `out_` functions: replies in the type-length-value scheme, appended to `out`.
-- An `int64_t` and a `double` are their 64 bits; `enum` SER_* and ERR_* are src/constants.h.
pub mod Value
mod Tests
use redis_c.Base.{
  ℕ, ◌+◌, ◌^◌, ◌≡◌, List, [], ◌∷◌, ◌++◌, ◌==◌, length, take, u32, u64, Run, ok, deref, assert,
  get_or, ◌>>=◌, ◌>>◌,
}
use redis_c.Wire.{le_bytes, write_at}

abbrev pub ser_nil : ℕ
ser_nil = 0

abbrev pub ser_err : ℕ
ser_err = 1

abbrev pub ser_str : ℕ
ser_str = 2

abbrev pub ser_int : ℕ
ser_int = 3

abbrev pub ser_dbl : ℕ
ser_dbl = 4

abbrev pub ser_arr : ℕ
ser_arr = 5

unfoldable pub out_nil : List ℕ → List ℕ
out_nil out = out ++ ser_nil ∷ []

unfoldable pub out_str : List ℕ → List ℕ → List ℕ
out_str out s = let len = u32 (length s) in ((out ++ ser_str ∷ []) ++ le_bytes 4 len) ++ take len s

unfoldable pub out_int : List ℕ → ℕ → List ℕ
out_int out val = (out ++ ser_int ∷ []) ++ le_bytes 8 val

unfoldable pub out_err : List ℕ → ℕ → List ℕ → List ℕ
out_err out code msg =
    (((out ++ ser_err ∷ []) ++ le_bytes 4 code) ++ le_bytes 4 (u32 (length msg))) ++ msg

unfoldable pub out_arr : List ℕ → ℕ → List ℕ
out_arr out n = (out ++ ser_arr ∷ []) ++ le_bytes 4 n

-- `out[0]` of an empty string is its final zero
unfoldable pub out_update_arr : List ℕ → ℕ → Run (List ℕ)
out_update_arr out n = do assert (get_or out 0 0 == ser_arr); write_at out 1 (le_bytes 4 n)

unfoldable pub out_double : List ℕ → ℕ → List ℕ
out_double out val = (out ++ ser_dbl ∷ []) ++ le_bytes 8 val
