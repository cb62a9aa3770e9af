-- ===== src/Io.antt =====
-- src/utils.h, `write_all` and `read_full`. The kernel is a list of answers, one to a call of
-- `write` or `read`; it is the caller's argument, and a list that runs out is a call that blocks.
pub mod Transfer
mod Tests
use redis_c.Base.{
  ℕ, zero, suc, ◌+◌, ◌-◌, Bool, true, false, Option, none, some, List, [], ◌∷◌, ◌++◌, leb, ◌==◌,
  if◌then◌else◌, length, take, drop, Run, ok, abort, out_of_fuel, assert, ◌>>=◌, ◌>>◌,
}

-- An answer to `write(fd, buf, n)`: how many bytes it took, or an error (rv < 0).
pub data Write : Type 0 where
  wrote : ℕ → Write
  write_failed : Write

-- The bytes that reached the socket, and whether the result is 0.
pub record Sent : Type 0 where
  pub sent : List ℕ
  pub done : Bool

-- `rv <= 0` is an error, `rv <= n` is asserted.
unfoldable pub write_all : List Write → List ℕ → Run Sent
write_all answers [] = ok (record { sent = []; done = true })
write_all [] (b ∷ buf) = out_of_fuel
write_all (write_failed ∷ answers) (b ∷ buf) = ok (record { sent = []; done = false })
write_all (wrote rv ∷ answers) (b ∷ buf) =
    if rv == 0 then ok (record { sent = []; done = false }) else (do
      assert (leb rv (length (b ∷ buf)))
      rest ← write_all answers (drop rv (b ∷ buf))
      ok (record rest { sent = take rv (b ∷ buf) ++ rest.sent }))

-- An answer to `read(fd, buf, n)`: the bytes that came, none of them at the end of the stream.
pub data Read : Type 0 where
  got : List ℕ → Read
  read_failed : Read

-- The bytes read, whether the result is 0, and the answers that are left.
pub record Received : Type 0 where
  pub bytes : List ℕ
  pub complete : Bool
  pub left : List Read

unfoldable pub read_full : List Read → ℕ → Run Received
read_full answers zero = ok (record { bytes = []; complete = true; left = answers })
read_full [] (suc n) = out_of_fuel
read_full (read_failed ∷ answers) (suc n) =
    ok (record { bytes = []; complete = false; left = answers })
read_full (got chunk ∷ answers) (suc n) =
    if length chunk == 0 then ok (record { bytes = []; complete = false; left = answers }) else (do
      assert (leb (length chunk) (suc n))
      rest ← read_full answers (suc n - length chunk)
      ok (record rest { bytes = chunk ++ rest.bytes }))
