-- ===== src/Wire.antt =====
-- Byte buffers: `memcpy` of little-endian words into and out of a buffer, as src/utils.h,
-- src/client.cpp and src/server.cpp use it. A byte is a number below 256; an access outside the
-- buffer is a fault.
pub mod Bytes
use redis_c.Base.{
  ℕ, zero, suc, ◌+◌, ◌*◌, ◌/◌, ◌%◌, ◌^◌, List, [], ◌∷◌, ◌++◌, leb, if◌then◌else◌, length, take,
  drop, Run, ok, fault,
}

-- the k bytes of a word, lowest first
unfoldable pub le_bytes : ℕ → ℕ → List ℕ
le_bytes zero n = []
le_bytes (suc k) n = (n % 256) ∷ le_bytes k (n / 256)

unfoldable pub from_le : List ℕ → ℕ
from_le [] = 0
from_le (b ∷ bs) = b + 256 * from_le bs

-- `size` bytes of a buffer from a position on
unfoldable pub slice : List ℕ → ℕ → ℕ → Run (List ℕ)
slice buf pos size = if leb (pos + size) (length buf) then ok (take size (drop pos buf)) else fault

-- `memcpy(&word, &buf[pos], k)`
unfoldable pub read_le : ℕ → List ℕ → ℕ → Run ℕ
unfolding slice from_le
read_le k buf pos =
    if leb (pos + k) (length buf) then ok (from_le (take k (drop pos buf))) else fault

-- `memcpy(&buf[pos], bytes, n)`
unfoldable pub write_at : List ℕ → ℕ → List ℕ → Run (List ℕ)
write_at buf pos bytes =
    if leb (pos + length bytes) (length buf)
    then ok (take pos buf ++ (bytes ++ drop (pos + length bytes) buf))
    else fault
