-- ===== src/Wire/Bytes.antt =====
-- Words and buffers: a word written is the word read.
use Prim.Native.Nat.add
use redis_c.Base.{
  All, ℕ, zero, suc, ◌+◌, ◌/◌, ◌^◌, ◌<◌, ◌≤◌, ◌≡◌, refl, ap, ◌∙◌, List, [], ◌∷◌, ◌++◌, arith, leb,
  length, take, drop, ok, length-append, take-append, drop-append, true,
}
use redis_c.Wire.{le_bytes, from_le, slice, read_le, write_at}

pub length-le_bytes : (k n : ℕ) → length (le_bytes k n) ≡ k
unfolding le_bytes
length-le_bytes zero n = refl
length-le_bytes (suc k) n = ap suc (length-le_bytes k (n / 256))

pub from_le-le_bytes_4 : (n : ℕ) → n < 2 ^ 32 → from_le (le_bytes 4 n) ≡ n
unfolding from_le le_bytes
from_le-le_bytes_4 n h = omega arith

pub from_le-le_bytes_8 : (n : ℕ) → n < 2 ^ 64 → from_le (le_bytes 8 n) ≡ n
unfolding from_le le_bytes
from_le-le_bytes_8 n h = omega arith

leb_of_le : (a b : ℕ) → a ≤ b → leb a b ≡ true
leb_of_le a b h = ground arith

drop_past {ℓ} : {A : Type ℓ} (xs ys : List A) (k : ℕ) → drop (length xs + k) (xs ++ ys) ≡ drop k ys
drop_past [] ys k = rw (add.zero k)
drop_past (x ∷ xs) ys k = rw (add.suc (length xs) k) (drop_past xs ys k)

-- Reading behind a prefix of known length.
module _ (a b c : List ℕ) where
  here : take (length b) (drop (length a) (a ++ (b ++ c))) ≡ b
  here = rw drop-append (take-append b c)

  fits : leb (length a + length b) (length (a ++ (b ++ c))) ≡ true
  fits = leb_of_le _ _ (omega (arith, length-append a (b ++ c), length-append b c))

  pub slice-append : slice (a ++ (b ++ c)) (length a) (length b) ≡ ok b
  unfolding slice
  slice-append = rw (fits, here)

  pub read_le-append : read_le (length b) (a ++ (b ++ c)) (length a) ≡ ok (from_le b)
  unfolding read_le
  read_le-append = rw (fits, here)

-- Writing over what stands behind a prefix.
pub write_at-append :
    (a z b : List ℕ)
    → length b ≤ length z
    → write_at (a ++ z) (length a) b ≡ ok (a ++ (b ++ drop (length b) z))
unfolding write_at
write_at-append a z b h = rw (
  leb_of_le (length a + length b) (length (a ++ z)) (omega (arith, length-append a z)),
  take-append,
  drop_past,
)

abbrev pub IsByte : ℕ → Type 0
IsByte b = b < 256

-- four bytes are the bytes of the word that they read as
pub le_bytes-from_le : (w : List ℕ) → length w ≡ 4 → All IsByte w → le_bytes 4 (from_le w) ≡ w
unfolding le_bytes from_le
le_bytes-from_le (a ∷ b ∷ c ∷ d ∷ []) h bytes = ground arith
le_bytes-from_le w h bytes = absurd (omega arith)

-- a word behind a prefix
pub read_word :
    (a : List ℕ) (n : ℕ) (c : List ℕ)
    → n < 2 ^ 32
    → read_le 4 (a ++ (le_bytes 4 n ++ c)) (length a) ≡ ok n
read_word a n c h =
    let four = length-le_bytes 4 n in
    (rw four at (read_le-append a (le_bytes 4 n) c)) ∙ ap ok (from_le-le_bytes_4 n h)

pub read_double_word :
    (a : List ℕ) (n : ℕ) (c : List ℕ)
    → n < 2 ^ 64
    → read_le 8 (a ++ (le_bytes 8 n ++ c)) (length a) ≡ ok n
read_double_word a n c h =
    let eight = length-le_bytes 8 n in
    (rw eight at (read_le-append a (le_bytes 8 n) c)) ∙ ap ok (from_le-le_bytes_8 n h)
