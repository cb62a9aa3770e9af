-- ===== src/Reply/Value.antt =====
-- The values that replies stand for, and how the `out_` functions write them.
use redis_c.Base.{
  ℕ, suc, ◌^◌, ◌<◌, ◌≤◌, ◌≡◌, refl, sym, ap, ◌∙◌, List, [], ◌∷◌, ◌++◌, length, drop, drop-append,
  u32, ok, arith, length-append, append_assoc, append-nil, take-all,
}
use redis_c.Wire.{le_bytes}
use redis_c.Wire.Bytes.{length-le_bytes, write_at-append}
use redis_c.Reply.{ser_arr, out_nil, out_str, out_int, out_err, out_arr, out_update_arr, out_double}

mutual
  pub data Value : Type 0 where
    nil : Value
    err : ℕ → List ℕ → Value
    str : List ℕ → Value
    int dbl : ℕ → Value
    arr : Items → Value

  pub data Items : Type 0 where
    end : Items
    item : Value → Items → Items

unfoldable pub item_count : Items → ℕ
item_count end = 0
item_count (item v vs) = suc (item_count vs)

-- the reply appended to `out`, by the calls that the server makes
unfoldable mutual
  unfolding item_count

  pub write_value : List ℕ → Value → List ℕ
  write_value out nil = out_nil out
  write_value out (err code msg) = out_err out code msg
  write_value out (str s) = out_str out s
  write_value out (int n) = out_int out n
  write_value out (dbl n) = out_double out n
  write_value out (arr vs) = write_items (out_arr out (item_count vs)) vs

  pub write_items : List ℕ → Items → List ℕ
  write_items out end = out
  write_items out (item v vs) = write_items (write_value out v) vs

-- the same bytes as a plain recursion
unfoldable mutual
  pub value_bytes : Value → List ℕ
  value_bytes nil = 0 ∷ []
  value_bytes (err code msg) = 1 ∷ (le_bytes 4 code ++ (le_bytes 4 (length msg) ++ msg))
  value_bytes (str s) = 2 ∷ (le_bytes 4 (length s) ++ s)
  value_bytes (int n) = 3 ∷ le_bytes 8 n
  value_bytes (dbl n) = 4 ∷ le_bytes 8 n
  value_bytes (arr vs) = 5 ∷ (le_bytes 4 (item_count vs) ++ items_bytes vs)

  pub items_bytes : Items → List ℕ
  items_bytes end = []
  items_bytes (item v vs) = value_bytes v ++ items_bytes vs

-- strings and counts fit their length fields
abbrev mutual
  pub Fits : Value → Type 0
  Fits nil = Unit
  Fits (err code msg) = (code < 2 ^ 32) × (length msg < 2 ^ 32)
  Fits (str s) = length s < 2 ^ 32
  Fits (int n) = n < 2 ^ 64
  Fits (dbl n) = n < 2 ^ 64
  Fits (arr vs) = FitsAll vs × (item_count vs < 2 ^ 32)

  pub FitsAll : Items → Type 0
  FitsAll end = Unit
  FitsAll (item v vs) = Fits v × FitsAll vs

mutual
  unfolding write_value value_bytes out_nil out_str out_int out_err out_arr out_double

  write_value-bytes : (out : List ℕ) (v : Value) → Fits v → write_value out v ≡ out ++ value_bytes v
  write_value-bytes out nil h = refl
  write_value-bytes out (err code msg) h =
      let word : u32 (length msg) ≡ length msg = omega arith in rw word (simp append_assoc)
  write_value-bytes out (str s) h =
      let word : u32 (length s) ≡ length s = omega arith in rw (word, take-all) (simp append_assoc)
  write_value-bytes out (int n) h = append_assoc out _ _
  write_value-bytes out (dbl n) h = append_assoc out _ _
  write_value-bytes out (arr vs) h =
      write_items-bytes (out_arr out (item_count vs)) vs h.0 ∙ simp append_assoc

  write_items-bytes :
      (out : List ℕ) (vs : Items) → FitsAll vs → write_items out vs ≡ out ++ items_bytes vs
  write_items-bytes out end h = sym (append-nil out)
  write_items-bytes out (item v vs) h =
      write_items-bytes (write_value out v) vs h.1
      ∙ ap (λ l. l ++ items_bytes vs) (write_value-bytes out v h.0)
      ∙ append_assoc out (value_bytes v) (items_bytes vs)

-- For a value whose strings, counts and numbers fit their fields, the `out_` functions append
-- the bytes of the type-length-value scheme to what was in the buffer.
pub write_value-append :
    (out : List ℕ) (v : Value) → Fits v → write_value out v ≡ out ++ value_bytes v
write_value-append out v h = write_value-bytes out v h

-- An array opened with length 0 in an empty buffer and followed by any bytes is, after
-- `out_update_arr` with `n`, the array opened with length `n` and followed by those bytes.
pub out_update_arr-out_arr :
    (body : List ℕ) (n : ℕ) → out_update_arr (out_arr [] 0 ++ body) n ≡ ok (out_arr [] n ++ body)
unfolding out_update_arr out_arr
out_update_arr-out_arr body n =
    let w = le_bytes 4 n in
    let z = le_bytes 4 0 ++ body in
    let four : length w ≡ length (le_bytes 4 0) = length-le_bytes 4 n ∙ sym (length-le_bytes 4 0) in
    let room : length w ≤ length z = omega (arith, four, length-append (le_bytes 4 0) body) in
    write_at-append (ser_arr ∷ []) z w room
    ∙ ap (λ r. ok (ser_arr ∷ (w ++ r))) (ap (λ k. drop k z) four ∙ drop-append (le_bytes 4 0) body)
