-- ===== src/Client/Overflow.antt =====
-- The length test of `on_response`, which is done in 32 bits.
use redis_c.Base.{
  ℕ, suc, ◌+◌, ◌-◌, ◌^◌, ◌<◌, ◌≤◌, ◌≡◌, sym, ◌∙◌, refl, Bool, Option, ap, false, true, List, [],
  ◌∷◌, ◌++◌, length, some, ok, fault, Run, ◌>>=◌, arith, ltb, le→ltb, lt→ltb, length-append, u32,
  drop, drop-append, if◌then◌else◌,
}
use redis_c.Wire.{le_bytes}
use redis_c.Wire.Bytes.{length-le_bytes, read_word}
use redis_c.Client.{Response, on_response, on_str, printed, show_str, c_text}

-- a negative precision is ignored
printed-negative :
    (len : ℕ) (bytes : List ℕ)
    → 2 ^ 31 ≤ len
    → printed len bytes
      ≡ (if ltb (length (c_text bytes)) (length bytes) then ok (c_text bytes) else fault)
unfolding printed
printed-negative len bytes h = rw (le→ltb len (2 ^ 31) h)

abbrev shows : Option ℕ → List ℕ → Run Response
shows read text = ok (show_str text ∷ [], read)

chosen :
    (b : Bool) (text : List ℕ) (read : Option ℕ)
    → (do t ← (if b then ok text else fault); shows read t)
      ≡ (if b then ok (show_str text ∷ [], read) else fault)
chosen true text read = refl
chosen false text read = refl

-- A reply that starts as a string with a length field from 2 ^ 32 - 5 to 2 ^ 32 - 1, and has
-- any bytes behind it, passes the length test of `on_response`: the sum wraps. The bytes behind
-- it are printed up to the first zero, with the length field plus 5 minus 2 ^ 32 as the result;
-- if there is no zero among them, `printf` reads past the reply.
pub on_response-wraps :
    (len depth : ℕ) (rest : List ℕ)
    → 2 ^ 32 ≤ 5 + len
    → len < 2 ^ 32
    → on_response (suc depth) (2 ∷ (le_bytes 4 len ++ rest)) ≡ (
        if ltb (length (c_text rest)) (length rest)
        then ok (show_str (c_text rest) ∷ [], some (5 + len - 2 ^ 32))
        else fault)
unfolding on_response on_str
on_response-wraps len depth rest big word =
    let d = 2 ∷ (le_bytes 4 len ++ rest) in
    let size : length d ≡ 5 + length rest =
      omega (arith, length-append (le_bytes 4 len) rest, length-le_bytes 4 len) in
    let wrapped : u32 (5 + len) ≡ 5 + len - 2 ^ 32 = omega arith in
    let behind : drop 5 d ≡ rest =
      ap (λ k. drop k (le_bytes 4 len ++ rest)) (sym (length-le_bytes 4 len))
      ∙ drop-append (le_bytes 4 len) rest in
    rw
      (
        le→ltb (length d) 5 (omega (arith, size)),
        read_word (2 ∷ []) len rest word,
        wrapped,
        le→ltb (length d) (5 + len - 2 ^ 32) (omega (arith, size)),
        behind,
        printed-negative len rest (omega arith),
        lt→ltb (5 + len - 2 ^ 32) (2 ^ 31) (omega arith),
      )
      (chosen (ltb (length (c_text rest)) (length rest)) (c_text rest) (some (5 + len - 2 ^ 32)))
