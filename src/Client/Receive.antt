-- ===== src/Client/Receive.antt =====
-- `on_response` on any bytes: it returns, or reads past the reply where its length test wraps.
use mathlib.Core.Path.{subst}
use redis_c.Base.{
  ℕ, ap, ==_iff, zero, suc, ◌+◌, ◌^◌, ◌<◌, ◌≤◌, ◌≡◌, ◌⊎◌, refl, sym, Bool, true, false, ◌&&◌, fault,
  ◌>>=◌, none, some, List, [], ◌∷◌, ◌++◌, ltb, leb, ◌==◌, if◌then◌else◌, length, take, drop, le→ltb,
  u32, length-drop, drop-add, Run, ok, Returns, arith, Bool-cases, inl, inr,
}
use redis_c.Wire.{read_le, from_le}
use redis_c.Client.{
  Line, Response, bad, int32, on_err, on_str, on_int, on_dbl, on_arr, arr_loop, on_response, on_tag,
  show_nil, show_arr, show_arr_end, show_err, show_str, show_int, show_dbl, c_text, printed,
}

-- a result that is not negative counts bytes of the reply
abbrev pub Within : List ℕ → Response → Type 0
Within d (lines, none) = Unit
Within d (lines, some k) = k ≤ length d

read_inside :
    (k pos : ℕ) (d : List ℕ)
    → pos + k ≤ length d
    → read_le k d pos ≡ ok (from_le (take k (drop pos d)))
unfolding read_le
read_inside k pos d h = let inside : leb (pos + k) (length d) ≡ true = ground arith in rw inside

-- The length test of a string or an error wraps at the front of the bytes.
abbrev pub Overrun : List ℕ → Type 0
Overrun d =
    ((take 1 d ≡ 2 ∷ []) × (2 ^ 32 ≤ 5 + from_le (take 4 (drop 1 d))))
    ⊎ ((take 1 d ≡ 1 ∷ []) × (2 ^ 32 ≤ 9 + from_le (take 4 (drop 5 d))))

-- It returns, or reads past the reply at a place where the test wraps.
abbrev pub Checked : List ℕ → Run Response → Type 0
Checked d run = Returns run (Within d) ⊎ ((run ≡ fault) × (k : ℕ) × Overrun (drop k d))

Checked-if :
    (b : Bool) (d : List ℕ) (x y : Run Response)
    → (b ≡ true → Checked d x)
    → Checked d y
    → Checked d (if b then x else y)
Checked-if true d x y h k = h refl
Checked-if false d x y h k = k

int32-Within :
    (d : List ℕ) (n : ℕ) (lines : List Line) → u32 n ≤ length d → Within d (lines, int32 n)
int32-Within d n lines h = elim (Bool-cases (ltb (u32 n) (2 ^ 31))) [
  | inl small ↦ rw small h
  | inr large ↦ rw large tt
]

-- A text that passed the test and is not in the reply: the test wrapped.
past :
    (n len size left : ℕ)
    → size < 2 ^ 31
    → size ≤ left + n
    → u32 (n + len) ≤ size
    → (ltb len (2 ^ 31) && leb len left) ≡ false
    → 2 ^ 32 ≤ n + len
past n len size left small whole inside over = elim (Bool-cases (leb (2 ^ 32) (n + len))) [
  | inl wraps ↦ ground arith
  | inr exact ↦
      let word : u32 (n + len) ≡ n + len = ground arith in
      let a : ltb len (2 ^ 31) ≡ true = ground arith in
      let b : leb len left ≡ true = ground arith in absurd (true_false (rw (a, b) at over))
]
  where
    true_false : true ≡ false → ⊥
    true_false e = cc

-- The last test of a string or an error, with the text behind its header.
text-Checked :
    (d : List ℕ) (n len : ℕ) (bytes : List ℕ) (line : List ℕ → Line)
    → length d < 2 ^ 31
    → length d ≤ length bytes + n
    → (2 ^ 32 ≤ n + len → Overrun d)
    → Checked d (
        if ltb (length d) (u32 (n + len))
        then ok bad
        else (do text ← printed len bytes; ok (line text ∷ [], int32 (n + len))))
unfolding printed
text-Checked d n len bytes line small whole wraps =
    elim (Bool-cases (ltb (length d) (u32 (n + len)))) [
      | inl long ↦ rw long (inl (bad, refl, tt))
      | inr short ↦
          let inside : u32 (n + len) ≤ length d = ground arith in
          rw short (elim (Bool-cases (ltb len (2 ^ 31) && leb len (length bytes))) [
            | inl fits ↦ rw fits (
                inl
                  (_, refl, int32-Within d (n + len) (line (c_text (take len bytes)) ∷ []) inside))
            | inr over ↦ rw over (elim (Bool-cases (ltb (length (c_text bytes)) (length bytes))) [
              | inl ends ↦
                  rw ends
                    (inl (_, refl, int32-Within d (n + len) (line (c_text bytes) ∷ []) inside))
              | inr no_zero ↦ rw no_zero (
                  inr
                    (refl, 0, wraps (past n len (length d) (length bytes) small whole inside over)))
            ])
          ])
    ]

on_err-Checked : (d : List ℕ) → length d < 2 ^ 31 → take 1 d ≡ 1 ∷ [] → Checked d (on_err d)
unfolding on_err
on_err-Checked d small tag = elim (Bool-cases (ltb (length d) (1 + 8))) [
  | inl short ↦ rw short (inl (bad, refl, tt))
  | inr long ↦
      let h : 9 ≤ length d = ground arith in
      let len = from_le (take 4 (drop 5 d)) in
      rw (long, read_inside 4 1 d (omega (arith, h)), read_inside 4 5 d (omega (arith, h)))
        (text-Checked d 9 len (drop 9 d) (show_err (from_le (take 4 (drop 1 d)))) small
          (omega (arith, length-drop 9 d)) (λ wraps. inr (tag, wraps)))
]

on_str-Checked : (d : List ℕ) → length d < 2 ^ 31 → take 1 d ≡ 2 ∷ [] → Checked d (on_str d)
unfolding on_str
on_str-Checked d small tag = elim (Bool-cases (ltb (length d) (1 + 4))) [
  | inl short ↦ rw short (inl (bad, refl, tt))
  | inr long ↦
      let h : 5 ≤ length d = ground arith in
      let len = from_le (take 4 (drop 1 d)) in
      rw (long, read_inside 4 1 d h)
        (text-Checked d 5 len (drop 5 d) show_str small (omega (arith, length-drop 5 d))
          (λ wraps. inl (tag, wraps)))
]

on_int-Within : (d : List ℕ) → Returns (on_int d) (Within d)
unfolding on_int
on_int-Within d = elim (Bool-cases (ltb (length d) (1 + 8))) [
  | inl short ↦ (bad, rw short, tt)
  | inr long ↦
      let h : 9 ≤ length d = ground arith in
      ((show_int (from_le (take 8 (drop 1 d))) ∷ [], some 9), rw (long, read_inside 8 1 d h), h)
]

on_dbl-Within : (d : List ℕ) → Returns (on_dbl d) (Within d)
unfolding on_dbl
on_dbl-Within d = elim (Bool-cases (ltb (length d) (1 + 8))) [
  | inl short ↦ (bad, rw short, tt)
  | inr long ↦
      let h : 9 ≤ length d = ground arith in
      ((show_dbl (from_le (take 8 (drop 1 d))) ∷ [], some 9), rw (long, read_inside 8 1 d h), h)
]

-- The items of an array, each read inside what is left of the reply.
module _ (item : List ℕ → Run Response) (d : List ℕ)
    (item_ok : (d' : List ℕ) → length d' < length d → Checked d' (item d')) where
  again : (r : Response) (lines : List Line) → Within d r → Within d (lines ++ r.0, r.1)
  again (lines', none) lines w = tt
  again (lines', some k) lines w = w

  arr_loop-Checked :
      (left pos : ℕ) → 0 < pos → pos ≤ length d → Checked d (arr_loop item left d pos)
  unfolding arr_loop
  arr_loop-Checked zero pos p h =
      inl (_, refl, int32-Within d pos (show_arr_end ∷ []) (omega arith))
  arr_loop-Checked (suc left) pos p h =
      next (item_ok (drop pos d) (omega (arith, length-drop pos d))) (λ k inside.
        arr_loop-Checked left (pos + k) (omega arith) (omega (arith, inside, length-drop pos d)))
    where
      ahead : ltb (length d) pos ≡ false
      ahead = le→ltb (length d) pos h

      rest :
          (lines : List Line) (k : ℕ)
          → item (drop pos d) ≡ ok (lines, some k)
          → Checked d (arr_loop item left d (pos + k))
          → Checked d (arr_loop item (suc left) d pos)
      rest lines k run (inl (r, run', w)) =
          inl ((lines ++ r.0, r.1), rw (ahead, run, run'), again r lines w)
      rest lines k run (inr (run', at, place)) = inr (rw (ahead, run, run'), at, place)

      next :
          Checked (drop pos d) (item (drop pos d))
          → ((k : ℕ) → k ≤ length (drop pos d) → Checked d (arr_loop item left d (pos + k)))
          → Checked d (arr_loop item (suc left) d pos)
      next (inl ((lines, none), run, w)) more = inl ((lines, none), rw (ahead, run), tt)
      next (inl ((lines, some k), run, w)) more = rest lines k run (more k w)
      next (inr (run, k, place)) more =
          inr (rw (ahead, run), pos + k, subst Overrun (sym (drop-add pos k d)) place)

  on_arr-Checked : Checked d (on_arr item d)
  unfolding on_arr
  on_arr-Checked = elim (Bool-cases (ltb (length d) (1 + 4))) [
    | inl short ↦ rw short (inl (bad, refl, tt))
    | inr long ↦
        let h : 5 ≤ length d = ground arith in
        let len = from_le (take 4 (drop 1 d)) in
        rw (long, read_inside 4 1 d h) (headed len (arr_loop-Checked len 5 (omega arith) h))
  ]
    where
      headed :
          (len : ℕ)
          → Checked d (arr_loop item len d 5)
          → Checked d (do (lines, rv) ← arr_loop item len d 5; ok (show_arr len ∷ lines, rv))
      headed len (inl (r, run, w)) =
          inl ((show_arr len ∷ r.0, r.1), rw run, again r (show_arr len ∷ []) w)
      headed len (inr (run, at, place)) = inr (rw run, at, place)

-- The switch on the tag.
on_tag-Checked :
    (tag : ℕ) (nested : Run Response) (rest : List ℕ)
    → length (tag ∷ rest) < 2 ^ 31
    → Checked (tag ∷ rest) nested
    → Checked (tag ∷ rest) (on_tag tag nested (tag ∷ rest))
unfolding on_tag
on_tag-Checked tag nested rest small inner =
    let d = tag ∷ rest in
    Checked-if (tag == 0) d _ _ (λ e. inl ((show_nil ∷ [], some 1), refl, omega arith))
      (Checked-if (tag == 1) d _ _ (λ e. on_err-Checked d small (front 1 e))
        (Checked-if (tag == 2) d _ _ (λ e. on_str-Checked d small (front 2 e))
          (Checked-if (tag == 3) d _ _ (λ e. inl (on_int-Within d))
            (Checked-if (tag == 4) d _ _ (λ e. inl (on_dbl-Within d))
              (Checked-if (tag == 5) d _ _ (λ e. inner) (inl (bad, refl, tt)))))))
  where
    front : (n : ℕ) → (tag == n) ≡ true → take 1 (tag ∷ rest) ≡ n ∷ []
    front n e = ap (λ t. t ∷ []) ((==_iff tag n).0 e)

-- On fewer than 2 ^ 31 bytes, with fuel above their number, `on_response` returns, and a result
-- that is not negative is at most the number of bytes; or it reads past the reply, and then
-- somewhere in the bytes stands a string whose length field is at least 2 ^ 32 - 5, or an error
-- whose length field is at least 2 ^ 32 - 9, so that the 32-bit sum of its length test wraps.
-- `size - arr_bytes` never wraps.
pub on_response-Checked :
    (depth : ℕ) (d : List ℕ)
    → length d < depth
    → length d < 2 ^ 31
    → Checked d (on_response depth d)
unfolding on_response
on_response-Checked zero d h small = absurd (omega arith)
on_response-Checked (suc depth) [] h small = inl (bad, refl, tt)
on_response-Checked (suc depth) (tag ∷ rest) h small =
    on_tag-Checked tag (on_arr (on_response depth) (tag ∷ rest)) rest small (
      on_arr-Checked (on_response depth) (tag ∷ rest)
        (λ d' less. on_response-Checked depth d' (omega (arith, less)) (omega (arith, less))))
