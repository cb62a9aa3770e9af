-- ===== src/Client/RoundTrip.antt =====
-- `on_response` on the replies that the `out_` functions write.
use mathlib.Core.Path.{ap₂}
use redis_c.Base.{
  ℕ, zero, suc, ◌+◌, ◌-◌, ◌^◌, ◌<◌, ◌≤◌, ◌≡◌, refl, sym, ap, ◌∙◌, some, List, [], ◌∷◌, ◌++◌, ltb,
  if◌then◌else◌, length, length-drop, leb, true, ◌>>=◌, take, drop, le→ltb, lt→ltb, u32, Run, ok,
  arith, length-append, append_assoc, take-append, drop-append,
}
use redis_c.Wire.{le_bytes, read_le}
use redis_c.Wire.Bytes.{length-le_bytes, read_word, read_double_word}
use redis_c.Reply.Value.{
  Value, nil, err, str, int, dbl, arr, Items, end, item, item_count, value_bytes, items_bytes, Fits,
  FitsAll, write_value, write_value-append,
}
use redis_c.Client.{
  Line, Response, bad, int32, on_err, on_str, on_int, on_dbl, on_arr, arr_loop, on_response,
  show_nil, show_arr, show_arr_end, show_err, show_str, show_int, show_dbl, c_text, printed,
}

-- what the client prints for a value
unfoldable mutual
  unfolding c_text

  pub shown : Value → List Line
  shown nil = show_nil ∷ []
  shown (err code msg) = show_err code (c_text msg) ∷ []
  shown (str s) = show_str (c_text s) ∷ []
  shown (int n) = show_int n ∷ []
  shown (dbl n) = show_dbl n ∷ []
  shown (arr vs) = show_arr (item_count vs) ∷ shown_items vs

  pub shown_items : Items → List Line
  shown_items end = show_arr_end ∷ []
  shown_items (item v vs) = shown v ++ shown_items vs

int32-small : (n : ℕ) → n < 2 ^ 31 → int32 n ≡ some n
int32-small n h = let word : u32 n ≡ n = omega arith in rw (word, lt→ltb n (2 ^ 31) h)

-- The test, the text and the result at a length field that holds the length.
checked :
    (d : List ℕ) (n len : ℕ) (bytes text : List ℕ) (line : List ℕ → Line)
    → n < 2 ^ 31
    → n ≤ length d
    → len ≤ n
    → len ≤ length bytes
    → take len bytes ≡ text
    → (if ltb (length d) (u32 n)
        then ok bad
        else (do shown_text ← printed len bytes; ok (line shown_text ∷ [], int32 n)))
      ≡ ok (line (c_text text) ∷ [], some n)
unfolding printed
checked d n len bytes text line small h k inside e =
    let word : u32 n ≡ n = omega arith in
    rw (
      int32-small n small,
      word,
      le→ltb (length d) n h,
      lt→ltb len (2 ^ 31) (omega arith),
      inside_bytes,
      e,
    )
  where
    inside_bytes : leb len (length bytes) ≡ true
    inside_bytes = ground arith

-- A string behind a header of known length.
behind :
    (hd s rest : List ℕ) {k : ℕ} → length hd ≡ k → take (length s) (drop k (hd ++ (s ++ rest))) ≡ s
behind hd s rest e = rw (← e, drop-append) (take-append s rest)

on_str-str :
    (s rest : List ℕ)
    → 5 + length s < 2 ^ 31
    → on_str (2 ∷ (le_bytes 4 (length s) ++ (s ++ rest)))
      ≡ ok (show_str (c_text s) ∷ [], some (5 + length s))
unfolding on_str
on_str-str s rest small =
    let w = le_bytes 4 (length s) in
    let d = 2 ∷ (w ++ (s ++ rest)) in
    let size : length d ≡ 5 + (length s + length rest) =
      omega
        (arith, length-append w (s ++ rest), length-append s rest, length-le_bytes 4 (length s)) in
    let text : take (length s) (drop 5 d) ≡ s = behind w s rest (length-le_bytes 4 (length s)) in
    rw
      (
        le→ltb (length d) 5 (omega (arith, size)),
        read_word (2 ∷ []) (length s) (s ++ rest) (omega arith),
      )
      (checked d (5 + length s) (length s) (drop 5 d) s show_str small (omega (arith, size))
        (omega arith) (omega (arith, size, length-drop 5 d)) text)

on_err-err :
    (code : ℕ) (msg rest : List ℕ)
    → code < 2 ^ 32
    → 9 + length msg < 2 ^ 31
    → on_err (1 ∷ (le_bytes 4 code ++ (le_bytes 4 (length msg) ++ (msg ++ rest))))
      ≡ ok (show_err code (c_text msg) ∷ [], some (9 + length msg))
unfolding on_err
on_err-err code msg rest word small =
    let c = le_bytes 4 code in
    let w = le_bytes 4 (length msg) in
    let d = 1 ∷ (c ++ (w ++ (msg ++ rest))) in
    let c4 : length c ≡ 4 = length-le_bytes 4 code in
    let w4 : length w ≡ 4 = length-le_bytes 4 (length msg) in
    let size : length d ≡ 9 + (length msg + length rest) = omega (
      arith,
      length-append c (w ++ (msg ++ rest)),
      length-append w (msg ++ rest),
      length-append msg rest,
      c4,
      w4,
    ) in
    let hd5 : length (1 ∷ c) ≡ 5 = omega (arith, c4) in
    let len_read : read_le 4 d 5 ≡ ok (length msg) =
      ap (read_le 4 d) (sym hd5) ∙ read_word (1 ∷ c) (length msg) (msg ++ rest) (omega arith) in
    let hd8 : length (c ++ w) ≡ 8 = omega (arith, length-append c w, c4, w4) in
    let text : take (length msg) (drop 9 d) ≡ msg =
      ap (λ l. take (length msg) (drop 8 l)) (sym (append_assoc c w (msg ++ rest)))
      ∙ behind (c ++ w) msg rest hd8 in
    rw
      (
        le→ltb (length d) 9 (omega (arith, size)),
        read_word (1 ∷ []) code (w ++ (msg ++ rest)) word,
        len_read,
      )
      (checked d (9 + length msg) (length msg) (drop 9 d) msg (show_err code) small
        (omega (arith, size)) (omega arith) (omega (arith, size, length-drop 9 d)) text)

on_int-int :
    (n : ℕ) (rest : List ℕ)
    → n < 2 ^ 64
    → on_int (3 ∷ (le_bytes 8 n ++ rest)) ≡ ok (show_int n ∷ [], some 9)
unfolding on_int
on_int-int n rest h =
    let d = 3 ∷ (le_bytes 8 n ++ rest) in
    rw (
      le→ltb (length d) 9 (omega (arith, length-append (le_bytes 8 n) rest, length-le_bytes 8 n)),
      read_double_word (3 ∷ []) n rest h,
    )

on_dbl-dbl :
    (n : ℕ) (rest : List ℕ)
    → n < 2 ^ 64
    → on_dbl (4 ∷ (le_bytes 8 n ++ rest)) ≡ ok (show_dbl n ∷ [], some 9)
unfolding on_dbl
on_dbl-dbl n rest h =
    let d = 4 ∷ (le_bytes 8 n ++ rest) in
    rw (
      le→ltb (length d) 9 (omega (arith, length-append (le_bytes 8 n) rest, length-le_bytes 8 n)),
      read_double_word (4 ∷ []) n rest h,
    )

length-arr : (vs : Items) → length (value_bytes (arr vs)) ≡ 5 + length (items_bytes vs)
unfolding value_bytes
length-arr vs = omega (
  arith,
  length-append (le_bytes 4 (item_count vs)) (items_bytes vs),
  length-le_bytes 4 (item_count vs),
)

length-err : (code : ℕ) (msg : List ℕ) → length (value_bytes (err code msg)) ≡ 9 + length msg
unfolding value_bytes
length-err code msg = omega (
  arith,
  length-append (le_bytes 4 code) (le_bytes 4 (length msg) ++ msg),
  length-append (le_bytes 4 (length msg)) msg,
  length-le_bytes 4 code,
  length-le_bytes 4 (length msg),
)

length-str : (s : List ℕ) → length (value_bytes (str s)) ≡ 5 + length s
unfolding value_bytes
length-str s = omega (arith, length-append (le_bytes 4 (length s)) s, length-le_bytes 4 (length s))

-- One item of the loop, and what is left.
loop_item :
    (item_run : List ℕ → Run Response) (left pos read total : ℕ) (d : List ℕ)
    (lines lines' : List Line)
    → pos ≤ length d
    → item_run (drop pos d) ≡ ok (lines, some read)
    → arr_loop item_run left d (pos + read) ≡ ok (lines', some total)
    → arr_loop item_run (suc left) d pos ≡ ok (lines ++ lines', some total)
unfolding arr_loop
loop_item item_run left pos read total d lines lines' h run rest =
    rw (le→ltb (length d) pos h, run, rest)

on_arr-loop :
    (item_run : List ℕ → Run Response) (n total : ℕ) (body : List ℕ) (lines : List Line)
    → n < 2 ^ 32
    → arr_loop item_run n (5 ∷ (le_bytes 4 n ++ body)) 5 ≡ ok (lines, some total)
    → on_arr item_run (5 ∷ (le_bytes 4 n ++ body)) ≡ ok (show_arr n ∷ lines, some total)
unfolding on_arr
on_arr-loop item_run n total body lines h run =
    let d = 5 ∷ (le_bytes 4 n ++ body) in
    rw (
      le→ltb (length d) 5 (omega (arith, length-append (le_bytes 4 n) body, length-le_bytes 4 n)),
      read_word (5 ∷ []) n body h,
      run,
    )

-- The whole walk of a value; the cases with no items.
abbrev WalkOf : Value → ℕ → List ℕ → Type 0
WalkOf v depth rest =
    on_response (suc depth) (value_bytes v ++ rest) ≡ ok (shown v, some (length (value_bytes v)))

walk_err :
    (code : ℕ) (msg rest : List ℕ) (depth : ℕ)
    → code < 2 ^ 32
    → length (value_bytes (err code msg)) < 2 ^ 31
    → WalkOf (err code msg) depth rest
unfolding value_bytes shown on_response
walk_err code msg rest depth word small =
    ap (λ l. on_err (1 ∷ l))
      (append_assoc (le_bytes 4 code) (le_bytes 4 (length msg) ++ msg) rest
        ∙ ap (λ l. le_bytes 4 code ++ l) (append_assoc (le_bytes 4 (length msg)) msg rest))
    ∙ on_err-err code msg rest word (omega (arith, small, length-err code msg))
    ∙ ap (λ n. ok (show_err code (c_text msg) ∷ [], some n)) (sym (length-err code msg))

walk_str :
    (s rest : List ℕ) (depth : ℕ)
    → length (value_bytes (str s)) < 2 ^ 31
    → WalkOf (str s) depth rest
unfolding value_bytes shown on_response
walk_str s rest depth small =
    ap (λ l. on_str (2 ∷ l)) (append_assoc (le_bytes 4 (length s)) s rest)
    ∙ on_str-str s rest (omega (arith, small, length-str s))
    ∙ ap (λ n. ok (show_str (c_text s) ∷ [], some n)) (sym (length-str s))

walk_arr :
    (vs : Items) (rest : List ℕ) (depth : ℕ)
    → item_count vs < 2 ^ 32
    → arr_loop
        (on_response depth)
        (item_count vs)
        ((5 ∷ le_bytes 4 (item_count vs)) ++ (items_bytes vs ++ rest))
        (length (5 ∷ le_bytes 4 (item_count vs)))
      ≡ ok
          (shown_items vs, some (length (5 ∷ le_bytes 4 (item_count vs)) + length (items_bytes vs)))
    → WalkOf (arr vs) depth rest
unfolding value_bytes shown on_response
walk_arr vs rest depth few run =
    let w = le_bytes 4 (item_count vs) in
    let w5 : length (5 ∷ w) ≡ 5 = omega (arith, length-le_bytes 4 (item_count vs)) in
    ap (λ l. on_arr (on_response depth) (5 ∷ l)) (append_assoc w (items_bytes vs) rest)
    ∙ on_arr-loop (on_response depth) (item_count vs) _ (items_bytes vs ++ rest) (shown_items vs)
        few (rw w5 at run)
    ∙ ap (λ n. ok (show_arr (item_count vs) ∷ shown_items vs, some n)) (sym (length-arr vs))

walk_end :
    (item_run : List ℕ → Run Response) (d : List ℕ) (pos : ℕ)
    → pos < 2 ^ 31
    → arr_loop item_run 0 d pos ≡ ok (show_arr_end ∷ [], some (pos + 0))
unfolding arr_loop
walk_end item_run d pos small =
    ap (λ r. ok (show_arr_end ∷ [], r)) (int32-small pos small ∙ ap some (omega arith))

module _ (b i hd rest : List ℕ) (depth left : ℕ) (lines lines' : List Line) where
  walk_item :
      on_response depth (b ++ (i ++ rest)) ≡ ok (lines, some (length b))
      → arr_loop (on_response depth) left ((hd ++ b) ++ (i ++ rest)) (length (hd ++ b))
        ≡ ok (lines', some (length (hd ++ b) + length i))
      → arr_loop (on_response depth) (suc left) (hd ++ ((b ++ i) ++ rest)) (length hd)
        ≡ ok (lines ++ lines', some (length hd + length (b ++ i)))
  walk_item here run =
      let d = hd ++ (b ++ (i ++ rest)) in
      let total : length (hd ++ b) + length i ≡ length hd + length (b ++ i) =
        omega (arith, length-append hd b, length-append b i) in
      let reassoc : (hd ++ b) ++ (i ++ rest) ≡ d = append_assoc hd b (i ++ rest) in
      let at_item = ap (on_response depth) (drop-append hd (b ++ (i ++ rest))) ∙ here in
      let after =
        ap₂ (arr_loop (on_response depth) left) (sym reassoc) (sym (length-append hd b))
        ∙ run
        ∙ ap (λ n. ok (lines', some n)) total in
      ap (λ l. arr_loop (on_response depth) (suc left) (hd ++ l) (length hd))
        (append_assoc b i rest)
      ∙ loop_item (on_response depth) left (length hd) (length b) _ d lines lines'
          (omega (arith, length-append hd (b ++ (i ++ rest)))) at_item after

mutual
  unfolding shown value_bytes item_count on_response

  walk :
      (v : Value) (depth : ℕ) (rest : List ℕ)
      → Fits v
      → length (value_bytes v) < 2 ^ 31
      → length (value_bytes v) ≤ depth
      → on_response (suc depth) (value_bytes v ++ rest)
        ≡ ok (shown v, some (length (value_bytes v)))
  walk nil depth rest h small deep = refl
  walk (err code msg) depth rest h small deep = walk_err code msg rest depth h.0 small
  walk (str s) depth rest h small deep = walk_str s rest depth small
  walk (int n) depth rest h small deep =
      on_int-int n rest h ∙ ap (λ k. ok (show_int n ∷ [], some (suc k))) (sym (length-le_bytes 8 n))
  walk (dbl n) depth rest h small deep =
      on_dbl-dbl n rest h ∙ ap (λ k. ok (show_dbl n ∷ [], some (suc k))) (sym (length-le_bytes 8 n))
  walk (arr vs) depth rest h small deep = walk_arr vs rest depth h.1 (
      walk_items vs depth (5 ∷ le_bytes 4 (item_count vs)) rest h.0
        (omega (arith, small, length-append (le_bytes 4 (item_count vs)) (items_bytes vs)))
        (omega (arith, deep, length-append (le_bytes 4 (item_count vs)) (items_bytes vs))))

  walk_items :
      (vs : Items) (depth : ℕ) (hd rest : List ℕ)
      → FitsAll vs
      → length hd + length (items_bytes vs) < 2 ^ 31
      → length (items_bytes vs) < depth
      → arr_loop (on_response depth) (item_count vs) (hd ++ (items_bytes vs ++ rest)) (length hd)
        ≡ ok (shown_items vs, some (length hd + length (items_bytes vs)))
  walk_items end depth hd rest h small deep =
      walk_end (on_response depth) (hd ++ rest) (length hd) (omega (arith, small))
  walk_items (item v vs) depth hd rest h small deep =
      let b = value_bytes v in
      let i = items_bytes vs in
      let e : suc (depth - 1) ≡ depth = omega (arith, deep) in
      let here =
        walk v (depth - 1) (i ++ rest) h.0 (omega (arith, small, length-append b i))
          (omega (arith, deep, length-append b i)) in
      let run =
        walk_items vs depth (hd ++ b) rest h.1
          (omega (arith, small, length-append b i, length-append hd b))
          (omega (arith, deep, length-append b i)) in
      walk_item b i hd rest depth (item_count vs) (shown v) (shown_items vs) (rw e at here) run

-- For a value whose strings, counts and numbers fit their fields and whose reply is shorter
-- than 2 ^ 31, `on_response`, with fuel above the length of the reply, prints the value and
-- returns the length of the reply, whatever bytes stand behind the reply.
pub on_response-write_value :
    (v : Value) (rest : List ℕ) (depth : ℕ)
    → Fits v
    → length (write_value [] v) < 2 ^ 31
    → length (write_value [] v) < depth
    → on_response depth (write_value [] v ++ rest) ≡ ok (shown v, some (length (write_value [] v)))
on_response-write_value v rest zero h small deep = absurd (omega arith)
on_response-write_value v rest (suc depth) h small deep =
    let same : write_value [] v ≡ value_bytes v = write_value-append [] v h in
    rw same (walk v depth rest h (rw same at small) (omega (arith, ap length same)))
