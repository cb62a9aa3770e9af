-- ===== src/Server/Query.antt =====
-- `do_zquery` of src/server.cpp returns, on small data.
use redis_c.Base.{
  ℕ, suc, ◌+◌, ◌^◌, ◌-◌, ◌<◌, ◌≤◌, ◌≡◌, refl, sym, ap, ◌∙◌, Bool, true, false, Option, none, some,
  List, [], ◌∷◌, ◌++◌, leb, ltb, length, take, Run, ok, ◌>>=◌, bind_assoc, arith, inl, inr, u32,
  Bool-cases, ◌==◌, if◌then◌else◌, append_assoc, append-nil, get_or, drop, ◌||◌,
}
use redis_c.Wire.{le_bytes}
use redis_c.Reply.{out_str, out_err, out_arr, out_update_arr, out_double, ser_nil}
use redis_c.Reply.Value.{out_update_arr-out_arr}
use redis_c.Keys.{hashed_entry}
use redis_c.ZSet.{ZSet, zset_query, hashed_ref}
use redis_c.Client.{c_text}
use redis_c.Sets.{
  State, err_arg, strtoll, read_digits, skip_spaces, str2int, str2double, query_rows, query_reply,
  do_zquery, expecting_fp, expecting_int,
}
use redis_c.Sets.Listing.{listed, found_rows, query_rows-Rows}
use redis_c.Server.Data.{IsSmallSet-size, Ready}
use redis_c.Server.SortedSets.{Answers, Expects, expect_zset-Expects, still}

-- bytes are appended
abbrev Extends : List ℕ → List ℕ → Type 0
Extends out out' = (more : List ℕ) × (out' ≡ out ++ more)

Extends-trans : (a b c : List ℕ) → Extends a b → Extends b c → Extends a c
Extends-trans a b c (more, e) (more', e') =
    (more ++ more', e' ∙ ap (λ l. l ++ more') e ∙ append_assoc a more more')

row-Extends : (out name : List ℕ) (score : ℕ) → Extends out (out_double (out_str out name) score)
unfolding out_double out_str
row-Extends out name score =
    let a = out ++ 2 ∷ [] in
    let len = u32 (length name) in
    let b = a ++ le_bytes 4 len in
    let c = b ++ take len name in
    let d = c ++ 4 ∷ [] in
    Extends-trans out a (d ++ le_bytes 8 score) (2 ∷ [], refl)
      (Extends-trans a b (d ++ le_bytes 8 score) (le_bytes 4 len, refl)
        (Extends-trans b c (d ++ le_bytes 8 score) (take len name, refl)
          (Extends-trans c d (d ++ le_bytes 8 score) (4 ∷ [], refl) (le_bytes 8 score, refl))))

listed-Extends :
    (z : ZSet) (xs : List ℕ) (limit n : ℕ) (out : List ℕ) → Extends out (listed z xs limit n out).1
listed-Extends z [] limit n out = ([], sym (append-nil out))
listed-Extends z (x ∷ xs) limit n out = elim (Bool-cases (ltb (2 ^ 63 + n) limit)) [
  | inr full ↦ rw full ([], sym (append-nil out))
  | inl more ↦ rw more (
      let row = out_double (out_str out (z.names x)) (z.scores x) in
      Extends-trans out row (listed z xs limit (u32 (n + 2)) row).1
        (row-Extends out (z.names x) (z.scores x)) (listed-Extends z xs limit (u32 (n + 2)) row))
]

-- the last step of `strtoll`
abbrev choose : Bool → Bool → ℕ → List ℕ → List ℕ → ℕ × List ℕ
choose no_digit negative value s rest =
    if no_digit
    then (2 ^ 63, s)
    else if negative
    then (2 ^ 63 - value, rest)
    else (if ltb value (2 ^ 63) then 2 ^ 63 + value else 2 ^ 64 - 1, rest)

choose-lt :
    (no_digit negative : Bool) (value : ℕ) (s rest : List ℕ)
    → (choose no_digit negative value s rest).0 < 2 ^ 64
choose-lt true negative value s rest = omega arith
choose-lt false true value s rest = omega arith
choose-lt false false value s rest = ground arith

-- the value of `strtoll` is an `int64_t`
strtoll-lt : (s : List ℕ) → (strtoll s).0 < 2 ^ 64
unfolding strtoll
strtoll-lt s =
    let bytes = skip_spaces s in
    let negative = get_or bytes 0 0 == 45 in
    let signed = negative || get_or bytes 0 0 == 43 in
    let number = if signed then drop 1 bytes else bytes in
    let (value, rest) = read_digits 0 number in
    choose-lt (length rest == length number) negative value s rest

str2int-lt : (s : List ℕ) (value : ℕ) → str2int s ≡ some value → value < 2 ^ 64
unfolding str2int
str2int-lt s value e = by_test _ (strtoll (c_text s)).0 (strtoll-lt (c_text s)) e
  where
    by_test :
        (whole : Bool) (n : ℕ)
        → n < 2 ^ 64
        → (if whole then some n else none) ≡ some value
        → value < 2 ^ 64
    by_test true n h e = let same : n ≡ value = cc in omega arith
    by_test false n h e = absurd (cc)

-- the end of `do_zquery`
abbrev finish : State → ℕ × List ℕ → Run (List ℕ × State)
finish d (n, rows) = do reply ← out_update_arr rows n; ok (reply, d)

finish-out_arr :
    (d : State) (n : ℕ) (rows more : List ℕ)
    → rows ≡ out_arr [] 0 ++ more
    → finish d (n, rows) ≡ ok (out_arr [] n ++ more, d)
finish-out_arr d n rows more e =
    ap (λ rows. finish d (n, rows)) e
    ∙ ap (λ m. m >>= λ reply. ok (reply, d)) (out_update_arr-out_arr more n)

finish-bind :
    (d : State) (m : Run (Option ℕ)) (f : Option ℕ → Run (ℕ × List ℕ)) (x : ℕ × List ℕ)
    (r : List ℕ × State)
    → (m >>= f) ≡ ok x
    → finish d x ≡ ok r
    → (m >>= λ znode. f znode >>= finish d) ≡ ok r
finish-bind d m f x r e e' = bind_assoc m f (finish d) ∙ ap (λ m. m >>= finish d) e ∙ e'

module _ (n : ℕ) (d : State) (r : Ready (suc n) d) (key : List ℕ) where
  query_reply-Ready :
      (score : ℕ) (name : List ℕ) (offset limit : ℕ)
      → offset < 2 ^ 64
      → Answers n d r key (query_reply 129 d key score name offset limit [])
  unfolding query_reply
  query_reply-Ready score name offset limit small_offset =
      by_set (expect_zset-Expects (suc n) d key r)
    where
      by_set : Expects d key → Answers n d r key (query_reply 129 d key score name offset limit [])
      by_set (inr (b, rest, run)) =
          ((if b == ser_nil then out_arr [] 0 else b ∷ rest, d), rw run refl, still n d r key)
      by_set (inl run) = elim (Bool-cases (leb limit (2 ^ 63))) [
        | inl empty ↦ ((out_arr [] 0, d), rw (run, empty) refl, still n d r key)
        | inr positive ↦
            let z = d.sets key in
            let small = r.sets key in
            let few = IsSmallSet-size (suc n) z small in
            let above : 2 ^ 63 ≤ limit = ground arith in
            let found =
              query_rows-Rows 129 z small.tree score name offset limit (out_arr [] 0)
                (omega (arith, few)) (omega (arith, few)) small_offset above small.valid.has in
            let xs = found_rows small.tree found.cut.lower found.cut.upper offset in
            let count = (listed z xs limit 0 (out_arr [] 0)).0 in
            let (more, e) = listed-Extends z xs limit 0 (out_arr [] 0) in
            (
              (out_arr [] count ++ more, d),
              rw (run, positive)
                  (finish-bind d (zset_query 129 z score name offset)
                    (λ znode. query_rows 129 z znode limit 0 (out_arr [] 0))
                    (listed z xs limit 0 (out_arr [] 0)) (out_arr [] count ++ more, d) found.rows
                    (finish-out_arr d count (listed z xs limit 0 (out_arr [] 0)).1 more e)),
              still n d r key,
            )
      ]

  pub do_zquery-Ready :
      (strtod : List ℕ → ℕ × ℕ) (score name offset limit : List ℕ)
      → Answers n d r key (do_zquery strtod 129 d key score name offset limit [])
  unfolding do_zquery
  do_zquery-Ready strtod score name offset limit =
      by_args (str2double strtod score) (str2int offset) (str2int limit) (str2int-lt offset)
    where
      by_args :
          (bits from most : Option ℕ)
          → ((value : ℕ) → from ≡ some value → value < 2 ^ 64)
          → Answers n d r key (elim bits [
            | none ↦ ok (out_err [] err_arg expecting_fp, d)
            | some bits ↦ elim from [
              | none ↦ ok (out_err [] err_arg expecting_int, d)
              | some from ↦ elim most [
                | none ↦ ok (out_err [] err_arg expecting_int, d)
                | some most ↦ query_reply 129 d key bits name from most []
              ]
            ]
          ])
      by_args none from most small = ((out_err [] err_arg expecting_fp, d), refl, still n d r key)
      by_args (some bits) none most small =
          ((out_err [] err_arg expecting_int, d), refl, still n d r key)
      by_args (some bits) (some from) none small =
          ((out_err [] err_arg expecting_int, d), refl, still n d r key)
      by_args (some bits) (some from) (some most) small =
          query_reply-Ready bits name from most (small from refl)
