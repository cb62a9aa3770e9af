-- ===== src/Sets.antt =====
-- src/server.cpp, the commands on sorted sets: `do_zadd`, `do_zrem`, `do_zscore` and `do_zquery`,
-- with `str2double`, `str2int` and `expect_zset`. An entry of type T_ZSET owns one set: `sets` has
-- it by the key. `strtod` is an argument: of the bytes of a C string it gives the bit pattern and
-- the number of bytes read. An `int64_t` stands for itself plus 2 ^ 63. The fuel is that of the
-- hash maps and trees, and of the loop of `do_zquery`.
pub mod Listing
mod Tests
use redis_c.Base.{
  ℕ, zero, suc, ◌+◌, ◌-◌, ◌*◌, ◌%◌, ◌^◌, Bool, true, false, ◌&&◌, ◌||◌, not, Option, none, some,
  List, [], ◌∷◌, ◌++◌, ltb, leb, ◌==◌, if◌then◌else◌, length, get_elem?, get_or, drop, u32, Run, ok,
  out_of_fuel, deref, ◌>>=◌,
}
use redis_c.HashMap.{hm_lookup, hm_insert, load_place}
use redis_c.Keys.{Entry, Db, bytes_eq, str_hash, entry_key, hashed_entry}
use redis_c.Reply.{ser_nil, out_nil, out_str, out_int, out_err, out_arr, out_update_arr, out_double}
use redis_c.Client.{c_text}
use redis_c.Avl.{avl_offset}
use redis_c.ZSet.{ZSet, empty_zset, zset_add, zset_lookup, zset_pop, zset_query}

-- T_ZSET, ERR_TYPE and ERR_ARG
abbrev pub t_zset : ℕ
t_zset = 1

abbrev pub err_type : ℕ
err_type = 3

abbrev pub err_arg : ℕ
err_arg = 4

-- "expecting zset", "expected fp number", "expecting fp number" and "expecting int"
abbrev pub expecting : List ℕ
expecting = 101 ∷ 120 ∷ 112 ∷ 101 ∷ 99 ∷ 116 ∷ 105 ∷ 110 ∷ 103 ∷ 32 ∷ []

abbrev pub expecting_zset : List ℕ
expecting_zset = expecting ++ (122 ∷ 115 ∷ 101 ∷ 116 ∷ [])

abbrev pub fp_number : List ℕ
fp_number = 102 ∷ 112 ∷ 32 ∷ 110 ∷ 117 ∷ 109 ∷ 98 ∷ 101 ∷ 114 ∷ []

abbrev pub expected_fp : List ℕ
expected_fp = 101 ∷ 120 ∷ 112 ∷ 101 ∷ 99 ∷ 116 ∷ 101 ∷ 100 ∷ 32 ∷ fp_number

abbrev pub expecting_fp : List ℕ
expecting_fp = expecting ++ fp_number

abbrev pub expecting_int : List ℕ
expecting_int = expecting ++ (105 ∷ 110 ∷ 116 ∷ [])

pub record State : Type 0 where
  pub db : Db
  pub sets : List ℕ → ZSet

-- the set of a key is another one, or changed
abbrev pub store_set : State → List ℕ → ZSet → State
store_set d key z = record d { sets = λ key'. if bytes_eq key' key then z else d.sets key' }

abbrev pub is_nan : ℕ → Bool
is_nan bits = ltb 0x7FF0000000000000 (bits % 2 ^ 63)

unfoldable pub str2double : (List ℕ → ℕ × ℕ) → List ℕ → Option ℕ
str2double strtod s =
    let (bits, read) = strtod (c_text s) in
    if read == length s && not (is_nan bits) then some bits else none

abbrev pub is_space : ℕ → Bool
is_space b = b == 32 || (leb 9 b && leb b 13)

unfoldable pub skip_spaces : List ℕ → List ℕ
skip_spaces [] = []
skip_spaces (b ∷ bs) = let rest = skip_spaces bs in if is_space b then rest else b ∷ bs

-- the number that the digits in front make, and the bytes that are left
unfoldable pub read_digits : ℕ → List ℕ → ℕ × List ℕ
read_digits value [] = (value, [])
read_digits value (b ∷ bs) =
    let rest = read_digits (value * 10 + (b - 48)) bs in
    if leb 48 b && leb b 57 then rest else (value, b ∷ bs)

-- `strtoll` in base 10: the value, limited to `int64_t`, and the bytes that are left. Without a
-- digit nothing is read.
unfoldable pub strtoll : List ℕ → ℕ × List ℕ
unfolding skip_spaces read_digits
strtoll s =
    let bytes = skip_spaces s in
    let negative = get_or bytes 0 0 == 45 in
    let signed = negative || get_or bytes 0 0 == 43 in
    let number = if signed then drop 1 bytes else bytes in
    let (value, rest) = read_digits 0 number in
    if length rest == length number
    then (2 ^ 63, s)
    else if negative
    then (2 ^ 63 - value, rest)
    else (if ltb value (2 ^ 63) then 2 ^ 63 + value else 2 ^ 64 - 1, rest)

unfoldable pub str2int : List ℕ → Option ℕ
unfolding strtoll
str2int s =
    let (value, rest) = strtoll (c_text s) in
    if length (c_text s) == length s && length rest == 0 then some value else none

-- `expect_zset`: whether the key has a set, and if not the reply
unfoldable pub expect_zset : ℕ → State → List ℕ → List ℕ → Run (Bool × List ℕ × State)
expect_zset fuel d key out = do
  (hnode, db) ← hm_lookup fuel d.db (entry_key key)
  let d' : State = record d { db = db }
  elim hnode [
    | none ↦ ok (false, out_nil out, d')
    | some place ↦ do
      e ← load_place db place
      ok (
          if not (e.type == t_zset)
          then (false, out_err out err_type expecting_zset, d')
          else (true, out, d'))
  ]

-- the end of `do_zadd`, with an entry for the key
unfoldable pub add_tuple : ℕ → State → List ℕ → List ℕ → ℕ → List ℕ → Run (List ℕ × State)
add_tuple fuel d key name score out = do
  (added, z) ← zset_add fuel (d.sets key) name score
  ok (out_int out (if added then 1 else 0), store_set d key z)

unfoldable pub do_zadd :
    (List ℕ → ℕ × ℕ) → ℕ → State → List ℕ → List ℕ → List ℕ → List ℕ → Run (List ℕ × State)
unfolding str2double add_tuple
do_zadd strtod fuel d key score name out = elim (str2double strtod score) [
  | none ↦ ok (out_err out err_arg expected_fp, d)
  | some bits ↦ do
    (hnode, db) ← hm_lookup fuel d.db (entry_key key)
    elim hnode [
      | none ↦ do
        db' ←
            hm_insert fuel db (record { key = key; hcode = str_hash key; val = []; type = t_zset })
        add_tuple fuel (store_set (record d { db = db' }) key empty_zset) key name bits out
      | some place ↦ do
        e ← load_place db place
        if not (e.type == t_zset)
            then ok (out_err out err_type expecting_zset, record d { db = db })
            else add_tuple fuel (record d { db = db }) key name bits out
    ]
]

unfoldable pub do_zrem : ℕ → State → List ℕ → List ℕ → List ℕ → Run (List ℕ × State)
unfolding expect_zset
do_zrem fuel d key name out = do
  (found, out', d') ← expect_zset fuel d key out
  if not found then ok (out', d') else do
    (znode, z) ← zset_pop fuel (d'.sets key) name
    ok (out_int out' (elim znode [ none ↦ 0 | some node ↦ 1 ]), store_set d' key z)

unfoldable pub do_zscore : ℕ → State → List ℕ → List ℕ → List ℕ → Run (List ℕ × State)
unfolding expect_zset
do_zscore fuel d key name out = do
  (found, out', d') ← expect_zset fuel d key out
  if not found then ok (out', d') else do
    (znode, z) ← zset_lookup fuel (d'.sets key) name
    ok (
      elim znode [ none ↦ out_nil out' | some node ↦ out_double out' (z.scores node) ],
      store_set d' key z,
    )

-- the loop of `do_zquery`: the count and the reply
unfoldable pub query_rows : ℕ → ZSet → Option ℕ → ℕ → ℕ → List ℕ → Run (ℕ × List ℕ)
query_rows zero z znode limit n out = out_of_fuel
query_rows (suc fuel) z znode limit n out = elim znode [
  | none ↦ ok (n, out)
  | some node ↦
      let row = out_double (out_str out (z.names node)) (z.scores node) in
      let next : Run (ℕ × List ℕ) = do
        following ← avl_offset (suc fuel) z.links node (2 ^ 63 + 1)
        query_rows fuel z following limit (u32 (n + 2)) row
      in if ltb (2 ^ 63 + n) limit then next else ok (n, out)
]

-- `do_zquery` with its numbers read
unfoldable pub query_reply : ℕ → State → List ℕ → ℕ → List ℕ → ℕ → ℕ → List ℕ → Run (List ℕ × State)
unfolding expect_zset query_rows
query_reply fuel d key score name offset limit out = do
  (found, out', d') ← expect_zset fuel d key out
  if not found
      then (do
        first ← deref (get_elem? out' 0)
        ok (if first == ser_nil then out_arr [] 0 else out', d'))
      else if leb limit (2 ^ 63)
      then ok (out_arr out' 0, d')
      else do
        znode ← zset_query fuel (d'.sets key) score name offset
        (n, rows) ← query_rows fuel (d'.sets key) znode limit 0 (out_arr out' 0)
        reply ← out_update_arr rows n
        ok (reply, d')

unfoldable pub do_zquery :
    (List ℕ → ℕ × ℕ)
    → ℕ
    → State
    → List ℕ
    → List ℕ
    → List ℕ
    → List ℕ
    → List ℕ
    → List ℕ
    → Run (List ℕ × State)
unfolding str2double str2int query_reply
do_zquery strtod fuel d key score name offset limit out = elim (str2double strtod score) [
  | none ↦ ok (out_err out err_arg expecting_fp, d)
  | some bits ↦ elim (str2int offset) [
    | none ↦ ok (out_err out err_arg expecting_int, d)
    | some from ↦ elim (str2int limit) [
      | none ↦ ok (out_err out err_arg expecting_int, d)
      | some most ↦ query_reply fuel d key bits name from most out
    ]
  ]
]
