-- ===== src/Sets/Tests.antt =====
-- The theorems at a set of two tuples, and runs of the commands, from src/server.cpp.
use redis_c.Base.{ℕ, ◌≡◌, refl, ◌+◌, ◌-◌, ◌^◌, List, [], ◌∷◌, none, some, Run, ok, ◌>>=◌, arith}
use redis_c.HashTable.{h_init, h_lookup, load_link, h_insert}
use redis_c.HashMap.{empty_map, hm_lookup, hm_insert, hm_help_resizing, insert_and_grow}
use redis_c.Keys.{str_hash, bytes_eq}
use redis_c.Reply.{out_update_arr, out_double, out_str, out_arr, out_int, out_nil}
use redis_c.Wire.{write_at, le_bytes}
use redis_c.Client.{c_text}
use redis_c.ZSet.{empty_zset, zset_query, zset_add, tuple_less}
use redis_c.ZSet.Tests.{pair, pair_tree, pair-HasTree}
use redis_c.Sets.{State, str2double, str2int, do_zadd, do_zquery, do_zrem, do_zscore, query_rows}
use redis_c.Sets.Listing.{Rows, query_rows-Rows}

code : Unit {0}
unfolding str2double str2int do_zadd do_zquery do_zrem do_zscore hm_help_resizing h_lookup load_link
    insert_and_grow h_insert c_text hm_lookup hm_insert h_init str_hash bytes_eq zset_add tuple_less
    zset_query out_update_arr out_double out_str out_arr write_at le_bytes
code = tt

-- `strtod` of one digit, whose value stands for its bit pattern
abbrev one_digit : List ℕ → ℕ × ℕ
one_digit [] = (0, 0)
one_digit (b ∷ bs) = (b - 48, 1)

abbrev start : State
start = record { db = empty_map; sets = λ key. empty_zset }

-- "a" with 2 and "b" with 1, under the key "k"
abbrev filled : Run (List ℕ × State)
filled = do_zadd one_digit 200 start (107 ∷ []) (50 ∷ []) (97 ∷ []) [] >>= λ (out, d).
    do_zadd one_digit 200 d (107 ∷ []) (49 ∷ []) (98 ∷ []) []

abbrev reply_of : List ℕ × State → Run (List ℕ)
reply_of (out, d) = ok out

-- a limit of one gives one tuple, two elements
query_one :
    (filled >>= λ (out, d).
    do_zquery one_digit 200 d (107 ∷ []) (48 ∷ []) [] (48 ∷ []) (49 ∷ []) [] >>= reply_of)
    ≡ ok (5 ∷ 2 ∷ 0 ∷ 0 ∷ 0 ∷ 2 ∷ 1 ∷ 0 ∷ 0 ∷ 0 ∷ 98 ∷ 4 ∷ 1 ∷ 0 ∷ 0 ∷ 0 ∷ 0 ∷ 0 ∷ 0 ∷ 0 ∷ [])
unfolding code
query_one = refl

added_second : (filled >>= reply_of) ≡ ok (out_int [] 1)
unfolding code
added_second = refl

missing_set : (do_zscore 200 start (107 ∷ []) (97 ∷ []) [] >>= reply_of) ≡ ok (out_nil [])
unfolding code
missing_set = refl

not_a_number : str2int (32 ∷ 45 ∷ []) ≡ none
unfolding code
not_a_number = refl

empty_number : str2int [] ≡ some (2 ^ 63)
unfolding code
empty_number = refl

negative_number : str2int (32 ∷ 45 ∷ 49 ∷ 50 ∷ []) ≡ some (2 ^ 63 - 12)
unfolding code
negative_number = refl

query_rows-Rows_example :
    Rows pair pair_tree 3 []
      (2 ^ 63)
      (2 ^ 63 + 1)
      []
      (do znode ← zset_query 10 pair 3 [] (2 ^ 63); query_rows 10 pair znode (2 ^ 63 + 1) 0 [])
query_rows-Rows_example =
    query_rows-Rows 10 pair pair_tree 3 [] (2 ^ 63) (2 ^ 63 + 1) [] (omega arith) (omega arith)
      (omega arith) (omega arith) pair-HasTree
