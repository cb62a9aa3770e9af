-- ===== src/Server.antt =====
-- src/server.cpp, `do_request`: the command that a request names, and its function. The server's data
-- are the key space and the sorted sets; `strtod` is an argument. `cmd_is` is src/utils.h.
pub mod Data
pub mod SortedSets
pub mod Query
pub mod Ready
mod Tests
use redis_c.Base.{
  ℕ, zero, suc, ◌+◌, ◌-◌, ◌≤◌, ◌<◌, Bool, true, false, ◌&&◌, List, [], ◌∷◌, leb, ltb, ◌==◌,
  if◌then◌else◌, length, Run, ok, ◌>>=◌,
}
use redis_c.Request.{Command}
use redis_c.Reply.{out_err}
use redis_c.Client.{c_text}
use redis_c.Sets.{State, do_zadd, do_zrem, do_zscore, do_zquery}
use redis_c.Keys.{Db, bytes_eq, do_get, do_set, do_del, do_keys}

-- `tolower` of `strcasecmp`
abbrev pub lower : ℕ → ℕ
lower b = if leb 65 b && leb b 90 then b + 32 else b

unfoldable pub lower_all : List ℕ → List ℕ
lower_all [] = []
lower_all (b ∷ bs) = lower b ∷ lower_all bs

-- a C string ends at its first zero; `cmd` is in lower case
unfoldable pub cmd_is : List ℕ → List ℕ → Bool
cmd_is word cmd = bytes_eq (lower_all (c_text word)) cmd

abbrev pub keys : List ℕ
keys = 107 ∷ 101 ∷ 121 ∷ 115 ∷ []

abbrev pub get : List ℕ
get = 103 ∷ 101 ∷ 116 ∷ []

abbrev pub set : List ℕ
set = 115 ∷ 101 ∷ 116 ∷ []

abbrev pub del : List ℕ
del = 100 ∷ 101 ∷ 108 ∷ []

abbrev pub zadd : List ℕ
zadd = 122 ∷ 97 ∷ 100 ∷ 100 ∷ []

abbrev pub zrem : List ℕ
zrem = 122 ∷ 114 ∷ 101 ∷ 109 ∷ []

abbrev pub zscore : List ℕ
zscore = 122 ∷ 115 ∷ 99 ∷ 111 ∷ 114 ∷ 101 ∷ []

abbrev pub zquery : List ℕ
zquery = 122 ∷ 113 ∷ 117 ∷ 101 ∷ 114 ∷ 121 ∷ []

-- ERR_UNKNOWN and "Unknown cmd"
abbrev pub err_unknown : ℕ
err_unknown = 1

abbrev pub unknown_cmd : List ℕ
unknown_cmd = 85 ∷ 110 ∷ 107 ∷ 110 ∷ 111 ∷ 119 ∷ 110 ∷ 32 ∷ 99 ∷ 109 ∷ 100 ∷ []

unfoldable pub unknown : State → List ℕ × State
unknown d = (out_err [] err_unknown unknown_cmd, d)

-- a command on the key space only
unfoldable pub with_db : State → Run (List ℕ × Db) → Run (List ℕ × State)
with_db d call = do (out, db) ← call; ok (out, record d { db = db })

-- `do_request` by the number of strings
unfoldable pub do_request : (List ℕ → ℕ × ℕ) → ℕ → Command → State → Run (List ℕ × State)
unfolding unknown with_db
do_request strtod fuel (name ∷ []) d =
    if cmd_is name keys then (do out ← do_keys d.db []; ok (out, d)) else ok (unknown d)
do_request strtod fuel (name ∷ key ∷ []) d =
    if cmd_is name get
    then with_db d (do_get fuel d.db key [])
    else if cmd_is name del
    then with_db d (do_del fuel d.db key [])
    else ok (unknown d)
do_request strtod fuel (name ∷ key ∷ val ∷ []) d =
    if cmd_is name set
    then with_db d (do_set fuel d.db key val [])
    else if cmd_is name zrem
    then do_zrem fuel d key val []
    else if cmd_is name zscore
    then do_zscore fuel d key val []
    else ok (unknown d)
do_request strtod fuel (name ∷ key ∷ score ∷ member ∷ []) d =
    if cmd_is name zadd then do_zadd strtod fuel d key score member [] else ok (unknown d)
do_request strtod fuel (name ∷ key ∷ score ∷ member ∷ offset ∷ limit ∷ []) d =
    if cmd_is name zquery
    then do_zquery strtod fuel d key score member offset limit []
    else ok (unknown d)
do_request strtod fuel cmd d = ok (unknown d)
