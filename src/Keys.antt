-- ===== src/Keys.antt =====
-- src/server.cpp, the commands on strings: `do_get`, `do_set`, `do_del` and `do_keys` on the key
-- space `g_data.db`, with `str_hash` of src/utils.h and `entry_eq`. An entry has its key, hash code,
-- value and type; the sorted set of an entry, its timer and its deallocation are not part of this.
-- The fuel is that of the hash map.
pub mod Compare
pub mod Replace
pub mod Refine
pub mod Update
pub mod Listing
mod Tests
use redis_c.Base.{
  ℕ, zero, suc, ◌+◌, ◌*◌, Bool, true, false, ◌&&◌, Option, none, some, List, [], ◌∷◌, leb, ◌==◌,
  if◌then◌else◌, length, get_elem?, set, u32, Run, ok, fault, deref, assert, ◌>>=◌, ◌>>◌,
}
use redis_c.HashTable.{Hashed, Key, HTable, Link, h_scan}
use redis_c.HashMap.{HMap, Place, in_to, in_from, load_place, hm_lookup, hm_insert, hm_pop, hm_size}
use redis_c.Request.{k_max_msg}
use redis_c.Reply.{out_nil, out_str, out_int, out_arr}

-- T_STR
abbrev pub t_str : ℕ
t_str = 0

pub record Entry : Type 0 where
  pub key : List ℕ
  pub hcode : ℕ
  pub val : List ℕ
  pub type : ℕ

instance abbrev pub hashed_entry : Hashed Entry
hashed_entry = record { hcode = λ e. e.hcode }

-- `std::string` equality
unfoldable pub bytes_eq : List ℕ → List ℕ → Bool
bytes_eq [] [] = true
bytes_eq [] (y ∷ ys) = false
bytes_eq (x ∷ xs) [] = false
bytes_eq (x ∷ xs) (y ∷ ys) = x == y && bytes_eq xs ys

-- the loop of `str_hash` on a `uint32_t`
unfoldable pub hash_from : ℕ → List ℕ → ℕ
hash_from hash [] = hash
hash_from hash (b ∷ bytes) = hash_from (u32 ((hash + b) * 0x811C9DC5)) bytes

unfoldable pub str_hash : List ℕ → ℕ
unfolding hash_from
str_hash bytes = hash_from 0x811C9DC5 bytes

-- the entry on the stack that a command looks up, and `entry_eq` with it
abbrev pub entry_key : List ℕ → Key Entry
entry_key key = record {
  code = str_hash key;
  cmp = λ e. e.hcode == str_hash key && bytes_eq e.key key;
}

-- a write through the pointer to a node
unfoldable pub store_link : HTable Entry → Link → Entry → Run (HTable Entry)
store_link t (pos, i) e = do
  b ← deref t.table
  chain ← deref (get_elem? b pos)
  ok (record t { table = some (set b pos (set chain i e)) })

unfoldable pub store_place : HMap Entry → Place → Entry → Run (HMap Entry)
unfolding store_link
store_place m (in_to link) e = do t ← store_link m.ht_to link e; ok (record m { ht_to = t })
store_place m (in_from link) e = do t ← store_link m.ht_from link e; ok (record m { ht_from = t })

abbrev pub Db : Type 0
Db = HMap Entry

unfoldable pub do_get : ℕ → Db → List ℕ → List ℕ → Run (List ℕ × Db)
do_get fuel db key out = do
  (node, db') ← hm_lookup fuel db (entry_key key)
  elim node [
    | none ↦ ok (out_nil out, db')
    | some place ↦ do
      e ← load_place db' place
      assert (leb (length e.val) k_max_msg)
      ok (out_str out e.val, db')
  ]

unfoldable pub do_set : ℕ → Db → List ℕ → List ℕ → List ℕ → Run (List ℕ × Db)
unfolding store_place
do_set fuel db key val out = do
  (node, db') ← hm_lookup fuel db (entry_key key)
  elim node [
    | none ↦ do
      db'' ←
          hm_insert fuel db' (record { key = key; hcode = str_hash key; val = val; type = t_str })
      ok (out_nil out, db'')
    | some place ↦ do
      e ← load_place db' place
      db'' ← store_place db' place (record e { val = val })
      ok (out_nil out, db'')
  ]

unfoldable pub do_del : ℕ → Db → List ℕ → List ℕ → Run (List ℕ × Db)
do_del fuel db key out = do
  (node, db') ← hm_pop fuel db (entry_key key)
  ok (elim node [ none ↦ (out_int out 0, db') | some e ↦ (out_int out 1, db') ])

-- the callback of `do_keys`
abbrev pub cb_scan : Entry → List ℕ → List ℕ
cb_scan e out = out_str out e.key

unfoldable pub do_keys : Db → List ℕ → Run (List ℕ)
do_keys db out = do
  to ← h_scan cb_scan db.ht_to (out_arr out (u32 (hm_size db)))
  h_scan cb_scan db.ht_from to
