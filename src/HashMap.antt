-- ===== src/HashMap.antt =====
-- src/hashtable.h and src/hashtable.cpp, the map of two tables: `struct HMap` and the `hm_`
-- functions. `free` is not modelled: the freed table is gone from the map.
-- The loop of `hm_help_resizing` does not always end, so the calls take fuel: the rounds it may go.
pub mod Invariant
pub mod Resize
pub mod Methods
pub mod Growth
pub mod Insert
pub mod Session
pub mod RoundTrip
mod Tests
use redis_c.Base.{
  ℕ, zero, suc, ◌+◌, ◌*◌, ◌/◌, ◌<◌, Bool, true, false, ◌&&◌, Option, none, some, List, [], ◌∷◌, ltb,
  leb, ◌==◌, if◌then◌else◌, get_elem?, set, u64, Run, ok, out_of_fuel, deref, assert, ◌>>=◌, ◌>>◌,
  bit_and,
}
use redis_c.HashTable.{
  Hashed, Key, HTable, null_table, Link, h_init, h_lookup, load_link, h_detach, h_insert, h_scan,
}

-- K_RESIZING_WORK and K_MAX_LOAD_FACTOR of src/constants.h
abbrev pub k_resizing_work : ℕ
k_resizing_work = 128

abbrev pub k_max_load_factor : ℕ
k_max_load_factor = 8

pub record HMap {ℓ} (N : Type ℓ) : Type ℓ where
  pub ht_to : HTable N
  pub ht_from : HTable N
  pub resizing_pos : ℕ

-- `HMap{}`
abbrev pub empty_map {ℓ} : {N : Type ℓ} → HMap N
empty_map = record { ht_to = null_table; ht_from = null_table; resizing_pos = 0 }

-- A null test of a table pointer.
abbrev pub is_null {ℓ} : {N : Type ℓ} → HTable N → Bool
is_null t = elim t.table [ none ↦ true | some _ ↦ false ]

-- An `HNode *` into the map: the table and the link that it is read through.
pub data Place : Type 0 where
  in_to in_from : Link → Place

module _ {ℓ} {N : Type ℓ} where
  unfoldable pub hm_size : HMap N → ℕ
  hm_size m = u64 (m.ht_to.size + m.ht_from.size)

  unfoldable pub hm_start_resizing : HMap N → Run (HMap N)
  hm_start_resizing m = do
    assert (is_null m.ht_from)
    bigger ← h_init (u64 ((m.ht_to.mask + 1) * 2))
    ok (record { ht_to = bigger; ht_from = m.ht_to; resizing_pos = 0 })

  unfoldable pub hm_destroy : HMap N → HMap N
  hm_destroy m = empty_map

  -- the node that a pointer reads
  unfoldable pub load_place : HMap N → Place → Run N
  load_place m (in_to link) = load_link m.ht_to link
  load_place m (in_from link) = load_link m.ht_from link

module _ {ℓ} {N : Type ℓ} ⦃hashed : Hashed N⦄ where
  -- The loop of `hm_help_resizing`. An empty bucket is met with `continue`, and nothing changes.
  unfoldable pub resize_loop : ℕ → ℕ → HMap N → Run (HMap N)
  resize_loop zero work_done m = out_of_fuel
  resize_loop (suc fuel) work_done m =
      let round : Run (HMap N) = do
        b ← deref m.ht_from.table
        chain ← deref (get_elem? b m.resizing_pos)
        elim chain [
          | [] ↦ resize_loop fuel work_done m
          | _ ∷ _ ↦ do
            (node, from') ← h_detach m.ht_from (m.resizing_pos, 0)
            to' ← h_insert m.ht_to node
            resize_loop fuel (work_done + 1) (record m { ht_to = to'; ht_from = from' })
        ]
      in if ltb work_done k_resizing_work && ltb 0 m.ht_from.size then round else ok m

  unfoldable pub hm_help_resizing : ℕ → HMap N → Run (HMap N)
  hm_help_resizing fuel m = if is_null m.ht_from then ok m else do
    m' ← resize_loop fuel 0 m
    ok (if m'.ht_from.size == 0 then record m' { ht_from = null_table } else m')

  -- the search of both tables that `hm_lookup` and `hm_pop` share
  unfoldable pub find_place : HMap N → Key N → Run (Option Place)
  find_place m k = do
    found ← h_lookup m.ht_to k
    elim found [
      | some link ↦ ok (some (in_to link))
      | none ↦ do
        other ← h_lookup m.ht_from k
        ok (elim other [ none ↦ none | some link ↦ some (in_from link) ])
    ]

  unfoldable pub hm_lookup : ℕ → HMap N → Key N → Run (Option Place × HMap N)
  unfolding find_place
  hm_lookup fuel m k = do m' ← hm_help_resizing fuel m; found ← find_place m' k; ok (found, m')

  -- `hm_insert` up to its last call. `mask + 1` is the number of buckets and does not wrap.
  unfoldable pub insert_and_grow : HMap N → N → Run (HMap N)
  insert_and_grow m node = do
    to ← if is_null m.ht_to then h_init 4 else ok m.ht_to
    to' ← h_insert to node
    let inserted = record m { ht_to = to' }
    if is_null m.ht_from && leb k_max_load_factor (to'.size / (to'.mask + 1))
        then hm_start_resizing inserted
        else ok inserted

  unfoldable pub hm_insert : ℕ → HMap N → N → Run (HMap N)
  hm_insert fuel m node = do grown ← insert_and_grow m node; hm_help_resizing fuel grown

  unfoldable pub detach_place : HMap N → Place → Run (N × HMap N)
  detach_place m (in_to link) = do
    (node, t) ← h_detach m.ht_to link
    ok (node, record m { ht_to = t })
  detach_place m (in_from link) = do
    (node, t) ← h_detach m.ht_from link
    ok (node, record m { ht_from = t })

  unfoldable pub hm_pop : ℕ → HMap N → Key N → Run (Option N × HMap N)
  unfolding find_place detach_place
  hm_pop fuel m k = do
    m' ← hm_help_resizing fuel m
    found ← find_place m' k
    elim found [
      | none ↦ ok (none, m')
      | some place ↦ do (node, rest) ← detach_place m' place; ok (some node, rest)
    ]
