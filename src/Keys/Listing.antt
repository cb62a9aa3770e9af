-- ===== src/Keys/Listing.antt =====
-- `do_keys` on both tables.
use mathlib.Core.List.{flatten}
use redis_c.Base.{
  ℕ, suc, ◌^◌, ◌<◌, ◌≡◌, refl, ap, ◌∙◌, List, [], ◌∷◌, ◌++◌, length, arith, ok, u32, inl, inr,
}
use redis_c.HashTable.{HTable, h_scan, scan_chain}
use redis_c.HashTable.Table.{nodes}
use redis_c.HashTable.Scan.{scan_whole}
use redis_c.HashMap.{hm_size}
use redis_c.HashMap.Invariant.{entries, IsMap, IsSlot}
use redis_c.HashMap.Methods.{hm_size-length}
use redis_c.Reply.{out_arr}
use redis_c.Reply.Value.{str, arr, Items, end, item, item_count, write_value, write_items}
use redis_c.Keys.{Entry, hashed_entry, Db, cb_scan, do_keys}

unfoldable pub key_items : List Entry → Items
key_items [] = end
key_items (e ∷ es) = item (str e.key) (key_items es)

count-key_items : (es : List Entry) → item_count (key_items es) ≡ length es
unfolding key_items item_count
count-key_items [] = refl
count-key_items (e ∷ es) = ap suc (count-key_items es)

scan-key_items :
    (es fs : List Entry) (out : List ℕ)
    → scan_chain cb_scan fs (scan_chain cb_scan es out) ≡ write_items out (key_items (es ++ fs))
unfolding scan_chain key_items write_items write_value
scan-key_items [] [] out = refl
scan-key_items [] (f ∷ fs) out = scan-key_items [] fs (cb_scan f out)
scan-key_items (e ∷ es) fs out = scan-key_items es fs (cb_scan e out)

scan_slot :
    (t : HTable Entry) (out : List ℕ)
    → IsSlot t
    → h_scan cb_scan t out ≡ ok (scan_chain cb_scan (nodes t) out)
unfolding h_scan scan_chain flatten
scan_slot t out (inl e) = rw e
scan_slot t out (inr v) = scan_whole cb_scan t out v

-- On a well-formed key space of fewer than 2 ^ 32 entries, in or out of a resize, `do_keys`
-- returns and its reply is that of the array of the keys of all entries, `ht_to` before
-- `ht_from`, with their exact number.
pub do_keys-write_value :
    (db : Db)
    → IsMap db
    → length (entries db) < 2 ^ 32
    → do_keys db [] ≡ ok (write_value [] (arr (key_items (entries db))))
unfolding do_keys write_value
do_keys-write_value db v few =
    let count : u32 (hm_size db) ≡ item_count (key_items (entries db)) =
      omega (arith, hm_size-length db v, count-key_items (entries db)) in
    rw
      (
        scan_slot db.ht_to (out_arr [] (u32 (hm_size db))) v.to_valid,
        scan_slot db.ht_from (scan_chain cb_scan (nodes db.ht_to) (out_arr [] (u32 (hm_size db))))
            v.from_valid,
      )
      (ap ok (
        scan-key_items (nodes db.ht_to) (nodes db.ht_from) (out_arr [] (u32 (hm_size db)))
        ∙ ap (λ n. write_items (out_arr [] n) (key_items (entries db))) count))
