-- ===== src/Timers.antt =====
-- src/server.cpp, the timers: the heap of expiry times with `heap_update` and `entry_set_ttl`, and
-- `next_timer_ms`. An entry of the key space is a number, and `heap_idx` the list of the fields
-- `heap_idx` of all entries; `ref` is the number of the entry that it points to. An access outside
-- the array is a fault. The loops take fuel. The clock is an argument.
pub mod Next
mod Tests
use redis_c.Base.{
  ℕ, zero, suc, ◌+◌, ◌-◌, ◌*◌, ◌/◌, ◌^◌, Bool, true, false, ◌&&◌, not, Option, none, some, List, [],
  ◌∷◌, ◌++◌, ltb, leb, ◌==◌, if◌then◌else◌, length, take, get_elem?, set, u32, u64, dec64, Run, ok,
  fault, out_of_fuel, deref, ◌>>=◌, ◌>>◌,
}

pub record HeapItem : Type 0 where
  pub val : ℕ
  pub ref : ℕ

pub record Timers : Type 0 where
  pub heap : List HeapItem
  pub heap_idx : List ℕ

-- `(size_t)-1`, and the largest `uint64_t`
abbrev pub minus_one : ℕ
minus_one = 2 ^ 64 - 1

abbrev pub heap_parent : ℕ → ℕ
heap_parent i = dec64 ((i + 1) / 2)

abbrev pub heap_left_child : ℕ → ℕ
heap_left_child i = i * 2 + 1

abbrev pub heap_right_child : ℕ → ℕ
heap_right_child i = i * 2 + 2

-- `ptr[pos] = item; *(ptr[pos].ref) = pos;`
unfoldable pub put_item : Timers → ℕ → HeapItem → Run Timers
put_item t pos item =
    if ltb pos (length t.heap) && ltb item.ref (length t.heap_idx)
    then ok (record { heap = set t.heap pos item; heap_idx = set t.heap_idx item.ref pos })
    else fault

unfoldable pub up_loop : ℕ → Timers → HeapItem → ℕ → Run Timers
unfolding put_item
up_loop zero t item pos = out_of_fuel
up_loop (suc fuel) t item pos = if pos == 0 then put_item t pos item else do
  parent ← deref (get_elem? t.heap (heap_parent pos))
  if ltb item.val parent.val
      then (do t' ← put_item t pos parent; up_loop fuel t' item (heap_parent pos))
      else put_item t pos item

unfoldable pub heap_bubble_up : ℕ → Timers → ℕ → Run Timers
heap_bubble_up fuel t pos = do item ← deref (get_elem? t.heap pos); up_loop fuel t item pos

-- `if (l < len && ptr[l].val < min_val)`, with the position and value of the minimum so far
unfoldable pub smaller : Timers → ℕ → ℕ → ℕ × ℕ → Run (ℕ × ℕ)
smaller t len child (min_pos, min_val) = if not (ltb child len) then ok (min_pos, min_val) else do
  item ← deref (get_elem? t.heap child)
  ok (if ltb item.val min_val then (child, item.val) else (min_pos, min_val))

unfoldable pub down_loop : ℕ → Timers → HeapItem → ℕ → ℕ → Run Timers
unfolding smaller
down_loop zero t item pos len = out_of_fuel
down_loop (suc fuel) t item pos len = do
  left ← smaller t len (heap_left_child pos) (minus_one, item.val)
  (min_pos, min_val) ← smaller t len (heap_right_child pos) left
  if min_pos == minus_one then put_item t pos item else do
    child ← deref (get_elem? t.heap min_pos)
    t' ← put_item t pos child
    down_loop fuel t' item min_pos len

unfoldable pub heap_bubble_down : ℕ → Timers → ℕ → ℕ → Run Timers
heap_bubble_down fuel t pos len = do
  item ← deref (get_elem? t.heap pos)
  down_loop fuel t item pos len

unfoldable pub heap_update : ℕ → Timers → ℕ → ℕ → Run Timers
heap_update fuel t pos len = if pos == 0 then heap_bubble_down fuel t pos len else do
  parent ← deref (get_elem? t.heap (heap_parent pos))
  item ← deref (get_elem? t.heap pos)
  if ltb item.val parent.val then heap_bubble_up fuel t pos else heap_bubble_down fuel t pos len

-- the heap without the item at `pos`: the last one takes its place
unfoldable pub erase_timer : ℕ → Timers → ℕ → ℕ → Run Timers
erase_timer fuel t ent pos = do
  last ← deref (get_elem? t.heap (dec64 (length t.heap)))
  old ← deref (get_elem? t.heap pos)
  let shorter = record t { heap = take (length t.heap - 1) (set t.heap pos last) }
  t' ←
      if ltb pos (length shorter.heap)
      then heap_update fuel shorter pos (length shorter.heap)
      else ok shorter
  ok (record t' { heap_idx = set t'.heap_idx ent minus_one })

-- `ttl_ms` is a 64-bit pattern, negative from 2 ^ 63 on
unfoldable pub entry_set_ttl : ℕ → ℕ → Timers → ℕ → ℕ → Run Timers
unfolding erase_timer
entry_set_ttl fuel now_us t ent ttl_ms = do
  idx ← deref (get_elem? t.heap_idx ent)
  if leb (2 ^ 63) ttl_ms
      then (if idx == minus_one then ok t else erase_timer fuel t ent idx)
      else do
        let fresh = idx == minus_one
        let heap = if fresh then t.heap ++ record { val = 0; ref = ent } ∷ [] else t.heap
        let pos = if fresh then length t.heap else idx
        item ← deref (get_elem? heap pos)
        let val = u64 (now_us + ttl_ms * 1000)
        heap_update fuel (record t { heap = set heap pos (record item { val = val }) }) pos
            (length heap)

-- K_IDLE_TIMEOUT_MS of src/constants.h
abbrev pub k_idle_timeout_ms : ℕ
k_idle_timeout_ms = 5 * 1000

-- `idle_start` of the first connection in the idle list, if there is one
unfoldable pub idle_next : Option ℕ → ℕ
idle_next none = minus_one
idle_next (some idle_start) = u64 (idle_start + k_idle_timeout_ms * 1000)

unfoldable pub ttl_next : List HeapItem → ℕ → ℕ
ttl_next [] next_us = next_us
ttl_next (item ∷ items) next_us = if ltb item.val next_us then item.val else next_us

-- subtraction on `uint64_t`
abbrev pub sub_u64 : ℕ → ℕ → ℕ
sub_u64 a b = u64 (a + 2 ^ 64 - b)

unfoldable pub next_timer_ms : ℕ → Option ℕ → List HeapItem → ℕ
unfolding idle_next ttl_next
next_timer_ms now_us idle heap =
    let next_us = ttl_next heap (idle_next idle) in
    if next_us == minus_one
    then 10000
    else if leb next_us now_us
    then 0
    else u32 (sub_u64 next_us now_us / 1000)
