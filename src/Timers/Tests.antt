-- ===== src/Timers/Tests.antt =====
-- Runs of the heap, and the theorem on `next_timer_ms` at two timers.
use redis_c.Base.{ℕ, min, ◌+◌, ◌*◌, ◌^◌, ◌-◌, ◌≡◌, refl, [], ◌∷◌, none, some, ok, arith, ◌>>=◌}
use redis_c.Timers.{
  HeapItem, Timers, minus_one, put_item, up_loop, heap_bubble_up, smaller, down_loop,
  heap_bubble_down, heap_update, erase_timer, entry_set_ttl, next_timer_ms, k_idle_timeout_ms,
}
use redis_c.Timers.Next.{Sleeps, next_timer_ms-Sleeps}

abbrev no_timers : Timers
no_timers = record { heap = []; heap_idx = minus_one ∷ minus_one ∷ [] }

-- the second entry expires first, and is then persisted
two_set :
    (entry_set_ttl 9 0 no_timers 0 20 >>= λ t. entry_set_ttl 9 0 t 1 10)
    ≡ ok (record {
      heap = record { val = 10000; ref = 1 } ∷ record { val = 20000; ref = 0 } ∷ [];
      heap_idx = 1 ∷ 0 ∷ [];
    })
unfolding put_item up_loop heap_bubble_up smaller down_loop heap_bubble_down heap_update erase_timer
    entry_set_ttl
two_set = refl

one_erased :
    (entry_set_ttl 9 0 no_timers 0 20 >>= λ t.
    entry_set_ttl 9 0 t 1 10 >>= λ t'. entry_set_ttl 9 0 t' 1 (2 ^ 64 - 1))
    ≡ ok (record { heap = record { val = 20000; ref = 0 } ∷ []; heap_idx = 0 ∷ minus_one ∷ [] })
unfolding put_item up_loop heap_bubble_up smaller down_loop heap_bubble_down heap_update erase_timer
    entry_set_ttl
one_erased = refl

abbrev soon : HeapItem
soon = record { val = 9000000; ref = 0 }

next_timer_ms-Sleeps_example :
    Sleeps 8000000
      (next_timer_ms 8000000 (some 7000000) (soon ∷ []))
      (min (7000000 + k_idle_timeout_ms * 1000) soon.val)
    × Sleeps 8000000 (next_timer_ms 8000000 none (soon ∷ [])) soon.val
    × Sleeps 8000000 (next_timer_ms 8000000 (some 7000000) []) (7000000 + k_idle_timeout_ms * 1000)
    × ◌≡◌ {A = ℕ} (next_timer_ms 8000000 none []) 10000
next_timer_ms-Sleeps_example =
    next_timer_ms-Sleeps 8000000 7000000 soon [] (omega arith) (omega arith)
