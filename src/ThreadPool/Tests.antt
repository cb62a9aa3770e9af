-- ===== src/ThreadPool/Tests.antt =====
-- The theorems after a few steps of two workers, and a thread that queues work, from
-- src/thread_pool.cpp.
use redis_c.Base.{ℕ, ◌≡◌, refl, true, none, some, List, [], ◌∷◌, ◌++◌, ltb, if◌then◌else◌, ok}
use redis_c.ThreadPool.{
  Work, to_lock, at_test, asleep, woken, at_front, outside, ThreadPool, goto, goto_two,
  thread_pool_init, lock, wait, relock, leave_loop, thread_pool_queue, lock_queue, push_back,
  signal, to_lock_queue, at_push, at_signal, to_unlock_queue, unlock_queue, Reach, here, next,
}
use redis_c.ThreadPool.Wakeup.{is_alert, Reach-alert}
use redis_c.ThreadPool.Safe.{Reach-exclusive, Reach-order}

abbrev job : Work
job = record { f = 7; arg = 8 }

abbrev start : ThreadPool
start = record {
  queue = [];
  mu = none;
  pcs = λ i. if ltb i 2 then to_lock else outside;
  taken = [];
  queued = [];
}

init_two : thread_pool_init 2 ≡ ok start
unfolding thread_pool_init
init_two = refl

-- worker 0 waits, thread 2 queues a work and wakes it
abbrev waiting : ThreadPool
waiting =
    let t1 = record start { mu = some 0; pcs = goto start 0 at_test } in
    record t1 { mu = none; pcs = goto t1 0 asleep }

to_waiting : Reach start waiting
to_waiting = next (next here (lock 0 refl refl)) (wait 0 refl refl)

abbrev pushed : ThreadPool
pushed =
    let t1 = record waiting { pcs = goto waiting 2 (to_lock_queue job) } in
    let t2 = record t1 { mu = some 2; pcs = goto t1 2 (at_push job) } in
    record t2 { queue = job ∷ []; pcs = goto t2 2 at_signal; queued = job ∷ [] }

to_pushed : Reach start pushed
to_pushed =
    next (next (next to_waiting (thread_pool_queue 2 job refl)) (lock_queue 2 job refl refl))
      (push_back 2 job refl)

abbrev unlocked : ThreadPool
unlocked =
    let t1 = record pushed { pcs = goto_two pushed 2 to_unlock_queue 0 woken } in
    record t1 { mu = none; pcs = goto t1 2 outside }

abbrev ready : ThreadPool
ready =
    let t1 = record unlocked { mu = some 0; pcs = goto unlocked 0 at_test } in
    record t1 { pcs = goto t1 0 at_front }

to_ready : Reach start ready
to_ready =
    next
      (next (next (next to_pushed (signal 2 0 refl refl)) (unlock_queue 2 refl))
        (relock 0 refl refl))
      (leave_loop 0 refl (λ e. cc))

Reach-exclusive_example : ◌≡◌ {A = ℕ} 2 2
Reach-exclusive_example = Reach-exclusive 2 start pushed 2 2 init_two to_pushed refl refl

Reach-order_example :
    (ready.taken ++ ready.queue ≡ ready.queued)
    × ((i : ℕ)
        → ready.pcs i ≡ at_front
        → (w : Work) × (rest : List Work) × (ready.queue ≡ w ∷ rest))
Reach-order_example = Reach-order 2 start ready init_two to_ready

-- worker 0 sleeps, and the signal is to come
Reach-alert_example : (i : ℕ) × (is_alert (pushed.pcs i) ≡ true)
Reach-alert_example = Reach-alert 2 start pushed init_two to_pushed (λ e. cc)
