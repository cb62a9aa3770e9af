-- ===== src/ThreadPool.antt =====
-- src/thread_pool.h and src/thread_pool.cpp: worker threads, and threads that queue work, as a step
-- relation on their program counters and the pool they share. Threads are numbers. The mutex is its
-- owner. A thread in `pthread_cond_wait` may wake at any time, as POSIX allows, and a signal wakes
-- one that waits or none. `taken` and `queued` record the works taken from the queue and put in.
pub mod Safe
pub mod Wakeup
mod Tests
use redis_c.Base.{
  ℕ, ◌≡◌, ◌≢◌, Bool, true, false, Option, none, some, List, [], ◌∷◌, ◌++◌, ltb, ◌==◌, if◌then◌else◌,
  Run, ok, assert, ◌>>=◌, ◌>>◌,
}

pub record Work : Type 0 where
  pub f : ℕ
  pub arg : ℕ

-- Where a thread stands: in `worker`, or below, in `thread_pool_queue` or outside of both.
pub data Pc : Type 0 where
  to_lock : Pc
  at_test : Pc
  asleep : Pc
  woken : Pc
  at_front : Pc
  to_unlock : Work → Pc
  at_work : Work → Pc
  outside : Pc
  to_lock_queue : Work → Pc
  at_push : Work → Pc
  at_signal : Pc
  to_unlock_queue : Pc

pub record ThreadPool : Type 0 where
  pub queue : List Work
  pub mu : Option ℕ
  pub pcs : ℕ → Pc
  pub taken : List Work
  pub queued : List Work

abbrev pub goto : ThreadPool → ℕ → Pc → ℕ → Pc
goto tp i pc = λ j. if j == i then pc else tp.pcs j

-- a thread moves, another one is woken
abbrev pub goto_two : ThreadPool → ℕ → Pc → ℕ → Pc → ℕ → Pc
goto_two tp i pc j pc' = λ k. if k == j then pc' else goto tp i pc k

unfoldable pub thread_pool_init : ℕ → Run ThreadPool
thread_pool_init num_of_threads = do
  assert (ltb 0 num_of_threads)
  ok (record {
    queue = [];
    mu = none;
    pcs = λ i. if ltb i num_of_threads then to_lock else outside;
    taken = [];
    queued = [];
  })

pub data Step (tp : ThreadPool) : ThreadPool → Type 0 where
  lock :
      (i : ℕ)
      → tp.pcs i ≡ to_lock
      → tp.mu ≡ none
      → Step tp (record tp { mu = some i; pcs = goto tp i at_test })
  wait :
      (i : ℕ)
      → tp.pcs i ≡ at_test
      → tp.queue ≡ []
      → Step tp (record tp { mu = none; pcs = goto tp i asleep })
  wake : (i : ℕ) → tp.pcs i ≡ asleep → Step tp (record tp { pcs = goto tp i woken })
  relock :
      (i : ℕ)
      → tp.pcs i ≡ woken
      → tp.mu ≡ none
      → Step tp (record tp { mu = some i; pcs = goto tp i at_test })
  leave_loop :
      (i : ℕ)
      → tp.pcs i ≡ at_test
      → tp.queue ≢ []
      → Step tp (record tp { pcs = goto tp i at_front })
  pop_front :
      (i : ℕ) (w : Work) (rest : List Work)
      → tp.pcs i ≡ at_front
      → tp.queue ≡ w ∷ rest
      → Step tp
          (record tp { queue = rest; pcs = goto tp i (to_unlock w); taken = tp.taken ++ (w ∷ []) })
  unlock :
      (i : ℕ) (w : Work)
      → tp.pcs i ≡ to_unlock w
      → Step tp (record tp { mu = none; pcs = goto tp i (at_work w) })
  work : (i : ℕ) (w : Work) → tp.pcs i ≡ at_work w → Step tp (record tp { pcs = goto tp i to_lock })
  thread_pool_queue :
      (i : ℕ) (w : Work)
      → tp.pcs i ≡ outside
      → Step tp (record tp { pcs = goto tp i (to_lock_queue w) })
  lock_queue :
      (i : ℕ) (w : Work)
      → tp.pcs i ≡ to_lock_queue w
      → tp.mu ≡ none
      → Step tp (record tp { mu = some i; pcs = goto tp i (at_push w) })
  push_back :
      (i : ℕ) (w : Work)
      → tp.pcs i ≡ at_push w
      → Step tp (record tp {
        queue = tp.queue ++ (w ∷ []);
        pcs = goto tp i at_signal;
        queued = tp.queued ++ (w ∷ []);
      })
  signal :
      (i j : ℕ)
      → tp.pcs i ≡ at_signal
      → tp.pcs j ≡ asleep
      → Step tp (record tp { pcs = goto_two tp i to_unlock_queue j woken })
  signal_none :
      (i : ℕ)
      → tp.pcs i ≡ at_signal
      → ((j : ℕ) → tp.pcs j ≢ asleep)
      → Step tp (record tp { pcs = goto tp i to_unlock_queue })
  unlock_queue :
      (i : ℕ)
      → tp.pcs i ≡ to_unlock_queue
      → Step tp (record tp { mu = none; pcs = goto tp i outside })

pub data Reach (tp : ThreadPool) : ThreadPool → Type 0 where
  here : Reach tp tp
  next : {u v : ThreadPool} → Reach tp u → Step u v → Reach tp v
