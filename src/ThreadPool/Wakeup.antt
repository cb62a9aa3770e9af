-- ===== src/ThreadPool/Wakeup.antt =====
-- No wake-up is lost, in src/thread_pool.cpp: work is not left in the queue with every worker asleep
-- and no signal to come.
use mathlib.Core.Path.{subst}
use redis_c.Base.{
  ℕ, ◌≡◌, ◌≢◌, refl, sym, ◌∙◌, ap, Bool, true, false, [], Run, ltb, ◌==◌, ==_iff, ok, Bool-cases,
  inl, inr,
}
use redis_c.ThreadPool.{
  Pc, to_lock, at_test, asleep, woken, at_front, to_unlock, at_work, outside, to_lock_queue,
  at_push, at_signal, to_unlock_queue, ThreadPool, goto, thread_pool_init, Step, lock, wait, wake,
  relock, leave_loop, pop_front, unlock, work, thread_pool_queue, lock_queue, push_back, signal,
  signal_none, unlock_queue, Reach, here, next,
}

-- whether a thread there runs `worker`
abbrev pub is_worker : Pc → Bool
is_worker to_lock = true
is_worker at_test = true
is_worker asleep = true
is_worker woken = true
is_worker at_front = true
is_worker (to_unlock w) = true
is_worker (at_work w) = true
is_worker outside = false
is_worker (to_lock_queue w) = false
is_worker (at_push w) = false
is_worker at_signal = false
is_worker to_unlock_queue = false

-- whether it is a worker that is awake, or is about to signal
abbrev pub is_alert : Pc → Bool
is_alert asleep = false
is_alert at_signal = true
is_alert pc = is_worker pc

record IsAwake (tp : ThreadPool) : Type 0 where
  first : is_worker (tp.pcs 0) ≡ true
  alert : tp.queue ≢ [] → (k : ℕ) × (is_alert (tp.pcs k) ≡ true)

alert_of_worker : (pc : Pc) → is_worker pc ≡ true → pc ≢ asleep → is_alert pc ≡ true
alert_of_worker to_lock h a = refl
alert_of_worker at_test h a = refl
alert_of_worker asleep h a = absurd (a refl)
alert_of_worker woken h a = refl
alert_of_worker at_front h a = refl
alert_of_worker (to_unlock w) h a = refl
alert_of_worker (at_work w) h a = refl
alert_of_worker outside h a = h
alert_of_worker (to_lock_queue w) h a = h
alert_of_worker (at_push w) h a = h
alert_of_worker at_signal h a = refl
alert_of_worker to_unlock_queue h a = h

-- a thread goes from one place to another
module _ (tp : ThreadPool) (s : IsAwake tp) (i : ℕ) (old pc : Pc) (e : tp.pcs i ≡ old)
    (same : is_worker pc ≡ is_worker old) where
  first_goto : is_worker (goto tp i pc 0) ≡ true
  first_goto = elim (Bool-cases (0 == i)) [
    | inl zero ↦ rw zero (
        same
        ∙ ap is_worker (sym e)
        ∙ ap (λ j. is_worker (tp.pcs j)) (sym ((==_iff 0 i).0 zero))
        ∙ s.first)
    | inr other ↦ rw other s.first
  ]

  arrives : is_alert pc ≡ true → (k : ℕ) × (is_alert (goto tp i pc k) ≡ true)
  arrives h = (i, rw ((==_iff i i).1 refl) h)

  stays :
      (is_alert old ≡ true → is_alert pc ≡ true)
      → (k : ℕ) × (is_alert (tp.pcs k) ≡ true)
      → (k : ℕ) × (is_alert (goto tp i pc k) ≡ true)
  stays keep (k, h) = elim (Bool-cases (k == i)) [
    | inl moved ↦ arrives (
        keep (ap is_alert (sym e) ∙ ap (λ j. is_alert (tp.pcs j)) (sym ((==_iff k i).0 moved)) ∙ h))
    | inr other ↦ (k, rw other h)
  ]

  -- a thread that goes to sleep, or past its signal, is another one than the first
  still_awake : ((k : ℕ) → tp.pcs k ≢ asleep) → pc ≢ asleep → goto tp i pc 0 ≢ asleep
  still_awake all up = elim (Bool-cases (0 == i)) [
    | inl zero ↦ rw zero up
    | inr other ↦ rw other (all 0)
  ]

Step-IsAwake : {tp tp' : ThreadPool} → Step tp tp' → IsAwake tp → IsAwake tp'
Step-IsAwake {tp} (lock i e free) s = record {
  first = first_goto tp s i to_lock at_test e refl;
  alert = λ h. arrives tp s i to_lock at_test e refl refl;
}
Step-IsAwake {tp} (wait i e empty) s = record {
  first = first_goto tp s i at_test asleep e refl;
  alert = λ h. absurd (h empty);
}
Step-IsAwake {tp} (wake i e) s = record {
  first = first_goto tp s i asleep woken e refl;
  alert = λ h. arrives tp s i asleep woken e refl refl;
}
Step-IsAwake {tp} (relock i e free) s = record {
  first = first_goto tp s i woken at_test e refl;
  alert = λ h. arrives tp s i woken at_test e refl refl;
}
Step-IsAwake {tp} (leave_loop i e full) s = record {
  first = first_goto tp s i at_test at_front e refl;
  alert = λ h. arrives tp s i at_test at_front e refl refl;
}
Step-IsAwake {tp} (pop_front i w rest e front) s = record {
  first = first_goto tp s i at_front (to_unlock w) e refl;
  alert = λ h. arrives tp s i at_front (to_unlock w) e refl refl;
}
Step-IsAwake {tp} (unlock i w e) s = record {
  first = first_goto tp s i (to_unlock w) (at_work w) e refl;
  alert = λ h. arrives tp s i (to_unlock w) (at_work w) e refl refl;
}
Step-IsAwake {tp} (work i w e) s = record {
  first = first_goto tp s i (at_work w) to_lock e refl;
  alert = λ h. arrives tp s i (at_work w) to_lock e refl refl;
}
Step-IsAwake {tp} (thread_pool_queue i w e) s = record {
  first = first_goto tp s i outside (to_lock_queue w) e refl;
  alert = λ h. stays tp s i outside (to_lock_queue w) e refl (λ k. k) (s.alert h);
}
Step-IsAwake {tp} (lock_queue i w e free) s = record {
  first = first_goto tp s i (to_lock_queue w) (at_push w) e refl;
  alert = λ h. stays tp s i (to_lock_queue w) (at_push w) e refl (λ k. k) (s.alert h);
}
Step-IsAwake {tp} (push_back i w e) s = record {
  first = first_goto tp s i (at_push w) at_signal e refl;
  alert = λ h. arrives tp s i (at_push w) at_signal e refl refl;
}
Step-IsAwake {tp} (signal i j e f) s = record {
  first = elim (Bool-cases (0 == j)) [
    | inl zero ↦ rw zero refl
    | inr other ↦ rw other (first_goto tp s i at_signal to_unlock_queue e refl)
  ];
  alert = λ h. (j, rw ((==_iff j j).1 refl) refl);
}
Step-IsAwake {tp} (signal_none i e none_asleep) s =
    let first = first_goto tp s i at_signal to_unlock_queue e refl in
    record {
      first = first;
      alert = λ h. (
        0,
        alert_of_worker _ first
            (still_awake tp s i at_signal to_unlock_queue e refl none_asleep (λ q. cc)),
      );
    }
Step-IsAwake {tp} (unlock_queue i e) s = record {
  first = first_goto tp s i to_unlock_queue outside e refl;
  alert = λ h. stays tp s i to_unlock_queue outside e refl (λ k. k) (s.alert h);
}

Reach-IsAwake : {tp tp' : ThreadPool} → IsAwake tp → Reach tp tp' → IsAwake tp'
Reach-IsAwake s here = s
Reach-IsAwake s (next r step) = Step-IsAwake step (Reach-IsAwake s r)

init-IsAwake : (n : ℕ) (tp : ThreadPool) → thread_pool_init n ≡ ok tp → IsAwake tp
unfolding thread_pool_init
init-IsAwake n tp e = elim (Bool-cases (ltb 0 n)) [
  | inr no_threads ↦ absurd (fails (rw no_threads at e))
  | inl some_threads ↦
      subst IsAwake (started (rw some_threads at e))
        (record { first = rw some_threads refl; alert = λ h. absurd (h refl) })
]
  where
    fails : Run.abort ≢ ok tp
    fails e = cc

    started : {a : ThreadPool} → ok a ≡ ok tp → a ≡ tp
    started e = cc

-- In every state with works in the queue that the steps of the workers and of the threads that
-- queue reach from `thread_pool_init`, some worker is awake or some thread is about to signal:
-- no wake-up is lost.
pub Reach-alert :
    (n : ℕ) (start tp : ThreadPool)
    → thread_pool_init n ≡ ok start
    → Reach start tp
    → tp.queue ≢ []
    → (i : ℕ) × (is_alert (tp.pcs i) ≡ true)
Reach-alert n start tp made r = (Reach-IsAwake (init-IsAwake n start made) r).alert
