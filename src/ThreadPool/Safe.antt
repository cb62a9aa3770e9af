-- ===== src/ThreadPool/Safe.antt =====
-- Mutual exclusion and the order of the works, in src/thread_pool.cpp.
use mathlib.Core.Path.{subst}
use redis_c.Base.{
  ℕ, ◌≡◌, ◌≢◌, refl, sym, ◌∙◌, ap, Bool, true, false, none, some, List, [], ◌∷◌, Run, ◌++◌,
  append_assoc, ltb, ◌==◌, ==_iff, if◌then◌else◌, ok, arith, Bool-cases, inl, inr,
}
use redis_c.ThreadPool.{
  Work, Pc, to_lock, at_test, asleep, woken, at_front, to_unlock, at_work, outside, to_lock_queue,
  at_push, at_signal, to_unlock_queue, ThreadPool, goto, thread_pool_init, Step, lock, wait, wake,
  relock, leave_loop, pop_front, unlock, work, thread_pool_queue, lock_queue, push_back, signal,
  signal_none, unlock_queue, Reach, here, next,
}

-- whether a thread there has the mutex
abbrev pub holds : Pc → Bool
holds to_lock = false
holds at_test = true
holds asleep = false
holds woken = false
holds at_front = true
holds (to_unlock w) = true
holds (at_work w) = false
holds outside = false
holds (to_lock_queue w) = false
holds (at_push w) = true
holds at_signal = true
holds to_unlock_queue = true

-- whether it is about to take a work
abbrev pub takes : Pc → Bool
takes at_front = true
takes pc = false

pub record IsSafe (tp : ThreadPool) : Type 0 where
  pub owned : (i : ℕ) → holds (tp.pcs i) ≡ true → tp.mu ≡ some i
  pub ready : (i : ℕ) → takes (tp.pcs i) ≡ true → tp.queue ≢ []
  pub order : tp.taken ++ tp.queue ≡ tp.queued

holds_of_takes : (pc : Pc) → takes pc ≡ true → holds pc ≡ true
holds_of_takes at_front h = refl
holds_of_takes to_lock h = absurd (cc)
holds_of_takes at_test h = absurd (cc)
holds_of_takes asleep h = absurd (cc)
holds_of_takes woken h = absurd (cc)
holds_of_takes (to_unlock w) h = absurd (cc)
holds_of_takes (at_work w) h = absurd (cc)
holds_of_takes outside h = absurd (cc)
holds_of_takes (to_lock_queue w) h = absurd (cc)
holds_of_takes (at_push w) h = absurd (cc)
holds_of_takes at_signal h = absurd (cc)
holds_of_takes to_unlock_queue h = absurd (cc)

module _ (tp : ThreadPool) (s : IsSafe tp) (i : ℕ) (pc : Pc) where
  -- a thread without the mutex takes it
  lock-owned : tp.mu ≡ none → (j : ℕ) → holds (goto tp i pc j) ≡ true → some i ≡ some j
  lock-owned free j h = elim (Bool-cases (j == i)) [
    | inl same ↦ ap some (sym ((==_iff j i).0 same))
    | inr other ↦ absurd (nobody j (rw other at h))
  ]
    where
      nobody : (j : ℕ) → holds (tp.pcs j) ≢ true
      nobody j h = let e = s.owned j h in cc

  -- a thread that has the mutex keeps it, or one without stays without
  stay-owned :
      (holds pc ≡ true → holds (tp.pcs i) ≡ true)
      → (j : ℕ) → holds (goto tp i pc j) ≡ true
      → tp.mu ≡ some j
  stay-owned keep j h = elim (Bool-cases (j == i)) [
    | inl same ↦ let e = (==_iff j i).0 same in s.owned i (keep (rw same at h)) ∙ ap some (sym e)
    | inr other ↦ s.owned j (rw other at h)
  ]

  -- the owner gives it back
  unlock-owned :
      holds (tp.pcs i) ≡ true
      → holds pc ≡ false
      → (j : ℕ) → holds (goto tp i pc j) ≡ true
      → none ≡ some j
  unlock-owned mine away j h = elim (Bool-cases (j == i)) [
    | inl same ↦ absurd (clash (sym away ∙ rw same at h))
    | inr other ↦ absurd (differ j other (s.owned i mine) (s.owned j (rw other at h)))
  ]
    where
      clash : false ≢ true
      clash e = cc

      differ : (j : ℕ) → (j == i) ≡ false → tp.mu ≡ some i → tp.mu ≢ some j
      differ j other e f = ground arith

  -- no other thread is about to take a work
  keep-ready : takes pc ≡ false → (j : ℕ) → takes (goto tp i pc j) ≡ true → tp.queue ≢ []
  keep-ready away j h = elim (Bool-cases (j == i)) [
    | inl same ↦ absurd (clash (sym away ∙ rw same at h))
    | inr other ↦ s.ready j (rw other at h)
  ]
    where
      clash : false ≢ true
      clash e = cc

  -- no thread is about to take a work, if the one that moves has the mutex
  only-ready : holds (tp.pcs i) ≡ true → takes pc ≡ false → (j : ℕ) → takes (goto tp i pc j) ≢ true
  only-ready mine away j h = elim (Bool-cases (j == i)) [
    | inl same ↦ clash (sym away ∙ rw same at h)
    | inr other ↦
        differ j other (s.owned i mine) (s.owned j (holds_of_takes (tp.pcs j) (rw other at h)))
  ]
    where
      clash : false ≢ true
      clash e = cc

      differ : (j : ℕ) → (j == i) ≡ false → tp.mu ≡ some i → tp.mu ≢ some j
      differ j other e f = ground arith

  -- a move that changes nothing but the thread
  moved-IsSafe :
      (holds pc ≡ true → holds (tp.pcs i) ≡ true)
      → (takes pc ≡ true → tp.queue ≢ [])
      → IsSafe (record tp { pcs = goto tp i pc })
  moved-IsSafe keep full = record { owned = stay-owned keep; ready = ready; order = s.order }
    where
      ready : (j : ℕ) → takes (goto tp i pc j) ≡ true → tp.queue ≢ []
      ready j h = elim (Bool-cases (j == i)) [
        | inl same ↦ full (rw same at h)
        | inr other ↦ s.ready j (rw other at h)
      ]

  locked-IsSafe :
      tp.mu ≡ none → takes pc ≡ false → IsSafe (record tp { mu = some i; pcs = goto tp i pc })
  locked-IsSafe free away = record {
    owned = lock-owned free;
    ready = keep-ready away;
    order = s.order;
  }

  unlocked-IsSafe :
      holds (tp.pcs i) ≡ true
      → holds pc ≡ false
      → takes pc ≡ false
      → IsSafe (record tp { mu = none; pcs = goto tp i pc })
  unlocked-IsSafe mine gone away = record {
    owned = unlock-owned mine gone;
    ready = keep-ready away;
    order = s.order;
  }

at : (tp : ThreadPool) (i : ℕ) (pc : Pc) → tp.pcs i ≡ pc → holds (tp.pcs i) ≡ holds pc
at tp i pc e = ap holds e

not_holding : {X : Type 0} → false ≡ true → X
not_holding e = absurd (cc)

pub Step-IsSafe : {tp tp' : ThreadPool} → Step tp tp' → IsSafe tp → IsSafe tp'
Step-IsSafe {tp} (lock i e free) s = locked-IsSafe tp s i at_test free refl
Step-IsSafe {tp} (wait i e empty) s = unlocked-IsSafe tp s i asleep (at tp i at_test e) refl refl
Step-IsSafe {tp} (wake i e) s = moved-IsSafe tp s i woken (λ h. not_holding h) (λ h. not_holding h)
Step-IsSafe {tp} (relock i e free) s = locked-IsSafe tp s i at_test free refl
Step-IsSafe {tp} (leave_loop i e full) s =
    moved-IsSafe tp s i at_front (λ h. at tp i at_test e) (λ h. full)
Step-IsSafe {tp} (pop_front i w rest e first) s = record {
  owned = stay-owned tp s i (to_unlock w) (λ h. at tp i at_front e);
  ready = λ j h. absurd (only-ready tp s i (to_unlock w) (at tp i at_front e) refl j h);
  order = append_assoc tp.taken (w ∷ []) rest ∙ ap (λ q. tp.taken ++ q) (sym first) ∙ s.order;
}
Step-IsSafe {tp} (unlock i w e) s =
    unlocked-IsSafe tp s i (at_work w) (at tp i (to_unlock w) e) refl refl
Step-IsSafe {tp} (work i w e) s =
    moved-IsSafe tp s i to_lock (λ h. not_holding h) (λ h. not_holding h)
Step-IsSafe {tp} (thread_pool_queue i w e) s =
    moved-IsSafe tp s i (to_lock_queue w) (λ h. not_holding h) (λ h. not_holding h)
Step-IsSafe {tp} (lock_queue i w e free) s = locked-IsSafe tp s i (at_push w) free refl
Step-IsSafe {tp} (push_back i w e) s = record {
  owned = stay-owned tp s i at_signal (λ h. at tp i (at_push w) e);
  ready = λ j h. longer tp.queue w;
  order = sym (append_assoc tp.taken tp.queue (w ∷ [])) ∙ ap (λ q. q ++ (w ∷ [])) s.order;
}
  where
    longer : (q : List Work) (w : Work) → q ++ (w ∷ []) ≢ []
    longer [] w h = cc
    longer (x ∷ q) w h = cc
Step-IsSafe {tp} (signal i j e f) s =
    let first =
      moved-IsSafe tp s i to_unlock_queue (λ h. at tp i at_signal e) (λ h. not_holding h) in
    moved-IsSafe (record tp { pcs = goto tp i to_unlock_queue }) first j woken (λ h. not_holding h)
      (λ h. not_holding h)
Step-IsSafe {tp} (signal_none i e none_asleep) s =
    moved-IsSafe tp s i to_unlock_queue (λ h. at tp i at_signal e) (λ h. not_holding h)
Step-IsSafe {tp} (unlock_queue i e) s =
    unlocked-IsSafe tp s i outside (at tp i to_unlock_queue e) refl refl

Reach-IsSafe : {tp tp' : ThreadPool} → IsSafe tp → Reach tp tp' → IsSafe tp'
Reach-IsSafe s here = s
Reach-IsSafe s (next r step) = Step-IsSafe step (Reach-IsSafe s r)

init-IsSafe : (n : ℕ) (tp : ThreadPool) → thread_pool_init n ≡ ok tp → IsSafe tp
unfolding thread_pool_init
init-IsSafe n tp e = elim (Bool-cases (ltb 0 n)) [
  | inr no_threads ↦ absurd (fails (rw no_threads at e))
  | inl some_threads ↦ subst IsSafe (started (rw some_threads at e)) (record {
    owned = λ i h. absurd (idle i (ltb i n) h);
    ready = λ i h. absurd (idle i (ltb i n) (holds_of_takes _ h));
    order = refl;
  })
]
  where
    idle : (i : ℕ) (b : Bool) → holds (if b then to_lock else outside) ≢ true
    idle i true h = cc
    idle i false h = cc

    fails : Run.abort ≢ ok tp
    fails e = cc

    started : {a : ThreadPool} → ok a ≡ ok tp → a ≡ tp
    started e = cc

-- In every state that the steps of the workers and of the threads that queue reach from
-- `thread_pool_init`, at most one thread is where it holds the mutex: at the test of the queue,
-- where it takes or has taken a work, where it puts one in, or where it signals or unlocks.
pub Reach-exclusive :
    (n : ℕ) (start tp : ThreadPool) (i j : ℕ)
    → thread_pool_init n ≡ ok start
    → Reach start tp
    → holds (tp.pcs i) ≡ true
    → holds (tp.pcs j) ≡ true
    → i ≡ j
Reach-exclusive n start tp i j made r hi hj =
    let s = Reach-IsSafe (init-IsSafe n start made) r in one i j (s.owned i hi) (s.owned j hj)
  where
    one : (i j : ℕ) → tp.mu ≡ some i → tp.mu ≡ some j → i ≡ j
    one i j e f = cc

-- In every state that the steps of the workers and of the threads that queue reach from
-- `thread_pool_init`, the works taken and the works in the queue, in that order, are the works
-- queued, in the order in which they were; and a worker that is about to take the front of the
-- queue finds one.
pub Reach-order :
    (n : ℕ) (start tp : ThreadPool)
    → thread_pool_init n ≡ ok start
    → Reach start tp
    → (tp.taken ++ tp.queue ≡ tp.queued)
      × ((i : ℕ) → tp.pcs i ≡ at_front → (w : Work) × (rest : List Work) × (tp.queue ≡ w ∷ rest))
Reach-order n start tp made r =
    let s = Reach-IsSafe (init-IsSafe n start made) r in
    (s.order, λ i e. full tp.queue (s.ready i (ap takes e)))
  where
    full : (q : List Work) → q ≢ [] → (w : Work) × (rest : List Work) × (q ≡ w ∷ rest)
    full [] h = absurd (h refl)
    full (w ∷ rest) h = (w, rest, refl)
