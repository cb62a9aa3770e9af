-- ===== src/Timers/Next.antt =====
-- `next_timer_ms` and the timers it reads.
use redis_c.Base.{
  refl, ℕ, ◌+◌, ◌-◌, ◌*◌, ◌/◌, ◌^◌, ◌<◌, ◌≤◌, ◌≡◌, false, none, some, List, [], ◌∷◌, leb, ◌==◌, min,
  ap, ◌∙◌, if◌then◌else◌, u32, u64, arith, Bool-cases, inl, inr,
}
use redis_c.Timers.{
  HeapItem, minus_one, k_idle_timeout_ms, idle_next, ttl_next, sub_u64, next_timer_ms,
}

-- how long the server sleeps before `due`: not at all if that has come, and otherwise not past it,
-- and to within a millisecond of it if the milliseconds fit 32 bits
pub record Sleeps (now_us ms due : ℕ) : Type 0 where
  pub missed : due ≤ now_us → ms ≡ 0
  pub in_time : now_us < due → now_us + ms * 1000 ≤ due
  pub close : now_us < due → due < now_us + 2 ^ 32 * 1000 → due < now_us + ms * 1000 + 1000

abbrev sleep : ℕ → ℕ → ℕ
sleep now_us next_us =
    if next_us == minus_one
    then 10000
    else if leb next_us now_us
    then 0
    else u32 (sub_u64 next_us now_us / 1000)

sub_ahead : (a b : ℕ) → a < 2 ^ 64 → b < a → sub_u64 a b ≡ a - b
sub_ahead a b h k = omega arith

sleep-Sleeps : (now_us due : ℕ) → due < minus_one → Sleeps now_us (sleep now_us due) due
sleep-Sleeps now_us due real =
    let apart : (due == minus_one) ≡ false = ground arith in
    elim (Bool-cases (leb due now_us)) [
      | inl missed ↦
          let past : due ≤ now_us = ground arith in
          rw (apart, missed)
            (record { missed = λ e. refl; in_time = λ h. omega arith; close = λ h k. omega arith })
      | inr ahead ↦
          let after : now_us < due = ground arith in
          rw (apart, ahead, sub_ahead due now_us (omega arith) after)
            (record {
              missed = λ e. absurd (omega arith);
              in_time = λ h. omega arith;
              close = λ h k. omega arith;
            })
    ]

ttl_next-min :
    (item : HeapItem) (heap : List HeapItem) (next_us : ℕ)
    → ttl_next (item ∷ heap) next_us ≡ min next_us item.val
unfolding ttl_next
ttl_next-min item heap next_us = ground arith

ttl_next-nil : (next_us : ℕ) → ttl_next [] next_us ≡ next_us
unfolding ttl_next
ttl_next-nil next_us = refl

-- Where the idle deadline and the expiry time at the top of the heap are below 2 ^ 64 - 1, the
-- sleep of `next_timer_ms` is for the earlier of the two, or for the one that there is: it is 0
-- if that time has come; otherwise it does not pass it, and ends less than a millisecond before
-- it if it is less than 2 ^ 32 milliseconds ahead. With neither, the sleep is 10000.
pub next_timer_ms-Sleeps :
    (now_us idle_start : ℕ) (item : HeapItem) (heap : List HeapItem)
    → idle_start + k_idle_timeout_ms * 1000 < minus_one
    → item.val < minus_one
    → Sleeps now_us
        (next_timer_ms now_us (some idle_start) (item ∷ heap))
        (min (idle_start + k_idle_timeout_ms * 1000) item.val)
      × Sleeps now_us (next_timer_ms now_us none (item ∷ heap)) item.val
      × Sleeps now_us
          (next_timer_ms now_us (some idle_start) [])
          (idle_start + k_idle_timeout_ms * 1000)
      × ◌≡◌ {A = ℕ} (next_timer_ms now_us none []) 10000
unfolding next_timer_ms idle_next
next_timer_ms-Sleeps now_us idle_start item heap idle_real ttl_real =
    let due = idle_start + k_idle_timeout_ms * 1000 in
    let exact : u64 due ≡ due = omega arith in
    let both : ttl_next (item ∷ heap) (u64 due) ≡ min due item.val =
      ttl_next-min item heap (u64 due) ∙ ap (λ n. min n item.val) exact in
    let alone : ttl_next (item ∷ heap) minus_one ≡ item.val =
      ttl_next-min item heap minus_one ∙ omega arith in
    let idle_only : ttl_next [] (u64 due) ≡ due = ttl_next-nil (u64 due) ∙ exact in
    (
      rw both (sleep-Sleeps now_us (min due item.val) (omega arith)),
      rw alone (sleep-Sleeps now_us item.val ttl_real),
      rw idle_only (sleep-Sleeps now_us due idle_real),
      refl,
    )
