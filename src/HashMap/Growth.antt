-- ===== src/HashMap/Growth.antt =====
-- `hm_insert` and `hm_start_resizing`: what an insertion leaves, and when it does not return.
use mathlib.Core.List.{flatten}
use redis_c.Base.{
  u64, [], ℕ, ◌+◌, ◌-◌, ◌*◌, ◌/◌, ◌^◌, ◌<◌, ◌≤◌, ◌≡◌, inl, inr, refl, sym, ap, ◌∙◌, Bool, true,
  false, ◌&&◌, ◌++◌, arith, length, count, count-append, if◌then◌else◌, leb, ok, Returns,
  length-append, bit_and_double, Bool-cases, append-nil,
}
use redis_c.HashTable.{Hashed, HTable, h_init}
use redis_c.HashTable.Table.{nodes, IsTable, Adds, h_insert-Adds, h_init-IsTable}
use redis_c.HashMap.{HMap, is_null, hm_start_resizing, insert_and_grow}
use redis_c.HashMap.Invariant.{entries, IsSlot, IsMap, SameNodes, is_null-IsTable}
use redis_c.HashMap.Resize.{null_of_IsSlot}

mul_mono : (a b k : ℕ) → a ≤ b → a * k ≤ b * k
mul_mono a b k h = grind arith

load_factor : (size mask : ℕ) → leb 8 (size / (mask + 1)) ≡ leb (8 * (mask + 1)) size
load_factor size mask =
    let q = size / (mask + 1) in ground (arith, mul_mono 8 q (mask + 1), mul_mono q 7 (mask + 1))

module _ {ℓ} {N : Type ℓ} ⦃hashed : Hashed N⦄ where
  -- `m'` has the entries of `m`, and `n` once more
  pub record Gained (m : HMap N) (n : N) (m' : HMap N) : Type ℓ where
    pub valid : IsMap m'
    pub counted :
        (p : N → Bool) → count p (entries m') ≡ (if p n then 1 else 0) + count p (entries m)
    pub total : length (entries m') ≡ length (entries m) + 1

  -- the bucket array that an insertion writes to: four buckets if there was none
  abbrev pub buckets : HMap N → ℕ
  buckets m = if is_null m.ht_to then 4 else m.ht_to.mask + 1

  -- The table before the node goes in.
  allocate :
      (t : HTable N)
      → IsSlot t
      → Returns (if is_null t then h_init 4 else ok t) (λ t'.
        IsTable t' × (nodes t' ≡ nodes t) × (t'.mask + 1 ≡ (if is_null t then 4 else t.mask + 1)))
  unfolding flatten
  allocate t (inl e) = rw e (h_init-IsTable 4 (omega arith) refl)
  allocate t (inr v) = rw (is_null-IsTable t v) (t, refl, (v, refl, refl))

  inserted-Gained :
      (m : HMap N) (n : N) (to to' : HTable N)
      → IsMap m
      → length (entries m) + 1 < 2 ^ 64
      → nodes to ≡ nodes m.ht_to
      → Adds n to to'
      → Gained m n (record m { ht_to = to' })
  inserted-Gained m n to to' v room same adds =
      let total : length (nodes to' ++ nodes m.ht_from) ≡ length (entries m) + 1 = omega (
        arith,
        adds.longer,
        ap length same,
        length-append (nodes m.ht_to) (nodes m.ht_from),
        length-append (nodes to') (nodes m.ht_from),
      ) in
      record {
        valid = record {
          to_valid = inr adds.valid;
          from_valid = v.from_valid;
          fits = omega (arith, total, room);
          moving = λ e. ((v.moving e).0, is_null-IsTable to' adds.valid);
        };
        counted = λ p. omega (
          arith,
          adds.counted p,
          ap (count p) same,
          count-append p (nodes m.ht_to) (nodes m.ht_from),
          count-append p (nodes to') (nodes m.ht_from),
        );
        total = total;
      }

  -- The two tables after a resize was started.
  record Started (m m' : HMap N) : Type ℓ where
    valid : IsMap m'
    same : SameNodes m m'
    from : m'.ht_from ≡ m.ht_to
    pos : m'.resizing_pos ≡ 0
    doubled : m'.ht_to.mask + 1 ≡ (m.ht_to.mask + 1) * 2

  -- A map with no second table has the entries of the first.
  entries_of_null : (m : HMap N) → IsMap m → is_null m.ht_from ≡ true → entries m ≡ nodes m.ht_to
  unfolding flatten
  entries_of_null m v idle =
      ap (λ t. nodes m.ht_to ++ nodes t) (null_of_IsSlot m.ht_from v.from_valid idle)
      ∙ append-nil (nodes m.ht_to)

  -- A table of twice as many buckets.
  init_doubled :
      (t : HTable N)
      → IsTable t
      → (t.mask + 1) * 2 < 2 ^ 64
      → Returns
          (h_init {N = N} (u64 ((t.mask + 1) * 2)))
          (λ t'. IsTable t' × (nodes t' ≡ []) × (t'.mask + 1 ≡ (t.mask + 1) * 2))
  init_doubled t v word =
      let same : t.mask + 1 - 1 ≡ t.mask = omega arith in
      let power = bit_and_double (t.mask + 1) (omega arith) (rw same v.power) in
      let exact : u64 ((t.mask + 1) * 2) ≡ (t.mask + 1) * 2 = omega arith in
      rw exact (h_init-IsTable ((t.mask + 1) * 2) (omega arith) power)

  hm_start_resizing-Started :
      (m : HMap N)
      → IsMap m
      → IsTable m.ht_to
      → is_null m.ht_from ≡ true
      → (m.ht_to.mask + 1) * 2 < 2 ^ 64
      → Returns (hm_start_resizing m) (Started m)
  unfolding hm_start_resizing
  hm_start_resizing-Started m v to idle word =
      let (t, run, (valid, empty, wide)) = init_doubled m.ht_to to word in
      let kept : nodes t ++ nodes m.ht_to ≡ entries m =
        ap (λ l. l ++ nodes m.ht_to) empty ∙ sym (entries_of_null m v idle) in
      (
        record { ht_to = t; ht_from = m.ht_to; resizing_pos = 0 },
        rw (idle, run),
        record {
          valid = record {
            to_valid = inr valid;
            from_valid = inr to;
            fits = rw kept v.fits;
            moving = λ _. (omega (arith, to.width), is_null-IsTable t valid);
          };
          same = record { counted = λ p. ap (count p) kept; total = ap length kept };
          from = refl;
          pos = refl;
          doubled = wide;
        },
      )

  -- The test that starts a resize.
  abbrev crowded : HMap N → HTable N → Bool
  crowded m t = is_null m.ht_from && leb 8 (t.size / (t.mask + 1))

  -- the load factor is below eight exactly if there are fewer than eight nodes to a bucket
  crowded-eq :
      (m : HMap N) (t : HTable N)
      → is_null m.ht_from ≡ true
      → crowded m t ≡ leb (8 * (t.mask + 1)) t.size
  crowded-eq m t idle = rw idle (load_factor t.size t.mask)

  -- What becomes of the two tables, by the three ways through the code.
  pub record Prepared (m : HMap N) (n : N) (m' : HMap N) : Type ℓ where
    pub gained : Gained m n m'
    pub calm :
        is_null m.ht_from ≡ true
        → length (entries m) + 1 < 8 * buckets m
        → (m'.ht_from ≡ m.ht_from) × (m'.ht_to.mask + 1 ≡ buckets m) × (is_null m'.ht_to ≡ false)
    pub full :
        is_null m.ht_from ≡ true
        → 8 * buckets m ≤ length (entries m) + 1
        → (m'.resizing_pos ≡ 0)
          × IsTable m'.ht_from
          × (m'.ht_from.mask + 1 ≡ buckets m)
          × ((p : N → Bool)
              → count p (nodes m'.ht_from) ≡ (if p n then 1 else 0) + count p (entries m))
    pub busy :
        is_null m.ht_from ≡ false → (m'.ht_from ≡ m.ht_from) × (m'.resizing_pos ≡ m.resizing_pos)

  module _ (m : HMap N) (n : N) (t : HTable N) (gained : Gained m n (record m { ht_to = t }))
      (valid : IsTable t) (wide : t.mask + 1 ≡ buckets m) (v : IsMap m) where
    sized : is_null m.ht_from ≡ true → t.size ≡ length (entries m) + 1
    sized idle =
        valid.sized
        ∙ sym (ap length (entries_of_null (record m { ht_to = t }) gained.valid idle))
        ∙ gained.total

    stays-Prepared : crowded m t ≡ false → Prepared m n (record m { ht_to = t })
    stays-Prepared stay = record {
      gained = gained;
      calm = λ idle few. (refl, wide, is_null-IsTable t valid);
      full = λ idle many. absurd (ground (arith, stay, crowded-eq m t idle, sized idle, wide));
      busy = λ b. (refl, refl);
    }

    grows-Prepared :
        (m' : HMap N) → crowded m t ≡ true → Started (record m { ht_to = t }) m' → Prepared m n m'
    grows-Prepared m' grow started = record {
      gained = record {
        valid = started.valid;
        counted = λ p. started.same.counted p ∙ gained.counted p;
        total = started.same.total ∙ gained.total;
      };
      calm = λ idle few. absurd (ground (arith, grow, crowded-eq m t idle, sized idle, wide));
      full = λ idle many. (
        started.pos,
        rw started.from valid,
        ap (λ t'. t'.mask + 1) started.from ∙ wide,
        λ p.
            ap (λ t'. count p (nodes t')) started.from
            ∙ sym (ap (count p) (entries_of_null (record m { ht_to = t }) gained.valid idle))
            ∙ gained.counted p,
      );
      busy = λ b. absurd (ground arith);
    }

  pub insert_and_grow-Prepared :
      (m : HMap N) (n : N)
      → IsMap m
      → length (entries m) + 1 < 2 ^ 64
      → Returns (insert_and_grow m n) (Prepared m n)
  unfolding insert_and_grow
  insert_and_grow-Prepared m n v room =
      let (to, run, (valid, same, width)) = allocate m.ht_to v.to_valid in
      let fits : length (nodes to) + 1 < 2 ^ 64 =
        omega (arith, ap length same, room, length-append (nodes m.ht_to) (nodes m.ht_from)) in
      let (to', run', adds) = h_insert-Adds to n valid fits in
      let gained = inserted-Gained m n to to' v room same adds in
      let wide : to'.mask + 1 ≡ buckets m = omega (arith, adds.mask, width) in
      elim (Bool-cases (crowded m to')) [
        | inl grow ↦
            let idle : is_null m.ht_from ≡ true = ground arith in
            let word : (to'.mask + 1) * 2 < 2 ^ 64 =
              ground (arith, grow, crowded-eq m to' idle, adds.valid.sized, adds.valid.small) in
            let (m', run'', started) =
              hm_start_resizing-Started (record m { ht_to = to' }) gained.valid adds.valid idle
                word in
            (
              m',
              rw (run, run', grow) run'',
              grows-Prepared m n to' gained adds.valid wide v m' grow started,
            )
        | inr stay ↦ (
          record m { ht_to = to' },
          rw (run, run', stay),
          stays-Prepared m n to' gained adds.valid wide v stay,
        )
      ]
