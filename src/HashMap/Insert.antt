-- ===== src/HashMap/Insert.antt =====
-- When `hm_insert` returns, and what it leaves.
use mathlib.Core.Bool.{false≢true}
use redis_c.Base.{
  All, ℕ, ◌+◌, ◌*◌, ◌^◌, ◌<◌, ◌≤◌, ◌≡◌, refl, sym, ap, ◌∙◌, Bool, true, false, List, [], ◌∷◌, arith,
  length, count, ◌==◌, ok, out_of_fuel, Returns, min, get_or, bit_and, inl, inr,
}
use redis_c.HashTable.{Hashed, HTable}
use redis_c.HashTable.Chain.{count-eq-zero, count-flatten_only}
use redis_c.HashTable.Table.{chains, nodes, IsTable}
use redis_c.HashMap.{HMap, is_null, insert_and_grow, hm_insert, k_resizing_work}
use redis_c.HashMap.Invariant.{entries, IsMap, is_null-IsTable}
use redis_c.HashMap.Resize.{CanHelp, current, hm_help_resizing-Helps, hm_help_resizing-never_ends}
use redis_c.HashMap.Growth.{Gained, buckets, insert_and_grow-Prepared}

module _ {ℓ} {N : Type ℓ} ⦃hashed : Hashed N⦄ where
  -- After the last call of an insertion that returns.
  finish :
      (fuel : ℕ) (m : HMap N) (n : N) (m' : HMap N)
      → insert_and_grow m n ≡ ok m'
      → Gained m n m'
      → CanHelp m'
      → k_resizing_work < fuel
      → Returns (hm_insert fuel m n) (Gained m n)
  unfolding hm_insert
  finish fuel m n m' run gained can enough =
      let (m'', run', helps) = hm_help_resizing-Helps fuel m' gained.valid can enough in
      (
        m'',
        rw (run, run'),
        record {
          valid = helps.valid;
          counted = λ p. helps.same.counted p ∙ gained.counted p;
          total = helps.same.total ∙ gained.total;
        },
      )

  -- On a well-formed map in the middle of a resize, with fuel above 128 and one more node below
  -- 2 ^ 64, `hm_insert` returns if the chain at `resizing_pos` holds at least min(128,
  -- ht_from.size) nodes. The map it leaves is well formed and has the node once more and the
  -- others equally often.
  pub hm_insert-resizing :
      (fuel : ℕ) (m : HMap N) (n : N)
      → IsMap m
      → length (entries m) + 1 < 2 ^ 64
      → is_null m.ht_from ≡ false
      → min k_resizing_work m.ht_from.size ≤ length (current m)
      → k_resizing_work < fuel
      → Returns (hm_insert fuel m n) (Gained m n)
  hm_insert-resizing fuel m n v room busy can enough =
      let (m', run, prepared) = insert_and_grow-Prepared m n v room in
      let (from, pos) = prepared.busy busy in
      finish fuel m n m' run prepared.gained (inr (rw (from, pos) can)) enough

  -- a map in which no resize goes on
  pub record IsCalm (m : HMap N) : Type ℓ where
    pub valid : IsMap m
    pub idle : is_null m.ht_from ≡ true

  -- On a well-formed map in which no resize goes on, with fuel above 128, if one more node
  -- stays below 2 ^ 64 and below the load factor, `hm_insert` returns. The map it leaves is
  -- well formed, has the node once more and the others equally often, and has neither started a
  -- resize nor changed its buckets.
  pub hm_insert-IsCalm :
      (fuel : ℕ) (m : HMap N) (n : N)
      → IsCalm m
      → length (entries m) + 1 < 2 ^ 64
      → length (entries m) + 1 < 8 * buckets m
      → k_resizing_work < fuel
      → Returns (hm_insert fuel m n) (λ m'. Gained m n m' × IsCalm m' × (buckets m' ≡ buckets m))
  unfolding hm_insert
  hm_insert-IsCalm fuel m n v room few enough =
      let (m', run, prepared) = insert_and_grow-Prepared m n v.valid room in
      let (from, wide, allocated) = prepared.calm v.idle few in
      let idle : is_null m'.ht_from ≡ true = rw from v.idle in
      let (m'', run', helps) =
        hm_help_resizing-Helps fuel m' prepared.gained.valid (inl idle) enough in
      let same = helps.idle idle in
      (
        m',
        rw (run, run', same),
        (prepared.gained, record { valid = prepared.gained.valid; idle = idle }, rw allocated wide),
      )

  -- the nodes whose hash code leads to the first bucket
  abbrev pub in_first : ℕ → N → Bool
  in_first mask n = bit_and (hashed.hcode n) mask == 0

  All-count : (p : N → Bool) (xs : List N) → All (λ n. p n ≡ true) xs → count p xs ≡ length xs
  All-count p [] h = refl
  All-count p (x ∷ xs) h = rw h.0 (omega (arith, All-count p xs h.1))

  All-map {κ κ'} :
      {P : N → Type κ} {Q : N → Type κ'} (xs : List N) → ((x : N) → P x → Q x) → All P xs → All Q xs
  All-map [] f h = tt
  All-map (x ∷ xs) f h = (f x h.0, All-map xs f h.1)

  length-first :
      (t : HTable N)
      → IsTable t
      → length (get_or (chains t) 0 []) ≡ count (in_first t.mask) (nodes t)
  length-first t v = sym (
      count-flatten_only (in_first t.mask) (chains t) 0 (λ i apart.
        count-eq-zero _ (in_first t.mask) (get_or (chains t) i [])
          (λ x here. ground (arith, here, apart)) (v.placed i))
      ∙ All-count (in_first t.mask) (get_or (chains t) 0 [])
          (All-map (get_or (chains t) 0 []) (λ x here. rw here) (v.placed 0)))

  count_all : (xs : List N) → count (λ _. true) xs ≡ length xs
  count_all [] = refl
  count_all (x ∷ xs) = omega (arith, count_all xs)

  buckets-mask : (m : HMap N) → is_null m.ht_to ≡ false → buckets m ≡ m.ht_to.mask + 1
  buckets-mask m h = rw h

  cannot :
      (m : HMap N)
      → CanHelp m
      → IsTable m.ht_from
      → length (current m) < min k_resizing_work m.ht_from.size
      → ⊥
  cannot m (inl idle) v short = false≢true (sym (is_null-IsTable m.ht_from v) ∙ idle)
  cannot m (inr enough) v short = omega (arith, enough, short)

  -- Take a well-formed map with an allocated `ht_to` in which no resize goes on. If one more
  -- node (fewer than 2 ^ 64 in all) reaches the load factor, 8 times the buckets, and, with it,
  -- fewer than min(128, all nodes) nodes have a hash code whose masked bits are 0, then
  -- `hm_insert` does not return: with every amount of fuel it runs out.
  pub hm_insert-hangs :
      (m : HMap N) (n : N)
      → IsCalm m
      → is_null m.ht_to ≡ false
      → length (entries m) + 1 < 2 ^ 64
      → 8 * buckets m ≤ length (entries m) + 1
      → count (in_first m.ht_to.mask) (n ∷ entries m) < min k_resizing_work (length (entries m) + 1)
      → (fuel : ℕ) → hm_insert fuel m n ≡ out_of_fuel
  unfolding hm_insert
  hm_insert-hangs m n v allocated room many spread fuel =
      let (m', run, prepared) = insert_and_grow-Prepared m n v.valid room in
      let (pos, valid, wide, counted) = prepared.full v.idle many in
      let same : m'.ht_from.mask ≡ m.ht_to.mask = omega (arith, wide, buckets-mask m allocated) in
      let here : length (current m') ≡ count (in_first m.ht_to.mask) (n ∷ entries m) =
        ap (λ i. length (get_or (chains m'.ht_from) i [])) pos
        ∙ length-first m'.ht_from valid
        ∙ counted (in_first m'.ht_from.mask)
        ∙ ap (λ k. count (in_first k) (n ∷ entries m)) same in
      let whole : m'.ht_from.size ≡ length (entries m) + 1 = omega (
        arith,
        valid.sized,
        count_all (nodes m'.ht_from),
        count_all (entries m),
        counted (λ _. true),
      ) in
      let stuck : ¬ (CanHelp m') =
        λ can. cannot m' can valid (omega (arith, here, whole, spread)) in
      rw run (hm_help_resizing-never_ends m' prepared.gained.valid stuck fuel)
