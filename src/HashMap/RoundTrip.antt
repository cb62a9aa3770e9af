-- ===== src/HashMap/RoundTrip.antt =====
-- Insertion, removal and lookup in sequence.
use redis_c.Base.{
  ℕ, ◌+◌, ◌*◌, ◌^◌, ◌<◌, ◌≤◌, ◌≡◌, refl, ap, ◌∙◌, true, arith, length, count, Option, none, some,
  ok, Returns, ◌>>=◌, inl,
}
use redis_c.HashTable.{Hashed, Key, RespectsHash}
use redis_c.HashMap.{
  HMap, is_null, Place, hm_insert, hm_lookup, hm_pop, k_resizing_work, load_place,
}
use redis_c.HashMap.Invariant.{entries, IsMap}
use redis_c.HashMap.Growth.{buckets}
use redis_c.HashMap.Methods.{FoundIn, detach_place-Took, hm_lookup-FoundIn, Popped, hm_pop-Popped}
use redis_c.HashMap.Insert.{IsCalm, hm_insert-IsCalm}

module _ {ℓ} {N : Type ℓ} ⦃hashed : Hashed N⦄ where
  -- the lookup gave a node that the key accepts
  abbrev pub Finds : Key N → Option Place × HMap N → Type ℓ
  Finds k r =
      (place : Place) × (x : N) × (r.0 ≡ some place)
      × (load_place r.1 place ≡ ok x)
      × (k.cmp x ≡ true)

  found_of_count :
      (k : Key N) (m : HMap N) (o : Option Place)
      → 0 < count k.cmp (entries m)
      → FoundIn k m o
      → Finds k (o, m)
  found_of_count k m none some_left gone = absurd (omega (arith, gone.missing))
  found_of_count k m (some place) some_left (x, at, pass) = (place, x, refl, at, pass)

  -- a node that a pointer reads is an entry
  missing_of_count :
      (k : Key N) (m : HMap N) (o : Option Place)
      → IsMap m
      → count k.cmp (entries m) ≡ 0
      → FoundIn k m o
      → o ≡ none
  missing_of_count k m none v empty found = refl
  missing_of_count k m (some place) v empty (x, at, pass) =
      let (m', run, took) = detach_place-Took m place x v at in
      absurd (ground (arith, took.counted k.cmp, pass))

  -- After the insertion of a node that a key accepts, `hm_lookup` of the key returns a pointer
  -- to a node that the key accepts. The map is well formed, no resize goes on, one more node
  -- stays below 2 ^ 64 and below the load factor, the fuel is above 128, and the key accepts a
  -- node only if the hash codes agree.
  pub lookup-insert :
      (fuel : ℕ) (m : HMap N) (n : N) (k : Key N)
      → IsCalm m
      → length (entries m) + 1 < 2 ^ 64
      → length (entries m) + 1 < 8 * buckets m
      → k_resizing_work < fuel
      → RespectsHash k
      → k.cmp n ≡ true
      → Returns (hm_insert fuel m n >>= λ m'. hm_lookup fuel m' k) (Finds k)
  lookup-insert fuel m n k v room few enough respects pass =
      let (m', run, (gained, calm, wide)) = hm_insert-IsCalm fuel m n v room few enough in
      let ((o, m''), run', (helps, found)) =
        hm_lookup-FoundIn fuel m' k calm.valid (inl calm.idle) enough respects in
      let here : 0 < count k.cmp (entries m'') =
        ground (arith, helps.same.counted k.cmp, gained.counted k.cmp, pass) in
      ((o, m''), rw (run, run'), found_of_count k m'' o here found)

  -- the removal left no entry for the key
  abbrev Cleared : Key N → Option N × HMap N → Type ℓ
  Cleared k r = IsCalm r.1 × (count k.cmp (entries r.1) ≡ 0)

  Popped-Cleared :
      (k : Key N) (m : HMap N) (o : Option N) (m' : HMap N)
      → IsCalm m
      → count k.cmp (entries m) ≤ 1
      → Popped k m (o, m')
      → Cleared k (o, m')
  Popped-Cleared k m none m' v one gone = (
    record { valid = gone.valid; idle = ap (λ h. is_null h.ht_from) (gone.idle v.idle) ∙ v.idle },
    gone.same.counted k.cmp ∙ gone.missing,
  )
  Popped-Cleared k m (some n) m' v one (took, pass) = (
    record { valid = took.valid; idle = took.stays_idle v.idle },
    ground (arith, took.counted k.cmp, pass),
  )

  -- After `hm_pop` of a key, `hm_lookup` of the key returns null. The map is well formed, no
  -- resize goes on, at most one of its nodes is accepted by the key, the fuel is above 128, and
  -- the key accepts a node only if the hash codes agree.
  pub lookup-pop :
      (fuel : ℕ) (m : HMap N) (k : Key N)
      → IsCalm m
      → count k.cmp (entries m) ≤ 1
      → k_resizing_work < fuel
      → RespectsHash k
      → Returns (hm_pop fuel m k >>= λ r. hm_lookup fuel r.1 k) (λ r. r.0 ≡ none)
  lookup-pop fuel m k v one enough respects =
      let ((o, m'), run, popped) = hm_pop-Popped fuel m k v.valid (inl v.idle) enough respects in
      let (calm, cleared) = Popped-Cleared k m o m' v one popped in
      let ((r, m''), run', (helps, found)) =
        hm_lookup-FoundIn fuel m' k calm.valid (inl calm.idle) enough respects in
      (
        (r, m''),
        rw (run, run'),
        missing_of_count k m'' r helps.valid (helps.same.counted k.cmp ∙ cleared) found,
      )
