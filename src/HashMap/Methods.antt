-- ===== src/HashMap/Methods.antt =====
-- `hm_lookup` and `hm_pop`, against the entries as a multiset.
use mathlib.Core.List.{flatten}
use redis_c.Base.{
  ℕ, ◌+◌, ◌<◌, ◌≡◌, inl, inr, refl, sym, ap, ◌∙◌, Bool, true, ◌++◌, arith, length, count,
  count-append, if◌then◌else◌, Option, none, some, ok, Returns, length-append,
}
use redis_c.HashTable.{Hashed, Key, RespectsHash, HTable, load_link, h_lookup}
use redis_c.HashTable.Table.{nodes, IsTable, Found, h_lookup-Found, h_detach-Removes}
use redis_c.HashMap.{
  HMap, is_null, Place, in_to, in_from, load_place, find_place, hm_lookup, detach_place, hm_pop,
  k_resizing_work, hm_size,
}
use redis_c.HashMap.Invariant.{entries, IsSlot, IsMap, SameNodes, is_null-IsTable}
use redis_c.HashMap.Resize.{CanHelp, Helps, hm_help_resizing-Helps}

module _ {ℓ} {N : Type ℓ} ⦃hashed : Hashed N⦄ where
  -- no entry that the key accepts
  pub record Missing (k : Key N) (m : HMap N) : Type ℓ where
    pub missing : count k.cmp (entries m) ≡ 0

  -- a node that the key accepts, or none if there is none
  abbrev pub FoundIn : Key N → HMap N → Option Place → Type ℓ
  FoundIn k m none = Missing k m
  FoundIn k m (some place) = (n : N) × (load_place m place ≡ ok n) × (k.cmp n ≡ true)

  slot-Found :
      (t : HTable N) (k : Key N) → IsSlot t → RespectsHash k → Returns (h_lookup t k) (Found k t)
  unfolding h_lookup flatten
  slot-Found t k (inl e) respects = (none, rw e, record { absent = rw e })
  slot-Found t k (inr v) respects = h_lookup-Found t k v respects

  pub find_place-Found :
      (m : HMap N) (k : Key N) → IsMap m → RespectsHash k → Returns (find_place m k) (FoundIn k m)
  unfolding find_place load_place
  find_place-Found m k v respects =
      second (slot-Found m.ht_to k v.to_valid respects)
        (slot-Found m.ht_from k v.from_valid respects)
    where
      second :
          Returns (h_lookup m.ht_to k) (Found k m.ht_to)
          → Returns (h_lookup m.ht_from k) (Found k m.ht_from)
          → Returns (find_place m k) (FoundIn k m)
      second (some link, run, found) other = (some (in_to link), rw run, found)
      second (none, run, absent) (some link, run', found) =
          (some (in_from link), rw (run, run'), found)
      second (none, run, absent) (none, run', absent') = (
        none,
        rw (run, run'),
        record {
          missing = omega (
            arith,
            count-append k.cmp (nodes m.ht_to) (nodes m.ht_from),
            absent.absent,
            absent'.absent,
          );
        },
      )

  -- On a well-formed map that can help, with fuel above 128 and a comparison that accepts a
  -- node only if the hash codes agree, `hm_lookup` returns. It does to the map what
  -- `hm_help_resizing` promises. A pointer it returns reads a node that the comparison accepts,
  -- and a null result means that no node of either table is accepted.
  pub hm_lookup-FoundIn :
      (fuel : ℕ) (m : HMap N) (k : Key N)
      → IsMap m
      → CanHelp m
      → k_resizing_work < fuel
      → RespectsHash k
      → Returns (hm_lookup fuel m k) (λ r. Helps m r.1 × FoundIn k r.1 r.0)
  unfolding hm_lookup
  hm_lookup-FoundIn fuel m k v can enough respects =
      let (m', run, helps) = hm_help_resizing-Helps fuel m v can enough in
      let (r, run', found) = find_place-Found m' k helps.valid respects in
      ((r, m'), rw (run, run'), (helps, found))

  pub record Took (m : HMap N) (n : N) (m' : HMap N) : Type ℓ where
    pub valid : IsMap m'
    pub counted :
        (p : N → Bool) → (if p n then 1 else 0) + count p (entries m') ≡ count p (entries m)
    pub total : length (entries m') + 1 ≡ length (entries m)
    pub stays_idle : is_null m.ht_from ≡ true → is_null m'.ht_from ≡ true
    pub to_null : is_null m'.ht_to ≡ is_null m.ht_to
    pub to_mask : m'.ht_to.mask ≡ m.ht_to.mask

  pub loaded-IsTable :
      (t : HTable N) (pos i : ℕ) {n : N} → IsSlot t → load_link t (pos, i) ≡ ok n → IsTable t
  unfolding load_link
  loaded-IsTable t pos i (inl e) h = absurd (cc (rw e at h))
  loaded-IsTable t pos i (inr v) h = v

  pub detach_place-Took :
      (m : HMap N) (place : Place) (n : N)
      → IsMap m
      → load_place m place ≡ ok n
      → (m' : HMap N) × (detach_place m place ≡ ok (n, m')) × Took m n m'
  unfolding detach_place load_place
  detach_place-Took m (in_to (pos, i)) n v at =
      let valid = loaded-IsTable m.ht_to pos i v.to_valid at in
      let (t, run, out, _) = h_detach-Removes m.ht_to pos i n valid at in
      let total : length (nodes t ++ nodes m.ht_from) + 1 ≡ length (entries m) = omega (
        arith,
        out.shorter,
        length-append (nodes m.ht_to) (nodes m.ht_from),
        length-append (nodes t) (nodes m.ht_from),
      ) in
      (
        record m { ht_to = t },
        rw run,
        record {
          valid = record {
            to_valid = inr out.valid;
            from_valid = v.from_valid;
            fits = omega (arith, total, v.fits);
            moving = λ e. ((v.moving e).0, is_null-IsTable t out.valid);
          };
          counted = λ p. omega (
            arith,
            out.counted p,
            count-append p (nodes m.ht_to) (nodes m.ht_from),
            count-append p (nodes t) (nodes m.ht_from),
          );
          total = total;
          stays_idle = λ e. e;
          to_null = is_null-IsTable t out.valid ∙ sym (is_null-IsTable m.ht_to valid);
          to_mask = out.mask;
        },
      )
  detach_place-Took m (in_from (pos, i)) n v at =
      let valid = loaded-IsTable m.ht_from pos i v.from_valid at in
      let (inside, allocated) = v.moving (is_null-IsTable m.ht_from valid) in
      let (t, run, out, _) = h_detach-Removes m.ht_from pos i n valid at in
      let total : length (nodes m.ht_to ++ nodes t) + 1 ≡ length (entries m) = omega (
        arith,
        out.shorter,
        length-append (nodes m.ht_to) (nodes m.ht_from),
        length-append (nodes m.ht_to) (nodes t),
      ) in
      (
        record m { ht_from = t },
        rw run,
        record {
          valid = record {
            to_valid = v.to_valid;
            from_valid = inr out.valid;
            fits = omega (arith, total, v.fits);
            moving =
                λ _. (omega (arith, inside, out.valid.width, out.mask, valid.width), allocated);
          };
          counted = λ p. omega (
            arith,
            out.counted p,
            count-append p (nodes m.ht_to) (nodes m.ht_from),
            count-append p (nodes m.ht_to) (nodes t),
          );
          total = total;
          stays_idle = λ e. is_null-IsTable t out.valid ∙ sym (is_null-IsTable m.ht_from valid) ∙ e;
          to_null = refl;
          to_mask = refl;
        },
      )

  -- nothing is taken from a map with no entry for the key
  pub record Untouched (k : Key N) (m m' : HMap N) : Type ℓ where
    pub valid : IsMap m'
    pub same : SameNodes m m'
    pub missing : count k.cmp (entries m) ≡ 0
    pub idle : is_null m.ht_from ≡ true → m' ≡ m

  abbrev pub Popped : Key N → HMap N → Option N × HMap N → Type ℓ
  Popped k m (none, m') = Untouched k m m'
  Popped k m (some n, m') = Took m n m' × (k.cmp n ≡ true)

  -- On a well-formed map that can help, with fuel above 128 and a comparison that accepts a
  -- node only if the hash codes agree, `hm_pop` returns. A node it returns is accepted by the
  -- comparison, and the well-formed map it leaves has that node once less and every other node
  -- equally often. If it returns null, no node was accepted and the nodes are the same.
  pub hm_pop-Popped :
      (fuel : ℕ) (m : HMap N) (k : Key N)
      → IsMap m
      → CanHelp m
      → k_resizing_work < fuel
      → RespectsHash k
      → Returns (hm_pop fuel m k) (Popped k m)
  unfolding hm_pop
  hm_pop-Popped fuel m k v can enough respects =
      let (m', run, helps) = hm_help_resizing-Helps fuel m v can enough in
      take_found m' helps run (find_place-Found m' k helps.valid respects)
    where
      take_found :
          (m' : HMap N)
          → Helps m m'
          → redis_c.HashMap.hm_help_resizing fuel m ≡ ok m'
          → Returns (find_place m' k) (FoundIn k m')
          → Returns (hm_pop fuel m k) (Popped k m)
      take_found m' helps run (none, run', gone) = (
        (none, m'),
        rw (run, run'),
        record {
          valid = helps.valid;
          same = helps.same;
          missing = sym (helps.same.counted k.cmp) ∙ gone.missing;
          idle = helps.idle;
        },
      )
      take_found m' helps run (some place, run', (n, at, pass)) =
          let (m'', run'', took) = detach_place-Took m' place n helps.valid at in
          (
            (some n, m''),
            rw (run, run', run''),
            (
              record {
                valid = took.valid;
                counted = λ p. took.counted p ∙ helps.same.counted p;
                total = took.total ∙ helps.same.total;
                stays_idle = λ e. took.stays_idle (ap (λ h. is_null h.ht_from) (helps.idle e) ∙ e);
                to_null = took.to_null ∙ helps.to_null;
                to_mask = took.to_mask ∙ helps.mask;
              },
              pass,
            ),
          )

  pub slot_sized : (t : HTable N) → IsSlot t → t.size ≡ length (nodes t)
  unfolding flatten
  slot_sized t (inl e) = rw e
  slot_sized t (inr v) = v.sized

  -- On a well-formed map, `hm_size` is the number of nodes in both tables, with no wrap-around.
  pub hm_size-length : (m : HMap N) → IsMap m → hm_size m ≡ length (entries m)
  unfolding hm_size
  hm_size-length m v = omega (
    arith,
    v.fits,
    slot_sized m.ht_to v.to_valid,
    slot_sized m.ht_from v.from_valid,
    length-append (nodes m.ht_to) (nodes m.ht_from),
  )
