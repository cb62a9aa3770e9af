-- ===== src/HashTable/Table.antt =====
-- The operations on one table, against its nodes as a multiset.
use mathlib.Core.List.{flatten}
use redis_c.Base.{
  All, ℕ, ◌+◌, ◌-◌, ◌^◌, ◌<◌, ◌≡◌, ◌≢◌, inl, inr, refl, sym, ap, ◌∙◌, Bool, true, Option, none,
  some, List, [], ◌∷◌, arith, bit_and, bit_and-le, if◌then◌else◌, ◌==◌, length, count, get_or, set,
  get_elem?, length-set, get_or-set, get_or-replicate, length-replicate, get_elem?-get_or,
  get_elem?-lt, replicate, erase_idx, count-erase_idx, length-erase_idx, u64, dec64, ok, deref,
  Returns, Option-cases, Bool-cases, >>=-eq-ok, deref-inv, get_or_of_get_elem?, ==_iff,
}
use redis_c.HashTable.{
  Hashed, Key, RespectsHash, HTable, Link, h_init, find_link, h_lookup, load_link, h_detach,
  h_insert,
}
use redis_c.HashTable.Chain.{
  All-erase_idx, count-eq-zero, find_link-none, find_link-some, flatten-replicate,
  count-flatten-set, length-flatten-set, count-flatten_only, length-get_or-le,
}

abbrev pub chains {ℓ} : {N : Type ℓ} → HTable N → List (List N)
chains t = elim t.table [ none ↦ [] | some b ↦ b ]

-- the nodes of a table, in the order of its buckets
abbrev pub nodes {ℓ} : {N : Type ℓ} → HTable N → List N
nodes t = flatten (chains t)

module _ {ℓ} {N : Type ℓ} ⦃hashed : Hashed N⦄ where
  -- an allocated table: as many buckets as the mask says, each node in the bucket of its hash code,
  -- and `size` counts them
  pub record IsTable (t : HTable N) : Type ℓ where
    pub allocated : t.table ≡ some (chains t)
    pub width : length (chains t) ≡ t.mask + 1
    pub sized : t.size ≡ length (nodes t)
    pub small : length (nodes t) < 2 ^ 64
    pub placed : (i : ℕ) → All (λ n. bit_and (hashed.hcode n) t.mask ≡ i) (get_or (chains t) i [])
    pub power : bit_and t.mask (t.mask + 1) ≡ 0

  -- `t'` has the nodes of `t`, and `n` once more
  pub record Adds (n : N) (t t' : HTable N) : Type ℓ where
    pub valid : IsTable t'
    pub mask : t'.mask ≡ t.mask
    pub counted : (p : N → Bool) → count p (nodes t') ≡ (if p n then 1 else 0) + count p (nodes t)
    pub longer : length (nodes t') ≡ length (nodes t) + 1

  position-lt : (t : HTable N) (h : ℕ) → IsTable t → bit_and h t.mask < length (chains t)
  position-lt t h v = omega (arith, v.width, bit_and-le h t.mask)

  -- A write of one bucket, with the nodes in their place.
  pub placed-set :
      (mask : ℕ) (b : List (List N)) (pos : ℕ) (c : List N)
      → pos < length b
      → ((i : ℕ) → All (λ n. bit_and (hashed.hcode n) mask ≡ i) (get_or b i []))
      → All (λ n. bit_and (hashed.hcode n) mask ≡ pos) c
      → (i : ℕ) → All (λ n. bit_and (hashed.hcode n) mask ≡ i) (get_or (set b pos c) i [])
  placed-set mask b pos c h old new i = elim (Bool-cases (pos == i)) [
    | inl same ↦ rw (get_or-set b pos i c [] h, same) (rw ((==_iff pos i).0 same) at new)
    | inr other ↦ rw (get_or-set b pos i c [] h, other) (old i)
  ]

  -- On a well-formed table whose nodes stay below 2 ^ 64 with one more, `h_insert` returns a
  -- well-formed table with the node once more, the other nodes equally often, and the same
  -- mask.
  pub h_insert-Adds :
      (t : HTable N) (n : N)
      → IsTable t
      → length (nodes t) + 1 < 2 ^ 64
      → Returns (h_insert t n) (Adds n t)
  unfolding h_insert
  h_insert-Adds t n v room =
      let pos = bit_and (hashed.hcode n) t.mask in
      let h : pos < length (chains t) = position-lt t (hashed.hcode n) v in
      let more = length-flatten-set (chains t) pos (n ∷ get_or (chains t) pos []) h in
      (
        record t {
          table = some (set (chains t) pos (n ∷ get_or (chains t) pos []));
          size = u64 (t.size + 1);
        },
        rw (v.allocated, get_elem?-get_or (chains t) pos [] h),
        record {
          valid = record {
            allocated = refl;
            width = length-set _ _ _ ∙ v.width;
            sized = omega (arith, v.sized, more);
            small = omega (arith, more);
            placed = placed-set t.mask (chains t) pos _ h v.placed (refl, v.placed pos);
            power = v.power;
          };
          mask = refl;
          counted = λ p.
              omega (arith, count-flatten-set p (chains t) pos (n ∷ get_or (chains t) pos []) h);
          longer = omega (arith, more);
        },
      )

  -- `t'` has the nodes of `t` but for one `n`
  pub record Removes (t : HTable N) (n : N) (t' : HTable N) : Type ℓ where
    pub valid : IsTable t'
    pub mask : t'.mask ≡ t.mask
    pub counted : (p : N → Bool) → (if p n then 1 else 0) + count p (nodes t') ≡ count p (nodes t)
    pub shorter : length (nodes t') + 1 ≡ length (nodes t)

  -- The bucket and the index that a pointer to a link stands for.
  pub load_link-inv :
      (t : HTable N) (pos i : ℕ) (n : N)
      → IsTable t
      → load_link t (pos, i) ≡ ok n
      → (pos < length (chains t))
        × (get_elem? (chains t) pos ≡ some (get_or (chains t) pos []))
        × (get_elem? (get_or (chains t) pos []) i ≡ some n)
  unfolding load_link
  load_link-inv t pos i n v h =
      let (b, table_at, h₁) = >>=-eq-ok (deref t.table) _ h in
      let (chain, chain_at, node_at) = >>=-eq-ok (deref (get_elem? b pos)) _ h₁ in
      let same : b ≡ chains t = cc (deref-inv t.table table_at, v.allocated) in
      let found = rw same at (deref-inv (get_elem? b pos) chain_at) in
      let bucket = get_or_of_get_elem? (chains t) pos chain [] found in
      (
        get_elem?-lt (chains t) pos found,
        found ∙ ap some (sym bucket),
        rw bucket (deref-inv (get_elem? chain i) node_at),
      )

  -- On a well-formed table and a link that reads a node, `h_detach` returns that node and a
  -- well-formed table with the node once less, the other nodes equally often, and the same
  -- mask; only the chain of the link is changed, at the index of the link.
  pub h_detach-Removes :
      (t : HTable N) (pos i : ℕ) (n : N)
      → IsTable t
      → load_link t (pos, i) ≡ ok n
      → (t' : HTable N) × (h_detach t (pos, i) ≡ ok (n, t'))
        × Removes t n t'
        × (chains t' ≡ set (chains t) pos (erase_idx (get_or (chains t) pos []) i))
  unfolding h_detach
  h_detach-Removes t pos i n v at =
      let (h, chain_at, node_at) = load_link-inv t pos i n v at in
      let chain = get_or (chains t) pos [] in
      let cut = length-flatten-set (chains t) pos (erase_idx chain i) h in
      let one = length-erase_idx chain i (get_elem?-lt chain i node_at) in
      (
        record t { table = some (set (chains t) pos (erase_idx chain i)); size = dec64 t.size },
        rw (v.allocated, chain_at, node_at),
        record {
          valid = record {
            allocated = refl;
            width = length-set _ _ _ ∙ v.width;
            sized = omega (arith, v.sized, v.small, cut, one, length-get_or-le (chains t) pos);
            small = omega (arith, cut, one, v.small);
            placed =
                placed-set t.mask (chains t) pos _ h v.placed
                  (All-erase_idx _ chain i (v.placed pos));
            power = v.power;
          };
          mask = refl;
          counted = λ p. omega (
            arith,
            count-flatten-set p (chains t) pos (erase_idx chain i) h,
            count-erase_idx p chain i n node_at,
          );
          shorter = omega (arith, cut, one);
        },
        refl,
      )

  -- what a lookup finds
  pub record Absent (k : Key N) (t : HTable N) : Type ℓ where
    pub absent : count k.cmp (nodes t) ≡ 0

  abbrev pub Found : Key N → HTable N → Option Link → Type ℓ
  Found k t none = Absent k t
  Found k t (some link) = (n : N) × (load_link t link ≡ ok n) × (k.cmp n ≡ true)

  -- A node that the key accepts stands in the bucket of the key's hash code.
  count_elsewhere :
      (t : HTable N) (k : Key N) (i : ℕ)
      → IsTable t
      → RespectsHash k
      → i ≢ bit_and k.code t.mask
      → count k.cmp (get_or (chains t) i []) ≡ 0
  count_elsewhere t k i v respects apart =
      count-eq-zero _ k.cmp (get_or (chains t) i [])
        (λ n here. elim (Bool-cases (k.cmp n)) [
          | inl yes_n ↦ absurd (apart (sym here ∙ ap (λ c. bit_and c t.mask) (respects n yes_n)))
          | inr no_n ↦ no_n
        ])
        (v.placed i)

  -- On a well-formed table, with a comparison that accepts a node only if the hash codes agree,
  -- `h_lookup` returns. A link that it returns reads a node that is accepted, and a null result
  -- means that no node of the table is.
  pub h_lookup-Found :
      (t : HTable N) (k : Key N) → IsTable t → RespectsHash k → Returns (h_lookup t k) (Found k t)
  unfolding h_lookup load_link
  h_lookup-Found t k v respects =
      let pos = bit_and k.code t.mask in
      let chain = get_or (chains t) pos [] in
      let chain_at = get_elem?-get_or (chains t) pos [] (position-lt t k.code v) in
      elim (Option-cases (find_link k.cmp chain)) [
        | inl gone ↦ (
          none,
          rw (v.allocated, chain_at, gone),
          record {
            absent =
                count-flatten_only k.cmp (chains t) pos (λ i n. count_elsewhere t k i v respects n)
                ∙ find_link-none k.cmp chain gone;
          },
        )
        | inr (i, found) ↦
            let (n, here, pass) = find_link-some k.cmp chain i found in
            (
              some (pos, i),
              rw (v.allocated, chain_at, found),
              (n, rw (v.allocated, chain_at, here), pass),
            )
      ]

  -- For a positive `n` with `(n - 1) & n` zero, `h_init` returns a well-formed table with no
  -- nodes and the mask `n - 1`.
  pub h_init-IsTable :
      (n : ℕ)
      → 0 < n
      → bit_and (n - 1) n ≡ 0
      → Returns (h_init n) (λ t. IsTable t × (nodes t ≡ []) × (t.mask + 1 ≡ n))
  unfolding h_init
  h_init-IsTable n pos power = (
    record { table = some (replicate n []); mask = n - 1; size = 0 },
    ground (arith, power),
    (
      record {
        allocated = refl;
        width = omega (arith, length-replicate {A = List N} n []);
        sized = rw (flatten-replicate {A = N} n);
        small = rw (flatten-replicate {A = N} n) (omega arith);
        placed = λ i. rw (get_or-replicate {A = List N} n i []) tt;
        power = let same : n - 1 + 1 ≡ n = omega arith in rw same power;
      },
      flatten-replicate n,
      omega arith,
    ),
  )
