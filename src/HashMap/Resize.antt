-- ===== src/HashMap/Resize.antt =====
-- `hm_help_resizing`: when its loop ends, and what it leaves.
use mathlib.Core.Bool.{false≢true}
use mathlib.Core.List.{flatten}
use redis_c.Base.{
  ℕ, zero, suc, ◌+◌, ◌-◌, ◌^◌, ◌<◌, ◌≤◌, ◌≡◌, ◌⊎◌, inl, inr, refl, sym, ap, ◌∙◌, true, false, List,
  [], ◌∷◌, ◌++◌, arith, length, count, count-append, if◌then◌else◌, ◌==◌, ltb, min, get_or, some,
  ok, out_of_fuel, Returns, get_elem?, get_elem?-get_or, eq-nil_of_length, not_true, not_le, ==_iff,
  Bool-cases, get_or-set, Nat-cases, List-cases, ==_refl, length-append, length-set, ◌&&◌,
}
use redis_c.HashTable.{Hashed, HTable, null_table, load_link, h_detach, h_insert}
use redis_c.HashTable.Table.{chains, nodes, h_insert-Adds, h_detach-Removes}
use redis_c.HashMap.{HMap, is_null, resize_loop, hm_help_resizing, k_resizing_work}
use redis_c.HashMap.Invariant.{
  is_null-IsTable, entries, IsSlot, IsMap, SameNodes, IsMoving, IsMap-IsMoving, IsMoving-IsMap,
  SameNodes-trans,
}

module _ {ℓ} {N : Type ℓ} ⦃hashed : Hashed N⦄ where
  -- the chain that `resizing_pos` points to
  abbrev pub current : HMap N → List N
  current m = get_or (chains m.ht_from) m.resizing_pos []

  -- one node moved from the current chain
  record Moved (m m' : HMap N) : Type ℓ where
    valid : IsMoving m'
    same : SameNodes m m'
    here : length (current m') + 1 ≡ length (current m)
    left : m'.ht_from.size + 1 ≡ m.ht_from.size
    mask : m'.ht_to.mask ≡ m.ht_to.mask

  move_one :
      (m : HMap N) (n : N) (c : List N)
      → IsMoving m
      → current m ≡ n ∷ c
      → (from' : HTable N) × (to' : HTable N) × (h_detach m.ht_from (m.resizing_pos, 0)
          ≡ ok (n, from'))
        × (h_insert m.ht_to n ≡ ok to')
        × Moved m (record m { ht_to = to'; ht_from = from' })
  unfolding load_link
  move_one m n c v e =
      let read : load_link m.ht_from (m.resizing_pos, 0) ≡ ok n =
        rw (v.from.allocated, get_elem?-get_or (chains m.ht_from) m.resizing_pos [] v.inside, e) in
      let (from', detached, out, at) = h_detach-Removes m.ht_from m.resizing_pos 0 n v.from read in
      let room : length (nodes m.ht_to) + 1 < 2 ^ 64 =
        omega (arith, v.fits, length-append (nodes m.ht_to) (nodes m.ht_from), out.shorter) in
      let (to', inserted, into) = h_insert-Adds m.ht_to n v.to room in
      let whole : length (nodes to' ++ nodes from') ≡ length (entries m) = omega (
        arith,
        length-append (nodes m.ht_to) (nodes m.ht_from),
        length-append (nodes to') (nodes from'),
        into.longer,
        out.shorter,
      ) in
      let cut : get_or (chains from') m.resizing_pos [] ≡ c = rw (
        at,
        get_or-set (chains m.ht_from) m.resizing_pos m.resizing_pos _ [] v.inside,
        ==_refl,
        e,
      ) in
      (
        from',
        to',
        detached,
        inserted,
        record {
          valid = record {
            to = into.valid;
            from = out.valid;
            inside = rw at (rw length-set v.inside);
            fits = omega (arith, whole, v.fits);
          };
          same = record {
            counted = λ p. omega (
              arith,
              count-append p (nodes m.ht_to) (nodes m.ht_from),
              count-append p (nodes to') (nodes from'),
              into.counted p,
              out.counted p,
            );
            total = whole;
          };
          here = rw (cut, e) (omega arith);
          left = omega (arith, out.valid.sized, v.from.sized, out.shorter);
          mask = into.mask;
        },
      )

  -- The test of the loop, and the rounds that are still to do.
  abbrev to_move : ℕ → HMap N → ℕ
  to_move work_done m = min (k_resizing_work - work_done) m.ht_from.size

  -- one call of `hm_help_resizing` that found nodes to move
  pub record Helped (moves : ℕ) (m m' : HMap N) : Type ℓ where
    pub valid : IsMoving m'
    pub same : SameNodes m m'
    pub mask : m'.ht_to.mask ≡ m.ht_to.mask
    pub left : m'.ht_from.size + moves ≡ m.ht_from.size

  loop_goes : (w : ℕ) (m : HMap N) → 0 < to_move w m → (ltb w 128 && ltb 0 m.ht_from.size) ≡ true
  loop_goes w m h = ground arith

  loop_stops : (w : ℕ) (m : HMap N) → to_move w m ≡ 0 → (ltb w 128 && ltb 0 m.ht_from.size) ≡ false
  loop_stops w m h = ground arith

  chain_at :
      (m : HMap N) → IsMoving m → get_elem? (chains m.ht_from) m.resizing_pos ≡ some (current m)
  chain_at m v = get_elem?-get_or (chains m.ht_from) m.resizing_pos [] v.inside

  -- one round of the loop, at an empty bucket and at a node
  round_empty :
      (fuel w : ℕ) (m : HMap N)
      → IsMoving m
      → 0 < to_move w m
      → current m ≡ []
      → resize_loop (suc fuel) w m ≡ resize_loop fuel w m
  unfolding resize_loop
  round_empty fuel w m v go e = simp (loop_goes w m go, v.from.allocated, chain_at m v, e)

  round_moves :
      (fuel w : ℕ) (m : HMap N) (n : N) (c : List N) (from' to' : HTable N)
      → IsMoving m
      → 0 < to_move w m
      → current m ≡ n ∷ c
      → h_detach m.ht_from (m.resizing_pos, 0) ≡ ok (n, from')
      → h_insert m.ht_to n ≡ ok to'
      → resize_loop (suc fuel) w m
        ≡ resize_loop fuel (w + 1) (record m { ht_to = to'; ht_from = from' })
  unfolding resize_loop
  round_moves fuel w m n c from' to' v go e detached inserted =
      rw (loop_goes w m go, v.from.allocated, chain_at m v, e, detached, inserted)

  Helped-suc :
      (w : ℕ) (m m₁ m' : HMap N)
      → 0 < to_move w m
      → Moved m m₁
      → Helped (to_move (w + 1) m₁) m₁ m'
      → Helped (to_move w m) m m'
  Helped-suc w m m₁ m' go one rest = record {
    valid = rest.valid;
    same = SameNodes-trans m m₁ m' one.same rest.same;
    mask = rest.mask ∙ one.mask;
    left = omega (arith, rest.left, one.left);
  }

  resize_loop-Helped :
      (fuel w : ℕ) (m : HMap N)
      → IsMoving m
      → to_move w m ≤ length (current m)
      → k_resizing_work - w < fuel
      → Returns (resize_loop fuel w m) (Helped (to_move w m) m)
  unfolding resize_loop
  resize_loop-Helped zero w m v enough h = absurd (omega arith)
  resize_loop-Helped (suc fuel) w m v enough h = elim (Nat-cases (to_move w m)) [
    | inl none_left ↦ (
      m,
      rw (loop_stops w m none_left),
      record {
        valid = v;
        same = record { counted = λ p. refl; total = refl };
        mask = refl;
        left = omega (arith, none_left);
      },
    )
    | inr some_left ↦ elim (List-cases (current m)) [
      | inl empty ↦ absurd (omega (arith, ap length empty))
      | inr (n, c, e) ↦
          let (from', to', detached, inserted, one) = move_one m n c v e in
          let m₁ = record m { ht_to = to'; ht_from = from' } in
          let (m', run, rest) =
            resize_loop-Helped fuel (w + 1) m₁ one.valid (omega (arith, one.here, one.left))
              (omega (arith, some_left)) in
          (
            m',
            round_moves fuel w m n c from' to' v some_left e detached inserted ∙ run,
            Helped-suc w m m₁ m' some_left one rest,
          )
    ]
  ]

  -- A bucket with fewer nodes than the loop has to move: no number of rounds is enough.
  resize_loop_stuck :
      (fuel w : ℕ) (m : HMap N)
      → IsMoving m
      → length (current m) < to_move w m
      → resize_loop fuel w m ≡ out_of_fuel
  unfolding resize_loop
  resize_loop_stuck zero w m v short = refl
  resize_loop_stuck (suc fuel) w m v short = elim (List-cases (current m)) [
    | inl empty ↦
        round_empty fuel w m v (omega (arith, short)) empty ∙ resize_loop_stuck fuel w m v short
    | inr (n, c, e) ↦
        let (from', to', detached, inserted, one) = move_one m n c v e in
        let m₁ = record m { ht_to = to'; ht_from = from' } in
        round_moves fuel w m n c from' to' v (omega (arith, short)) e detached inserted
        ∙ resize_loop_stuck fuel (w + 1) m₁ one.valid (omega (arith, one.here, one.left))
  ]

  -- No resize is going on, or the current chain has as many nodes as one call is to move.
  abbrev pub CanHelp : HMap N → Type 0
  CanHelp m = (is_null m.ht_from ≡ true) ⊎ (min k_resizing_work m.ht_from.size ≤ length (current m))

  -- A call that ended: it moved up to 128 nodes, and changed no entry.
  pub record Helps (m m' : HMap N) : Type ℓ where
    pub valid : IsMap m'
    pub same : SameNodes m m'
    pub mask : m'.ht_to.mask ≡ m.ht_to.mask
    pub left : m'.ht_from.size + min k_resizing_work m.ht_from.size ≡ m.ht_from.size
    pub finished : m'.ht_from.size ≡ 0 → m'.ht_from ≡ null_table
    pub to_null : is_null m'.ht_to ≡ is_null m.ht_to
    pub idle : is_null m.ht_from ≡ true → m' ≡ m

  pub null_of_IsSlot : (t : HTable N) → IsSlot t → is_null t ≡ true → t ≡ null_table
  null_of_IsSlot t (inl e) h = e
  null_of_IsSlot t (inr v) h = absurd (false≢true (sym (is_null-IsTable t v) ∙ h))

  -- The step after the loop, `ht_from` dropped when it is empty.
  drop_empty : HMap N → HMap N
  drop_empty m = if m.ht_from.size == 0 then record m { ht_from = null_table } else m

  drop_empty-Helps :
      (m m' : HMap N) → IsMoving m → Helped (to_move 0 m) m m' → Helps m (drop_empty m')
  unfolding drop_empty flatten
  drop_empty-Helps m m' v h = elim (Bool-cases (m'.ht_from.size == 0)) [
    | inl empty ↦
        let zero_left = (==_iff m'.ht_from.size 0).0 empty in
        let gone = eq-nil_of_length (nodes m'.ht_from) (sym h.valid.from.sized ∙ zero_left) in
        let kept : nodes m'.ht_to ++ [] ≡ entries m' = ap (λ l. nodes m'.ht_to ++ l) (sym gone) in
        rw empty (record {
          valid = record {
            to_valid = inr h.valid.to;
            from_valid = inl refl;
            fits = rw kept h.valid.fits;
            moving = λ e. absurd (false≢true (sym e));
          };
          same = record {
            counted = λ p. ap (count p) kept ∙ h.same.counted p;
            total = ap length kept ∙ h.same.total;
          };
          mask = h.mask;
          left = omega (arith, h.left, zero_left);
          finished = λ e. refl;
          to_null = is_null-IsTable m'.ht_to h.valid.to ∙ sym (is_null-IsTable m.ht_to v.to);
          idle = λ e. absurd (false≢true (sym (is_null-IsTable m.ht_from v.from) ∙ e));
        })
    | inr more ↦ rw more (record {
      valid = IsMoving-IsMap m' h.valid;
      same = h.same;
      mask = h.mask;
      left = h.left;
      finished = λ e. absurd (false≢true (sym more ∙ (==_iff m'.ht_from.size 0).1 e));
      to_null = is_null-IsTable m'.ht_to h.valid.to ∙ sym (is_null-IsTable m.ht_to v.to);
      idle = λ e. absurd (false≢true (sym (is_null-IsTable m.ht_from v.from) ∙ e));
    })
  ]

  help_idle :
      (fuel : ℕ) (m : HMap N)
      → IsMap m
      → is_null m.ht_from ≡ true
      → Returns (hm_help_resizing fuel m) (Helps m)
  unfolding hm_help_resizing
  help_idle fuel m v idle =
      let gone = null_of_IsSlot m.ht_from v.from_valid idle in
      let nothing : m.ht_from.size ≡ 0 = ap (λ t. t.size) gone in
      (
        m,
        rw idle,
        record {
          valid = v;
          same = record { counted = λ p. refl; total = refl };
          mask = refl;
          left = omega (arith, nothing);
          finished = λ e. gone;
          to_null = refl;
          idle = λ e. refl;
        },
      )

  -- On a well-formed map that can help (no resize goes on, or the chain at `resizing_pos` holds
  -- at least min(128, ht_from.size) nodes), `hm_help_resizing` returns with any fuel above 128.
  -- The map it leaves is well formed, holds the same nodes equally often, has moved exactly
  -- min(128, ht_from.size) nodes out of `ht_from`, keeps the mask of `ht_to`, has dropped
  -- `ht_from` if it became empty, and is the map itself if no resize went on.
  pub hm_help_resizing-Helps :
      (fuel : ℕ) (m : HMap N)
      → IsMap m
      → CanHelp m
      → k_resizing_work < fuel
      → Returns (hm_help_resizing fuel m) (Helps m)
  unfolding hm_help_resizing drop_empty
  hm_help_resizing-Helps fuel m v (inl idle) h = help_idle fuel m v idle
  hm_help_resizing-Helps fuel m v (inr enough) h = elim (Bool-cases (is_null m.ht_from)) [
    | inl idle ↦ help_idle fuel m v idle
    | inr busy ↦
        let mv = IsMap-IsMoving m v busy in
        let (m', run, done) =
          resize_loop-Helped fuel 0 m mv (omega (arith, enough)) (omega arith) in
        (drop_empty m', rw (busy, run), drop_empty-Helps m m' mv done)
  ]

  -- On every well-formed map that cannot help, that is in the middle of a resize with fewer
  -- than min(128, ht_from.size) nodes in the chain at `resizing_pos`, `hm_help_resizing` does
  -- not return: with every amount of fuel it runs out.
  pub hm_help_resizing-never_ends :
      (m : HMap N) → IsMap m → ¬ (CanHelp m) → (fuel : ℕ) → hm_help_resizing fuel m ≡ out_of_fuel
  unfolding hm_help_resizing
  hm_help_resizing-never_ends m v stuck fuel =
      let busy : is_null m.ht_from ≡ false = not_true _ (λ e. stuck (inl e)) in
      let short : length (current m) < to_move 0 m =
        omega (arith, not_le _ _ (λ e. stuck (inr e))) in
      rw (busy, resize_loop_stuck fuel 0 m (IsMap-IsMoving m v busy) short)
