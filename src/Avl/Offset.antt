-- ===== src/Avl/Offset.antt =====
-- `avl_offset` of src/avl.cpp against the list of the nodes in order.
use redis_c.Base.{
  ℕ, zero, suc, ◌+◌, ◌-◌, ◌≤◌, ◌<◌, ◌^◌, ◌≡◌, ◌≢◌, sym, ◌∙◌, true, false, none, some, List, [], ◌∷◌,
  ◌==◌, ==_refl, arith, ap, ltb, ok, length, Bool-cases, inl, inr, ◌⊎◌,
}
use redis_c.Avl.{Store, avl_offset, offset_loop, direction, to_parent, parent_pos, points_at}
use redis_c.Avl.Tree.{
  Tree, node, occ, size, size_up, Crumb, in_left, in_right, parent_of, DistinctIn, plug,
}
use redis_c.Avl.Link.{Linked}
use redis_c.Avl.Balanced.{plug-Linked, size-plug}
use redis_c.Avl.Above.{points_at-root_of}
use redis_c.Avl.Place.{skipped, nth, nth-out, skipped-le, goes_up}
use redis_c.Avl.Descend.{add_small, sub_small, count_of_left, count_of_right, down}

lt_of_ltb : (a b : ℕ) → ltb a b ≡ true → a < b
lt_of_ltb a b h = ground arith

range : (place lo n : ℕ) → ((lo ≤ place) × (place < lo + n)) ⊎ ((place < lo) ⊎ (lo + n ≤ place))
range place lo n = elim (Bool-cases (ltb place lo)) [
  | inl below ↦ inr (inl (lt_of_ltb place lo below))
  | inr above ↦ elim (Bool-cases (ltb place (lo + n))) [
    | inl inside ↦ inl (ground arith, lt_of_ltb place (lo + n) inside)
    | inr beyond ↦ inr (inr (ground arith))
  ]
]

-- which pointer to the right a parent has
not_right :
    (l : Tree) (i : ℕ) (r : Tree) (p : ℕ) (b : Tree) (up : List Crumb)
    → DistinctIn (node l i r) (in_left p b ∷ up)
    → occ i b ≡ 0
not_right l i r p b up d = ground (arith, d i)

not_equal : (offset pos : ℕ) → offset ≢ pos → (offset == pos) ≡ false
not_equal offset pos h = ground arith

module _ (s : Store) (base offset : ℕ) (small_base : base < 2 ^ 31)
    (small_offset : offset < 2 ^ 64) where
  -- one round that goes up
  leave :
      (l : Tree) (i : ℕ) (r : Tree) (up : List Crumb) (fuel pos : ℕ)
      → size (node l i r) + size_up up < 2 ^ 31
      → Linked s (node l i r) (parent_of up)
      → pos + base ≡ 2 ^ 63 + (skipped up + size l)
      → (offset + base < 2 ^ 63 + skipped up)
        ⊎ (2 ^ 63 + skipped up + size (node l i r) ≤ offset + base)
      → ((offset == pos) ≡ false) × (direction s i offset pos ≡ ok to_parent)
  leave l i r up fuel pos small low at out =
      let left = count_of_left s l i r (parent_of up) (omega arith) low in
      let right = count_of_right s l i r (parent_of up) (omega arith) low in
      let skip = skipped-le up in
      (
        not_equal offset pos (λ e. omega arith),
        goes_up s i (size l) (size r) offset pos left right
            (outside (size l) (size r) pos (skipped up) at out) (omega arith) (omega arith),
      )
    where
      outside :
          (a c pos k : ℕ)
          → pos + base ≡ 2 ^ 63 + (k + a)
          → (offset + base < 2 ^ 63 + k) ⊎ (2 ^ 63 + k + (a + 1 + c) ≤ offset + base)
          → (pos + c < offset) ⊎ (offset + a < pos)
      outside a c pos k at (inl h) = inr (omega arith)
      outside a c pos k at (inr h) = inl (omega arith)

  rise :
      (up : List Crumb) (l : Tree) (i : ℕ) (r : Tree) (fuel pos : ℕ)
      → length up + size (plug (node l i r) up) ≤ fuel
      → size (plug (node l i r) up) < 2 ^ 31
      → DistinctIn (node l i r) up
      → Linked s (plug (node l i r) up) none
      → pos + base ≡ 2 ^ 63 + (skipped up + size l)
      → offset_loop fuel s i offset pos ≡ ok (nth (plug (node l i r) up) (offset + base))
  unfolding offset_loop parent_pos
  rise up l i r zero pos enough small d h at = absurd (omega (arith, size-plug up (node l i r)))
  rise [] l i r (suc fuel) pos enough small d h at =
      elim (range (offset + base) (2 ^ 63 + 0) (size (node l i r))) [
        | inl (lo, hi) ↦
            down s base offset small_base small_offset (node l i r) [] (suc fuel) pos (omega arith)
              (omega arith) small h at lo hi
        | inr out ↦
            let (away, way) = leave l i r [] fuel pos (omega arith) h at out in
            rw (away, way, ap (λ n. n.parent) h.0)
              (ap ok (sym (nth-out (node l i r) (offset + base) out)))
      ]
  rise (in_left p b ∷ up) l i r (suc fuel) pos enough small d h at =
      let bound = size-plug up (node (node l i r) p b) in
      let ((at_p, low, hb), above) = plug-Linked up s (node (node l i r) p b) h in
      let skip = skipped-le up in
      elim (range (offset + base) (2 ^ 63 + skipped up) (size (node l i r))) [
        | inl (lo, hi) ↦
            down s base offset small_base small_offset (node l i r) (in_left p b ∷ up) (suc fuel)
              pos (omega arith) (omega arith) small h at lo hi
        | inr out ↦
            let (away, way) = leave l i r (in_left p b ∷ up) fuel pos (omega arith) low at out in
            let not_right_child =
              ap (λ n. points_at n.right i) at_p
              ∙ points_at-root_of b i (not_right l i r p b up d) in
            rw
              (
                away,
                way,
                ap (λ n. n.parent) low.0,
                not_right_child,
                count_of_right s l i r (some p) (omega arith) low,
                add_small pos (size r) (omega arith) (omega arith),
              )
              (rise up (node l i r) p b fuel (pos + (size r + 1)) (omega arith) small
                (λ x. omega (arith, d x)) h (omega arith))
      ]
  rise (in_right b p ∷ up) l i r (suc fuel) pos enough small d h at =
      let bound = size-plug up (node b p (node l i r)) in
      let ((at_p, hb, low), above) = plug-Linked up s (node b p (node l i r)) h in
      let skip = skipped-le up in
      elim (range (offset + base) (2 ^ 63 + (skipped up + size b + 1)) (size (node l i r))) [
        | inl (lo, hi) ↦
            down s base offset small_base small_offset (node l i r) (in_right b p ∷ up) (suc fuel)
              pos (omega arith) (omega arith) small h at lo hi
        | inr out ↦
            let (away, way) = leave l i r (in_right b p ∷ up) fuel pos (omega arith) low at out in
            let right_child = ap (λ n. points_at n.right i) at_p ∙ ==_refl i in
            rw
              (
                away,
                way,
                ap (λ n. n.parent) low.0,
                right_child,
                count_of_left s l i r (some p) (omega arith) low,
                sub_small pos (size l) (omega arith) (omega arith),
              )
              (rise up b p (node l i r) fuel (pos - (size l + 1)) (omega arith) small
                (λ x. omega (arith, d x)) h (omega arith))
      ]

-- In a tree of fewer than 2 ^ 31 distinct nodes, with its pointers, depths and counts right,
-- `avl_offset` from any of its nodes with any `int64_t` returns with fuel at least the distance
-- from the root and the nodes together. No `int64_t` overflows; the result is the node that
-- stands the offset further in the order, or null outside of it.
pub avl_offset-nth :
    (fuel : ℕ) (s : Store) (l : Tree) (i : ℕ) (r : Tree) (up : List Crumb) (offset : ℕ)
    → offset < 2 ^ 64
    → length up + size (plug (node l i r) up) ≤ fuel
    → size (plug (node l i r) up) < 2 ^ 31
    → DistinctIn (node l i r) up
    → Linked s (plug (node l i r) up) none
    → avl_offset fuel s i offset ≡ ok (nth (plug (node l i r) up) (offset + (skipped up + size l)))
unfolding avl_offset
avl_offset-nth fuel s l i r up offset small_offset enough small d h =
    rise s (skipped up + size l) offset (omega (arith, skipped-le up, size-plug up (node l i r)))
      small_offset up l i r fuel (2 ^ 63 + 0) enough small d h (omega arith)
