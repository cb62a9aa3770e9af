-- ===== src/Avl/Height.antt =====
-- The balance of the trees of src/avl.cpp, with heights that do not wrap.
use redis_c.Base.{
  ℕ, ◌+◌, ◌≤◌, ◌<◌, ◌^◌, ◌≡◌, refl, true, false, ◌==◌, arith, ltb, u32, Bool-cases, inl, inr,
  ==_iff, max,
}
use redis_c.Avl
use redis_c.Avl.Tree.{
  Tree, leaf, node, depth_of, size, balance, fix_left, fix_right, turn_left, turn_right,
}

abbrev pub height : Tree → ℕ
height leaf = 0
height (node l i r) = 1 + max (height l) (height r)

abbrev pub IsAvl : Tree → Type 0
IsAvl leaf = Unit
IsAvl (node l i r) = IsAvl l × IsAvl r × (height l ≤ height r + 1) × (height r ≤ height l + 1)

pub height-le : (t : Tree) → height t ≤ size t
height-le leaf = omega arith
height-le (node l i r) = ground (arith, height-le l, height-le r)

pub depth_of-height : (t : Tree) → size t < 2 ^ 31 → depth_of t ≡ height t
depth_of-height leaf h = refl
depth_of-height (node l i r) h =
    wrap (depth_of l) (height l) (depth_of r) (height r) (omega (arith, height-le l))
      (omega (arith, height-le r)) (depth_of-height l (omega arith))
      (depth_of-height r (omega arith))
  where
    wrap :
        (x x' y y' : ℕ)
        → x' < 2 ^ 31
        → y' < 2 ^ 31
        → x ≡ x'
        → y ≡ y'
        → u32 (1 + Avl.max x y) ≡ 1 + max x' y'
    wrap x x' y y' small small' e e' = ground arith

-- the height after the balancing
abbrev pub Near : Tree → ℕ → ℕ → Type 0
Near t hl hr = IsAvl t × (max hl hr ≤ height t) × (height t ≤ 1 + max hl hr)

leaning :
    (x y z : ℕ)
    → x ≤ y + 1
    → y ≤ x + 1
    → 1 + max x y ≡ z + 2
    → ltb x y ≡ true
    → (x ≡ z) × (y ≡ z + 1)
leaning x y z p q e h = ground arith

not_leaning :
    (x y z : ℕ)
    → x ≤ y + 1
    → y ≤ x + 1
    → 1 + max x y ≡ z + 2
    → ltb x y ≡ false
    → (x ≡ z + 1) × (y ≤ x) × (x ≤ y + 1)
not_leaning x y z p q e h = ground arith

module _ (a : Tree) (k : ℕ) (i : ℕ) (r : Tree) (ha : IsAvl a) (hr : IsAvl r) where
  single_right :
      (b : Tree)
      → IsAvl b
      → height a ≡ height r + 1
      → height b ≤ height a
      → height a ≤ height b + 1
      → Near (node a k (node b i r)) (1 + max (height a) (height b)) (height r)
  single_right b hb e p q =
      ((ha, (hb, hr, omega arith, omega arith), omega arith, omega arith), omega arith, omega arith)

  double_right :
      (b : Tree)
      → IsAvl b
      → height a ≡ height r
      → height b ≡ height r + 1
      → Near
          (turn_right (node (turn_left (node a k b)) i r))
          (1 + max (height a) (height b))
          (height r)
  double_right leaf hb e f = absurd (omega arith)
  double_right (node m j n) (hm, hn, p, q) e f = (
    (
      (ha, hm, omega arith, omega arith),
      (hn, hr, omega arith, omega arith),
      omega arith,
      omega arith,
    ),
    omega arith,
    omega arith,
  )

fix_left-IsAvl :
    (l : Tree) (i : ℕ) (r : Tree)
    → size l < 2 ^ 31
    → IsAvl l
    → IsAvl r
    → height l ≡ height r + 2
    → Near (fix_left l i r) (height l) (height r)
unfolding fix_left
fix_left-IsAvl leaf i r small hl hr e = absurd (omega arith)
fix_left-IsAvl (node a k b) i r small (ha, hb, p, q) hr e =
    let exact_a = depth_of-height a (omega arith) in
    let exact_b = depth_of-height b (omega arith) in
    rw (exact_a, exact_b)
      (elim (Bool-cases (ltb (height a) (height b))) [
        | inl deeper ↦
            let (x, y) = leaning (height a) (height b) (height r) p q e deeper in
            rw deeper (double_right a k i r ha hr b hb x y)
        | inr other ↦
            let (x, y, z) = not_leaning (height a) (height b) (height r) p q e other in
            rw other (single_right a k i r ha hr b hb x y z)
      ])

-- the same on the other side
module _ (a : Tree) (k : ℕ) (i : ℕ) (l : Tree) (ha : IsAvl a) (hl : IsAvl l) where
  single_left :
      (b : Tree)
      → IsAvl b
      → height a ≡ height l + 1
      → height b ≤ height a
      → height a ≤ height b + 1
      → Near (node (node l i b) k a) (height l) (1 + max (height b) (height a))
  single_left b hb e p q =
      (((hl, hb, omega arith, omega arith), ha, omega arith, omega arith), omega arith, omega arith)

  double_left :
      (b : Tree)
      → IsAvl b
      → height a ≡ height l
      → height b ≡ height l + 1
      → Near
          (turn_left (node l i (turn_right (node b k a))))
          (height l)
          (1 + max (height b) (height a))
  double_left leaf hb e f = absurd (omega arith)
  double_left (node m j n) (hm, hn, p, q) e f = (
    (
      (hl, hm, omega arith, omega arith),
      (hn, ha, omega arith, omega arith),
      omega arith,
      omega arith,
    ),
    omega arith,
    omega arith,
  )

fix_right-IsAvl :
    (l : Tree) (i : ℕ) (r : Tree)
    → size r < 2 ^ 31
    → IsAvl l
    → IsAvl r
    → height l + 2 ≡ height r
    → Near (fix_right l i r) (height l) (height r)
unfolding fix_right
fix_right-IsAvl l i leaf small hl hr e = absurd (omega arith)
fix_right-IsAvl l i (node b k a) small hl (hb, ha, p, q) e =
    let exact_a = depth_of-height a (omega arith) in
    let exact_b = depth_of-height b (omega arith) in
    rw (exact_a, exact_b)
      (elim (Bool-cases (ltb (height a) (height b))) [
        | inl deeper ↦
            let (x, y) =
              leaning (height a) (height b) (height l) (omega arith) (omega arith) (omega arith)
                deeper in
            rw deeper (double_left a k i l ha hl b hb x y)
        | inr other ↦
            let (x, y, z) =
              not_leaning (height a) (height b) (height l) (omega arith) (omega arith) (omega arith)
                other in
            rw other (single_left a k i l ha hl b hb x y z)
      ])

-- Balancing mends heights that differ by two, and keeps a node that is balanced.
pub balance-IsAvl :
    (l : Tree) (i : ℕ) (r : Tree)
    → size l + size r < 2 ^ 31
    → IsAvl l
    → IsAvl r
    → height l ≤ height r + 2
    → height r ≤ height l + 2
    → Near (balance l i r) (height l) (height r)
      × (height l ≤ height r + 1
          → height r ≤ height l + 1
          → height (balance l i r) ≡ 1 + max (height l) (height r))
unfolding balance
balance-IsAvl l i r small hl hr p q =
    rw
      (
        depth_of-height l (omega arith),
        depth_of-height r (omega arith),
        no_wrap (height r) (omega (arith, height-le r)),
        no_wrap (height l) (omega (arith, height-le l)),
      )
      (elim (Bool-cases (height l == height r + 2)) [
        | inl deep ↦ rw deep (
          fix_left-IsAvl l i r (omega arith) hl hr ((==_iff _ _).0 deep),
          λ x y. absurd (omega (arith, (==_iff _ _).0 deep)),
        )
        | inr other ↦ rw other (elim (Bool-cases (height l + 2 == height r)) [
          | inl deep ↦ rw deep (
            fix_right-IsAvl l i r (omega arith) hl hr ((==_iff _ _).0 deep),
            λ x y. absurd (omega (arith, (==_iff _ _).0 deep)),
          )
          | inr even ↦
              let (x, y) = even_heights (height l) (height r) p q other even in
              rw even (((hl, hr, x, y), omega arith, omega arith), λ x y. refl)
        ])
      ])
  where
    no_wrap : (n : ℕ) → n < 2 ^ 31 → u32 (n + 2) ≡ n + 2
    no_wrap n h = omega arith

    even_heights :
        (x y : ℕ)
        → x ≤ y + 2
        → y ≤ x + 2
        → (x == y + 2) ≡ false
        → (x + 2 == y) ≡ false
        → (x ≤ y + 1) × (y ≤ x + 1)
    even_heights x y p q e f = ground arith
