-- ===== src/Avl/Fix.antt =====
-- `avl_fix_left` and `avl_fix_right` of src/avl.cpp, and the choice between them.
use redis_c.Base.{
  ℕ, ◌+◌, ◌<◌, ◌^◌, ◌≡◌, ◌≢◌, refl, ◌∙◌, true, Option, some, ◌==◌, ==_iff, arith, ap, ltb, Returns,
  ok, Bool-cases, inl, inr, u32,
}
use redis_c.Avl.{
  Store, avl_depth, rotate_left, rotate_right, rotate_left_child, rotate_right_child, avl_fix_left,
  avl_fix_right, fix_node,
}
use redis_c.Avl.Tree.{
  Tree, leaf, node, depth_of, occ, Distinct, fix_left, fix_right, balance, turn_left, turn_right,
}
use redis_c.Avl.Link.{Becomes, Linked, Linked-Held, avl_depth-Linked}
use redis_c.Avl.Apart.{mirror-Distinct}
use redis_c.Avl.RotateRight.{rotate_right-Linked}
use redis_c.Avl.RotateLeft.{rotate_left-Linked}
use redis_c.Avl.Child.{
  left-Distinct, right-Distinct, set_left-Held, set_right-Held, set_left-Spares, set_right-Spares,
  Becomes-trans,
}

wrapped : (n : ℕ) → n < 2 ^ 31 → (0 == u32 (n + 2)) ≢ true
wrapped n small h = omega (arith, (==_iff _ _).0 h)

wrapped' : (n : ℕ) → n < 2 ^ 31 → (u32 (n + 2) == 0) ≢ true
wrapped' n small h = omega (arith, (==_iff _ _).0 h)

not_below_zero : (n : ℕ) → ltb n 0 ≢ true
not_below_zero n h = ground arith

-- both rotations of the double one
module _ (s : Store) (a : Tree) (k : ℕ) (p : Tree) (m : ℕ) (q : Tree) (i : ℕ) (r : Tree)
    (parent : Option ℕ) where
  double_right :
      Distinct (node (node a k (node p m q)) i r)
      → Linked s (node (node a k (node p m q)) i r) parent
      → Becomes s
          (node (node a k (node p m q)) i r)
          parent
          (node (node a k p) m (node q i r))
          (rotate_right (rotate_left_child s i k) i)
  unfolding rotate_left_child
  double_right d h =
      let l = node a k (node p m q) in
      let l' = node (node a k p) m q in
      let dl = mirror-Distinct q m p k a (left-Distinct l i r d) in
      let first =
        rotate_left-Linked s q m p k a (some i) dl (Linked-Held s a k (node p m q) (some i) h.1) in
      let same = λ (x : ℕ). let e : occ x l' ≡ occ x l = omega arith in e in
      let held = set_left-Held s l i r parent l' (rotate_left s k) d same h first in
      Becomes-trans s (rotate_left_child s i k) (node l i r) (node l' i r)
        (node (node a k p) m (node q i r)) parent (rotate_right (rotate_left_child s i k) i)
        (λ x. omega arith) (set_left-Spares s l i r parent l' (rotate_left s k) d first)
        (rotate_right-Linked (rotate_left_child s i k) (node a k p) m q i r parent
          (λ x. omega (arith, d x)) held)

  double_left :
      Distinct (node r i (node (node q m p) k a))
      → Linked s (node r i (node (node q m p) k a)) parent
      → Becomes s
          (node r i (node (node q m p) k a))
          parent
          (node (node r i q) m (node p k a))
          (rotate_left (rotate_right_child s i k) i)
  unfolding rotate_right_child
  double_left d h =
      let l = node (node q m p) k a in
      let l' = node q m (node p k a) in
      let dl = right-Distinct r i l d in
      let first =
        rotate_right-Linked s q m p k a (some i) dl (Linked-Held s (node q m p) k a (some i) h.2) in
      let same = λ (x : ℕ). let e : occ x l' ≡ occ x l = omega arith in e in
      let held = set_right-Held s r i l parent l' (rotate_right s k) d same h first in
      Becomes-trans s (rotate_right_child s i k) (node r i l) (node r i l')
        (node (node r i q) m (node p k a)) parent (rotate_left (rotate_right_child s i k) i)
        (λ x. omega arith) (set_right-Spares s r i l parent l' (rotate_right s k) d first)
        (rotate_left-Linked (rotate_right_child s i k) (node p k a) m q i r parent
          (λ x. omega (arith, d x)) held)

module _ (s : Store) (a : Tree) (k : ℕ) (b : Tree) (i : ℕ) (r : Tree) (parent : Option ℕ) where
  pub avl_fix_left-Linked :
      Distinct (node (node a k b) i r)
      → Linked s (node (node a k b) i r) parent
      → Returns
          (avl_fix_left s i)
          (Becomes s (node (node a k b) i r) parent (fix_left (node a k b) i r))
  unfolding avl_fix_left fix_left
  avl_fix_left-Linked d h =
      let left : (s i).left ≡ some k = ap (λ n. n.left) h.0 in
      let depth_a : avl_depth s (s k).left ≡ depth_of a =
        ap (λ n. avl_depth s n.left) h.1.0 ∙ avl_depth-Linked a s (some k) h.1.1 in
      let depth_b : avl_depth s (s k).right ≡ depth_of b =
        ap (λ n. avl_depth s n.right) h.1.0 ∙ avl_depth-Linked b s (some k) h.1.2 in
      rw (left, depth_a, depth_b)
        (elim (Bool-cases (ltb (depth_of a) (depth_of b))) [
          | inl deeper ↦ rw deeper (lift_left b d h deeper)
          | inr other ↦ rw other (
            _,
            refl,
            rotate_right-Linked s a k b i r parent d (Linked-Held s (node a k b) i r parent h),
          )
        ])
    where
      lift_left :
          (b : Tree)
          → Distinct (node (node a k b) i r)
          → Linked s (node (node a k b) i r) parent
          → ltb (depth_of a) (depth_of b) ≡ true
          → Returns (ok (rotate_right (rotate_left_child s i k) i)) (
              Becomes s
                (node (node a k b) i r)
                parent
                (turn_right (node (turn_left (node a k b)) i r)))
      lift_left leaf d h deeper = absurd (not_below_zero (depth_of a) deeper)
      lift_left (node p m q) d h deeper = (_, refl, double_right s a k p m q i r parent d h)

  pub avl_fix_right-Linked :
      Distinct (node r i (node b k a))
      → Linked s (node r i (node b k a)) parent
      → Returns
          (avl_fix_right s i)
          (Becomes s (node r i (node b k a)) parent (fix_right r i (node b k a)))
  unfolding avl_fix_right fix_right
  avl_fix_right-Linked d h =
      let right : (s i).right ≡ some k = ap (λ n. n.right) h.0 in
      let depth_a : avl_depth s (s k).right ≡ depth_of a =
        ap (λ n. avl_depth s n.right) h.2.0 ∙ avl_depth-Linked a s (some k) h.2.2 in
      let depth_b : avl_depth s (s k).left ≡ depth_of b =
        ap (λ n. avl_depth s n.left) h.2.0 ∙ avl_depth-Linked b s (some k) h.2.1 in
      rw (right, depth_a, depth_b)
        (elim (Bool-cases (ltb (depth_of a) (depth_of b))) [
          | inl deeper ↦ rw deeper (lift_right b d h deeper)
          | inr other ↦ rw other (
            _,
            refl,
            rotate_left-Linked s a k b i r parent (mirror-Distinct a k b i r d)
                (Linked-Held s r i (node b k a) parent h),
          )
        ])
    where
      lift_right :
          (b : Tree)
          → Distinct (node r i (node b k a))
          → Linked s (node r i (node b k a)) parent
          → ltb (depth_of a) (depth_of b) ≡ true
          → Returns (ok (rotate_left (rotate_right_child s i k) i)) (
              Becomes s
                (node r i (node b k a))
                parent
                (turn_left (node r i (turn_right (node b k a)))))
      lift_right leaf d h deeper = absurd (not_below_zero (depth_of a) deeper)
      lift_right (node p m q) d h deeper = (_, refl, double_left s a k q m p i r parent d h)

deep_left :
    (s : Store) (l : Tree) (i : ℕ) (r : Tree) (parent : Option ℕ)
    → (depth_of l == u32 (depth_of r + 2)) ≡ true
    → depth_of r < 2 ^ 31
    → Distinct (node l i r)
    → Linked s (node l i r) parent
    → Returns (avl_fix_left s i) (Becomes s (node l i r) parent (fix_left l i r))
deep_left s leaf i r parent deep small d h = absurd (wrapped (depth_of r) small deep)
deep_left s (node a k b) i r parent deep small d h = avl_fix_left-Linked s a k b i r parent d h

deep_right :
    (s : Store) (l : Tree) (i : ℕ) (r : Tree) (parent : Option ℕ)
    → (u32 (depth_of l + 2) == depth_of r) ≡ true
    → depth_of l < 2 ^ 31
    → Distinct (node l i r)
    → Linked s (node l i r) parent
    → Returns (avl_fix_right s i) (Becomes s (node l i r) parent (fix_right l i r))
deep_right s l i leaf parent deep small d h = absurd (wrapped' (depth_of l) small deep)
deep_right s l i (node b k a) parent deep small d h = avl_fix_right-Linked s a k b i l parent d h

-- The trees at a node are balanced, and none is near the end of `uint32_t`.
pub fix_node-Linked :
    (s : Store) (l : Tree) (i : ℕ) (r : Tree) (parent : Option ℕ)
    → depth_of l < 2 ^ 31
    → depth_of r < 2 ^ 31
    → Distinct (node l i r)
    → Linked s (node l i r) parent
    → Returns (fix_node s i) (Becomes s (node l i r) parent (balance l i r))
unfolding fix_node balance
fix_node-Linked s l i r parent small_l small_r d h =
    let depth_l : avl_depth s (s i).left ≡ depth_of l =
      ap (λ n. avl_depth s n.left) h.0 ∙ avl_depth-Linked l s (some i) h.1 in
    let depth_r : avl_depth s (s i).right ≡ depth_of r =
      ap (λ n. avl_depth s n.right) h.0 ∙ avl_depth-Linked r s (some i) h.2 in
    rw (depth_l, depth_r)
      (elim (Bool-cases (depth_of l == u32 (depth_of r + 2))) [
        | inl deep ↦ rw deep (deep_left s l i r parent deep small_r d h)
        | inr other ↦ rw other (elim (Bool-cases (u32 (depth_of l + 2) == depth_of r)) [
          | inl deep ↦ rw deep (deep_right s l i r parent deep small_l d h)
          | inr even ↦ rw even (_, refl, (refl, h, λ j k. refl))
        ])
      ])
