-- ===== src/Avl/Apart.antt =====
-- The nodes of a tree and of the tree below its root, src/avl.cpp's rotations: which are different.
use redis_c.Base.{ℕ, ◌<◌, ◌≡◌, ◌≢◌, arith}
use redis_c.Avl.Tree.{Tree, node, occ, Distinct}

-- no node of a tree with a tree below its root occurs twice
module _ (a : Tree) (k : ℕ) (b : Tree) (i : ℕ) (c : Tree)
    (d : Distinct (node (node a k b) i c)) where
  pub roots_ne : i ≢ k
  roots_ne = ground (arith, d i)

  pub out_i : (occ i a ≡ 0) × (occ i b ≡ 0) × (occ i c ≡ 0)
  out_i = ground (arith, d i)

  pub out_k : (occ k a ≡ 0) × (occ k b ≡ 0) × (occ k c ≡ 0)
  out_k = ground (arith, d k)

  pub in_a : (j : ℕ) → 0 < occ j a → (i ≢ j) × (k ≢ j) × (occ j b ≡ 0) × (occ j c ≡ 0)
  in_a j h = ground (arith, d j)

  pub in_b : (j : ℕ) → 0 < occ j b → (i ≢ j) × (k ≢ j) × (occ j a ≡ 0) × (occ j c ≡ 0)
  in_b j h = ground (arith, d j)

  pub in_c : (j : ℕ) → 0 < occ j c → (i ≢ j) × (k ≢ j) × (occ j a ≡ 0) × (occ j b ≡ 0)
  in_c j h = ground (arith, d j)

  pub b-Distinct : Distinct b
  b-Distinct x = ground (arith, d x)

  pub low_k : occ k (node b i c) ≡ 0
  low_k = ground (arith, d k)

  pub mirror_low : occ k (node c i b) ≡ 0
  mirror_low = ground (arith, d k)

  pub outside : (j : ℕ) → occ j (node (node a k b) i c) ≡ 0 → (i ≢ j) × (k ≢ j) × (occ j b ≡ 0)
  outside j h = ground arith

pub mirror-Distinct :
    (a : Tree) (k : ℕ) (b : Tree) (i : ℕ) (c : Tree)
    → Distinct (node c i (node b k a))
    → Distinct (node (node a k b) i c)
mirror-Distinct a k b i c d x = omega (arith, d x)

pub mirror-occ :
    (a : Tree) (k : ℕ) (b : Tree) (i : ℕ) (c : Tree) (x : ℕ)
    → occ x (node c i (node b k a)) ≡ 0
    → occ x (node (node a k b) i c) ≡ 0
mirror-occ a k b i c x h = omega arith
