-- ===== src/Avl/Restored.antt =====
-- `avl_rebalance` of src/avl.cpp on a tree that was balanced before a subtree changed.
use redis_c.Base.{
  ℕ, ◌+◌, ◌≤◌, ◌<◌, ◌^◌, ◌≡◌, ◌∙◌, none, some, List, ◌∷◌, ◌++◌, arith, ap, max, length, Returns,
}
use redis_c.Avl.{Store, avl_rebalance}
use redis_c.Avl.Tree.{
  Tree, node, root_of, size, size_up, occ, occ_up, Crumb, parent_of, DistinctIn, balance, zip_up,
  inorder, inorder-balance, size-balance, occ-balance,
}
use redis_c.Avl.Height.{height, IsAvl, balance-IsAvl}
use redis_c.Avl.Link.{Linked, Held}
use redis_c.Avl.Above.{Above}
use redis_c.Avl.Balanced.{BalancedUp, zip_up-IsAvl, inorder-zip_up, occ-zip_up, before, after}
use redis_c.Avl.Rebalance.{avl_rebalance-Zipped}

-- a balanced tree of the same nodes in the same order
pub record Restored (s : Store) (l : Tree) (i : ℕ) (r : Tree) (up : List Crumb) (out : ℕ × Store)
    : Type 0 where
  pub tree : Tree
  pub root : some out.0 ≡ root_of tree
  pub linked : Linked out.1 tree none
  pub order : inorder tree ≡ before up ++ ((inorder l ++ (i ∷ inorder r)) ++ after up)
  pub nodes : (x : ℕ) → occ x tree ≡ occ x (node l i r) + occ_up x up
  pub balanced : IsAvl tree
  pub spares : (j : ℕ) → occ j (node l i r) + occ_up j up ≡ 0 → out.1 j ≡ s j

-- the subtree is balanced but for its root, and about as high as before
pub record IsMendable (l r : Tree) (h : ℕ) (up : List Crumb) : Type 0 where
  pub left : IsAvl l
  pub right : IsAvl r
  pub left_low : height l ≤ height r + 2
  pub right_low : height r ≤ height l + 2
  pub not_higher : max (height l) (height r) ≤ h
  pub not_lower : h ≤ max (height l) (height r) + 1
  pub above : BalancedUp h up

-- Take a tree of fewer than 2 ^ 31 distinct nodes in a store, balanced before the subtree at a
-- node changed. The two subtrees of the node are balanced and differ by at most two in height,
-- and the higher one is as high as the whole subtree was, or lower by one; the depths and
-- counts of the node and of those above it may be out of date. Then `avl_rebalance` at the
-- node, with fuel above its distance from the root, returns the root of a balanced tree of the
-- same nodes in the same order, with its pointers, depths and counts right, and leaves the
-- other nodes as they are.
pub avl_rebalance-Restored :
    (fuel : ℕ) (s : Store) (l : Tree) (i : ℕ) (r : Tree) (h : ℕ) (up : List Crumb)
    → length up < fuel
    → size l + 1 + size r + size_up up < 2 ^ 31
    → DistinctIn (node l i r) up
    → Held s l i r (parent_of up)
    → Above s (some i) up
    → IsMendable l r h up
    → Returns (avl_rebalance fuel s i) (Restored s l i r up)
avl_rebalance-Restored fuel s l i r h up enough small d held above m =
    let (out, run, (root, linked, spares)) =
      avl_rebalance-Zipped up fuel s l i r enough small d held above in
    let ((avl, lo, hi), same) =
      balance-IsAvl l i r (omega arith) m.left m.right m.left_low m.right_low in
    (
      out,
      run,
      record {
        tree = zip_up (balance l i r) up;
        root = root;
        linked = linked;
        order =
            inorder-zip_up up (balance l i r)
            ∙ ap (λ xs. before up ++ (xs ++ after up)) (inorder-balance l i r);
        nodes = λ x. omega (arith, occ-zip_up x up (balance l i r), occ-balance x l i r);
        balanced =
            zip_up-IsAvl up (balance l i r) h (omega (arith, size-balance l i r)) avl
              (omega (arith, m.not_higher)) (omega (arith, m.not_lower)) m.above;
        spares = spares;
      },
    )
