-- ===== src/Avl/Tests.antt =====
-- The theorems at trees of three nodes, and runs of the code, from src/avl.cpp.
use redis_c.Base.{
  ℕ, deref, ◌+◌, ◌-◌, ◌≤◌, ◌^◌, ◌≡◌, refl, Option, none, some, [], ◌∷◌, ok, zero, suc, ◌==◌,
  if◌then◌else◌, ◌>>=◌, arith, Returns, Run,
}
use redis_c.Avl.{
  AvlNode, Store, avl_init, avl_update, rotate_left, rotate_right, rotate_left_child,
  rotate_right_child, avl_fix_left, avl_fix_right, fix_node, avl_rebalance, leftmost,
  replace_by_left, replace_child, copy_node, take_place, avl_delete, offset_loop, direction,
  parent_pos, avl_offset,
}
use redis_c.Avl.Tree.{Tree, leaf, node, in_left, occ}
use redis_c.Avl.Place.{nth}
use redis_c.Avl.Restored.{Restored, avl_rebalance-Restored}
use redis_c.Avl.Delete.Unlink.{Deleted}
use redis_c.Avl.Delete.Whole.{avl_delete-Deleted}
use redis_c.Avl.Offset.{avl_offset-nth}

code : Unit {0}
unfolding avl_init avl_update rotate_left rotate_right rotate_left_child rotate_right_child
    avl_fix_left avl_fix_right fix_node avl_rebalance leftmost replace_by_left replace_child
    copy_node take_place avl_delete offset_loop direction parent_pos avl_offset
code = tt

abbrev single : Option ℕ → AvlNode
single parent = record { depth = 1; count = 1; left = none; right = none; parent = parent }

-- 1 and 2 below 0
abbrev triple : Store
triple = λ i.
    if i == 0
    then record { depth = 2; count = 3; left = some 1; right = some 2; parent = none }
    else single (some 0)

abbrev one_leaf : Tree
one_leaf = node leaf 1 leaf

abbrev two_leaf : Tree
two_leaf = node leaf 2 leaf

-- 0, 1 and 2 in a row, with what 0 had when it was alone
abbrev row : Store
row = λ i.
    if i == 0
    then record { depth = 1; count = 1; left = none; right = some 1; parent = none }
    else if i == 1
    then record { depth = 2; count = 2; left = none; right = some 2; parent = some 0 }
    else single (some 1)

-- the node at a pointer, with its left child and its count
abbrev seen : ℕ × Store → Run (ℕ × Option ℕ × ℕ)
seen (top, s) = ok (top, (s top).left, (s top).count)

grown_row : (avl_rebalance 3 row 0 >>= seen) ≡ ok (1, some 0, 3)
unfolding code
grown_row = refl

abbrev seen_at : Option ℕ × Store → Run (ℕ × Option ℕ × ℕ)
seen_at (root, s) = deref root >>= λ top. seen (top, s)

delete_root : (avl_delete 4 triple 0 >>= seen_at) ≡ ok (2, some 1, 2)
unfolding code
delete_root = refl

offset_two : avl_offset 4 triple 1 (2 ^ 63 + 2) ≡ ok (some 2)
unfolding code
offset_two = refl

offset_outside : avl_offset 4 triple 1 (2 ^ 63 - 1) ≡ ok none
unfolding code
offset_outside = refl

triple-Distinct : (x : ℕ) → occ x (node one_leaf 0 two_leaf) ≤ 1
triple-Distinct zero = omega arith
triple-Distinct (suc zero) = omega arith
triple-Distinct (suc (suc zero)) = omega arith
triple-Distinct (suc (suc (suc x))) = ground arith

row-Distinct : (x : ℕ) → occ x (node leaf 0 (node leaf 1 two_leaf)) ≤ 1
row-Distinct zero = omega arith
row-Distinct (suc zero) = omega arith
row-Distinct (suc (suc zero)) = omega arith
row-Distinct (suc (suc (suc x))) = ground arith

avl_rebalance-Restored_example :
    Returns (avl_rebalance 3 row 0) (Restored row leaf 0 (node leaf 1 two_leaf) [])
avl_rebalance-Restored_example =
    avl_rebalance-Restored 3 row leaf 0 (node leaf 1 two_leaf) 2 [] (omega arith) (omega arith)
      (λ x. omega (arith, row-Distinct x)) (refl, refl, refl, tt, (refl, tt, (refl, tt, tt))) tt
      (record {
        left = tt;
        right = (tt, (tt, tt, omega arith, omega arith), omega arith, omega arith);
        left_low = omega arith;
        right_low = omega arith;
        not_higher = omega arith;
        not_lower = omega arith;
        above = tt;
      })

avl_delete-Deleted_example :
    Returns (avl_delete 7 triple 0) (Deleted triple (node one_leaf 0 two_leaf) 0 (1 ∷ 2 ∷ []))
avl_delete-Deleted_example =
    avl_delete-Deleted 7 triple one_leaf 0 two_leaf [] (omega arith) (omega arith)
      (λ x. omega (arith, triple-Distinct x)) (refl, (refl, tt, tt), (refl, tt, tt))

avl_offset-nth_example :
    avl_offset 4 triple 1 (2 ^ 63 + 1) ≡ ok (nth (node one_leaf 0 two_leaf) (2 ^ 63 + 1 + (0 + 0)))
avl_offset-nth_example =
    avl_offset-nth 4 triple leaf 1 leaf (in_left 0 two_leaf ∷ []) (2 ^ 63 + 1) (omega arith)
      (omega arith) (omega arith) (λ x. omega (arith, triple-Distinct x))
      (refl, (refl, tt, tt), (refl, tt, tt))
