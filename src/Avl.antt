-- ===== src/Avl.antt =====
-- src/avl.cpp: the nodes of AVL trees in a store, and the functions on them. A node's address is a
-- number, a pointer that may be null an option of one, and a write gives a new store. Reading
-- through null is a fault, and so is an overflow of `int64_t`. The loops and `avl_delete` take fuel.
pub mod Tree
pub mod Link
pub mod Apart
pub mod RotateRight
pub mod RotateLeft
pub mod Child
pub mod Fix
pub mod Above
pub mod Rebalance
pub mod Height
pub mod Balanced
pub mod Restored
pub mod Delete
pub mod Place
pub mod Descend
pub mod Offset
mod Tests
use redis_c.Base.{
  ℕ, zero, suc, ◌+◌, ◌-◌, ◌^◌, Bool, true, false, ◌&&◌, not, Option, none, some, ltb, leb, ◌==◌,
  if◌then◌else◌, u32, Run, ok, fault, out_of_fuel, deref, ◌>>=◌,
}

pub record AvlNode : Type 0 where
  pub depth : ℕ
  pub count : ℕ
  pub left : Option ℕ
  pub right : Option ℕ
  pub parent : Option ℕ

abbrev pub Store : Type 0
Store = ℕ → AvlNode

abbrev pub put : Store → ℕ → AvlNode → Store
put s i node = λ j. if j == i then node else s j

abbrev pub set_left : Store → ℕ → Option ℕ → Store
set_left s i left = put s i (record (s i) { left = left })

abbrev pub set_right : Store → ℕ → Option ℕ → Store
set_right s i right = put s i (record (s i) { right = right })

-- `if (child) child->parent = parent;`
abbrev pub set_parent : Store → Option ℕ → Option ℕ → Store
set_parent s none parent = s
set_parent s (some i) parent = put s i (record (s i) { parent = parent })

-- `pointer == &node`
abbrev pub points_at : Option ℕ → ℕ → Bool
points_at none node = false
points_at (some i) node = i == node

-- `(parent->left == node ? parent->left : parent->right) = child;`
unfoldable pub replace_child : Store → ℕ → ℕ → Option ℕ → Store
replace_child s parent node child =
    if points_at (s parent).left node then set_left s parent child else set_right s parent child

unfoldable pub avl_init : Store → ℕ → Store
avl_init s node =
    put s node (record { depth = 1; count = 1; left = none; right = none; parent = none })

abbrev pub avl_depth : Store → Option ℕ → ℕ
avl_depth s none = 0
avl_depth s (some node) = (s node).depth

abbrev pub avl_count : Store → Option ℕ → ℕ
avl_count s none = 0
avl_count s (some node) = (s node).count

abbrev pub max : ℕ → ℕ → ℕ
max lhs rhs = if ltb lhs rhs then rhs else lhs

unfoldable pub avl_update : Store → ℕ → Store
avl_update s node =
    let depth = u32 (1 + max (avl_depth s (s node).left) (avl_depth s (s node).right)) in
    let count = u32 (1 + avl_count s (s node).left + avl_count s (s node).right) in
    put s node (record (s node) { depth = depth; count = count })

-- the pointer that is returned, and the store
unfoldable pub rotate_left : Store → ℕ → ℕ × Store
unfolding avl_update
rotate_left s node = elim ((s node).right) [
  | none ↦ (node, s)
  | some new_node ↦
      let s1 = set_parent s (s new_node).left (some node) in
      let s2 = set_right s1 node (s1 new_node).left in
      let s3 = set_left s2 new_node (some node) in
      let s4 = set_parent s3 (some new_node) (s3 node).parent in
      let s5 = set_parent s4 (some node) (some new_node) in
      (new_node, avl_update (avl_update s5 node) new_node)
]

unfoldable pub rotate_right : Store → ℕ → ℕ × Store
unfolding avl_update
rotate_right s node = elim ((s node).left) [
  | none ↦ (node, s)
  | some new_node ↦
      let s1 = set_parent s (s new_node).right (some node) in
      let s2 = set_left s1 node (s1 new_node).right in
      let s3 = set_right s2 new_node (some node) in
      let s4 = set_parent s3 (some new_node) (s3 node).parent in
      let s5 = set_parent s4 (some node) (some new_node) in
      (new_node, avl_update (avl_update s5 node) new_node)
]

-- `root->left = rotate_left(root->left);`
unfoldable pub rotate_left_child : Store → ℕ → ℕ → Store
unfolding rotate_left
rotate_left_child s root child =
    set_left (rotate_left s child).1 root (some (rotate_left s child).0)

unfoldable pub rotate_right_child : Store → ℕ → ℕ → Store
unfolding rotate_right
rotate_right_child s root child =
    set_right (rotate_right s child).1 root (some (rotate_right s child).0)

unfoldable pub avl_fix_left : Store → ℕ → Run (ℕ × Store)
unfolding rotate_left_child rotate_right
avl_fix_left s root = do
  left ← deref (s root).left
  ok (
      if ltb (avl_depth s (s left).left) (avl_depth s (s left).right)
      then rotate_right (rotate_left_child s root left) root
      else rotate_right s root)

unfoldable pub avl_fix_right : Store → ℕ → Run (ℕ × Store)
unfolding rotate_right_child rotate_left
avl_fix_right s root = do
  right ← deref (s root).right
  ok (
      if ltb (avl_depth s (s right).right) (avl_depth s (s right).left)
      then rotate_left (rotate_right_child s root right) root
      else rotate_left s root)

-- the body of the loop up to the fixes, at a node just updated
unfoldable pub fix_node : Store → ℕ → Run (ℕ × Store)
unfolding avl_fix_left avl_fix_right
fix_node s node =
    let l = avl_depth s (s node).left in
    let r = avl_depth s (s node).right in
    if l == u32 (r + 2)
    then avl_fix_left s node
    else if u32 (l + 2) == r
    then avl_fix_right s node
    else ok (node, s)

unfoldable pub avl_rebalance : ℕ → Store → ℕ → Run (ℕ × Store)
unfolding fix_node avl_update
avl_rebalance zero s node = out_of_fuel
avl_rebalance (suc fuel) s node = do
  let updated = avl_update s node
  (top, s') ← fix_node updated node
  elim ((updated node).parent) [
    | none ↦ ok (top, s')
    | some parent ↦
        let from_left = points_at (updated parent).left node in
        let s'' =
          if from_left then set_left s' parent (some top) else set_right s' parent (some top) in
        deref (s'' top).parent >>= avl_rebalance fuel s''
  ]

-- `while (victim->left) { victim = victim->left; }`
unfoldable pub leftmost : ℕ → Store → ℕ → Run ℕ
leftmost zero s victim = out_of_fuel
leftmost (suc fuel) s victim = elim ((s victim).left) [
  | none ↦ ok victim
  | some left ↦ leftmost fuel s left
]

-- the node has no right subtree: its left one takes its place
unfoldable pub replace_by_left : ℕ → Store → ℕ → Run (Option ℕ × Store)
unfolding replace_child avl_rebalance
replace_by_left fuel s node =
    let s' = set_parent s (s node).left (s node).parent in
    elim ((s node).parent) [
      | none ↦ ok ((s' node).left, s')
      | some parent ↦ do
        (root, s'') ← avl_rebalance fuel (replace_child s' parent node (s' node).left) parent
        ok (some root, s'')
    ]

-- `*victim = *node`, with the parents of the children
unfoldable pub copy_node : Store → ℕ → ℕ → Store
copy_node s node victim =
    let s1 = put s victim (s node) in
    let s2 = set_parent s1 (s1 victim).left (some victim) in
    set_parent s2 (s2 victim).right (some victim)

-- the second half of `avl_delete`: `victim` takes the place of `node`
unfoldable pub take_place : Store → ℕ → ℕ → Option ℕ → Option ℕ × Store
unfolding copy_node replace_child
take_place s node victim root = elim ((copy_node s node victim node).parent) [
  | none ↦ (some victim, copy_node s node victim)
  | some parent ↦ (root, replace_child (copy_node s node victim) parent node (some victim))
]

unfoldable pub avl_delete : ℕ → Store → ℕ → Run (Option ℕ × Store)
unfolding leftmost replace_by_left take_place
avl_delete zero s node = out_of_fuel
avl_delete (suc fuel) s node = elim ((s node).right) [
  | none ↦ replace_by_left fuel s node
  | some right ↦ do
    victim ← leftmost fuel s right
    (root, s') ← avl_delete fuel s victim
    ok (take_place s' node victim root)
]

-- `int64_t` values stand for themselves plus 2 ^ 63
abbrev pub int64 : ℕ → ℕ
int64 n = 2 ^ 63 + n

abbrev pub add_int64 : ℕ → ℕ → Run ℕ
add_int64 value n = if ltb (value + n) (2 ^ 64) then ok (value + n) else fault

abbrev pub sub_int64 : ℕ → ℕ → Run ℕ
sub_int64 value n = if leb n value then ok (value - n) else fault

-- which way the loop of `avl_offset` goes
pub data Direction : Type 0 where
  to_right to_left to_parent : Direction

unfoldable pub direction : Store → ℕ → ℕ → ℕ → Run Direction
direction s node offset pos =
    if ltb pos offset
    then (do
      last ← add_int64 pos (avl_count s (s node).right)
      ok (if leb offset last then to_right else to_parent))
    else do
      first ← sub_int64 pos (avl_count s (s node).left)
      ok (if leb first offset then to_left else to_parent)

-- `parent->right == node`, and the position of the parent
unfoldable pub parent_pos : Store → ℕ → ℕ → ℕ → Run ℕ
parent_pos s node parent pos =
    if points_at (s parent).right node
    then sub_int64 pos (u32 (avl_count s (s node).left + 1))
    else add_int64 pos (u32 (avl_count s (s node).right + 1))

unfoldable pub offset_loop : ℕ → Store → ℕ → ℕ → ℕ → Run (Option ℕ)
unfolding direction parent_pos
offset_loop zero s node offset pos = out_of_fuel
offset_loop (suc fuel) s node offset pos = if offset == pos then ok (some node) else do
  way ← direction s node offset pos
  elim way [
    | to_right ↦ do
      right ← deref (s node).right
      pos' ← add_int64 pos (u32 (avl_count s (s right).left + 1))
      offset_loop fuel s right offset pos'
    | to_left ↦ do
      left ← deref (s node).left
      pos' ← sub_int64 pos (u32 (avl_count s (s left).right + 1))
      offset_loop fuel s left offset pos'
    | to_parent ↦ elim ((s node).parent) [
      | none ↦ ok none
      | some parent ↦ do pos' ← parent_pos s node parent pos; offset_loop fuel s parent offset pos'
    ]
  ]

unfoldable pub avl_offset : ℕ → Store → ℕ → ℕ → Run (Option ℕ)
unfolding offset_loop
avl_offset fuel s node offset = offset_loop fuel s node offset (int64 0)
