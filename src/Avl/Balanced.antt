-- ===== src/Avl/Balanced.antt =====
-- The way up from a changed subtree in the trees of src/avl.cpp: order, size and balance.
use redis_c.Base.{
  ℕ, ◌+◌, ◌≤◌, ◌<◌, ◌^◌, ◌≡◌, none, List, [], ◌∷◌, ◌++◌, arith, max, append-nil, append_assoc,
}
use redis_c.Avl.{Store}
use redis_c.Avl.Tree.{
  Tree, node, root_of, size, size_up, occ, occ_up, Crumb, in_left, in_right, parent_of, balance,
  zip_up, plug, inorder, inorder-balance, size-balance, occ-balance,
}
use redis_c.Avl.Height.{height, IsAvl, balance-IsAvl}
use redis_c.Avl.Link.{Linked, Linked-Held}
use redis_c.Avl.Above.{Above}

-- the nodes above a subtree of the given height are balanced
abbrev pub BalancedUp : ℕ → List Crumb → Type 0
BalancedUp h [] = Unit
BalancedUp h (in_left i r ∷ up) =
    IsAvl r × (h ≤ height r + 1) × (height r ≤ h + 1) × BalancedUp (1 + max h (height r)) up
BalancedUp h (in_right l i ∷ up) =
    IsAvl l × (height l ≤ h + 1) × (h ≤ height l + 1) × BalancedUp (1 + max (height l) h) up

pub plug-IsAvl :
    (up : List Crumb) (t : Tree) → IsAvl (plug t up) → IsAvl t × BalancedUp (height t) up
plug-IsAvl [] t h = (h, tt)
plug-IsAvl (in_left i r ∷ up) t h =
    let ((ht, hr, p, q), above) = plug-IsAvl up (node t i r) h in (ht, (hr, p, q, above))
plug-IsAvl (in_right l i ∷ up) t h =
    let ((hl, ht, p, q), above) = plug-IsAvl up (node l i t) h in (ht, (hl, p, q, above))

near :
    (x r h b : ℕ)
    → x ≤ h + 1
    → h ≤ x + 1
    → h ≤ r + 1
    → r ≤ h + 1
    → max x r ≤ b
    → b ≤ 1 + max x r
    → (x ≤ r + 1 → r ≤ x + 1 → b ≡ 1 + max x r)
    → (b ≤ 1 + max h r + 1) × (1 + max h r ≤ b + 1)
near x r h b p q u v lo hi same = grind arith

near' :
    (x l h b : ℕ)
    → x ≤ h + 1
    → h ≤ x + 1
    → l ≤ h + 1
    → h ≤ l + 1
    → max l x ≤ b
    → b ≤ 1 + max l x
    → (l ≤ x + 1 → x ≤ l + 1 → b ≡ 1 + max l x)
    → (b ≤ 1 + max l h + 1) × (1 + max l h ≤ b + 1)
near' x l h b p q u v lo hi same = grind arith

pub zip_up-IsAvl :
    (up : List Crumb) (t : Tree) (h : ℕ)
    → size t + size_up up < 2 ^ 31
    → IsAvl t
    → height t ≤ h + 1
    → h ≤ height t + 1
    → BalancedUp h up
    → IsAvl (zip_up t up)
zip_up-IsAvl [] t h small avl p q above = avl
zip_up-IsAvl (in_left i r ∷ up) t h small avl p q (hr, x, y, above) =
    let ((avl', lo, hi), same) =
      balance-IsAvl t i r (omega arith) avl hr (omega arith) (omega arith) in
    let close = near (height t) (height r) h (height (balance t i r)) p q x y lo hi same in
    zip_up-IsAvl up (balance t i r) (1 + max h (height r)) (omega (arith, size-balance t i r)) avl'
      close.0 close.1 above
zip_up-IsAvl (in_right l i ∷ up) t h small avl p q (hl, x, y, above) =
    let ((avl', lo, hi), same) =
      balance-IsAvl l i t (omega arith) hl avl (omega arith) (omega arith) in
    let close = near' (height t) (height l) h (height (balance l i t)) p q x y lo hi same in
    zip_up-IsAvl up (balance l i t) (1 + max (height l) h) (omega (arith, size-balance l i t)) avl'
      close.0 close.1 above

-- the nodes before and after those of the subtree
abbrev pub before : List Crumb → List ℕ
before [] = []
before (in_left i r ∷ up) = before up
before (in_right l i ∷ up) = before up ++ (inorder l ++ (i ∷ []))

abbrev pub after : List Crumb → List ℕ
after [] = []
after (in_left i r ∷ up) = (i ∷ inorder r) ++ after up
after (in_right l i ∷ up) = after up

pub inorder-plug :
    (up : List Crumb) (t : Tree) → inorder (plug t up) ≡ before up ++ (inorder t ++ after up)
inorder-plug [] t = simp (append-nil)
inorder-plug (in_left i r ∷ up) t = simp (inorder-plug up (node t i r), append_assoc)
inorder-plug (in_right l i ∷ up) t = simp (inorder-plug up (node l i t), append_assoc)

pub inorder-zip_up :
    (up : List Crumb) (t : Tree) → inorder (zip_up t up) ≡ before up ++ (inorder t ++ after up)
inorder-zip_up [] t = simp (append-nil)
inorder-zip_up (in_left i r ∷ up) t =
    simp (inorder-zip_up up (balance t i r), inorder-balance t i r, append_assoc)
inorder-zip_up (in_right l i ∷ up) t =
    simp (inorder-zip_up up (balance l i t), inorder-balance l i t, append_assoc)

pub size-zip_up : (up : List Crumb) (t : Tree) → size (zip_up t up) ≡ size t + size_up up
size-zip_up [] t = omega arith
size-zip_up (in_left i r ∷ up) t = omega (arith, size-zip_up up (balance t i r), size-balance t i r)
size-zip_up (in_right l i ∷ up) t =
    omega (arith, size-zip_up up (balance l i t), size-balance l i t)

pub size-plug : (up : List Crumb) (t : Tree) → size (plug t up) ≡ size t + size_up up
size-plug [] t = omega arith
size-plug (in_left i r ∷ up) t = omega (arith, size-plug up (node t i r))
size-plug (in_right l i ∷ up) t = omega (arith, size-plug up (node l i t))

pub occ-zip_up : (x : ℕ) (up : List Crumb) (t : Tree) → occ x (zip_up t up) ≡ occ x t + occ_up x up
occ-zip_up x [] t = omega arith
occ-zip_up x (in_left i r ∷ up) t =
    omega (arith, occ-zip_up x up (balance t i r), occ-balance x t i r)
occ-zip_up x (in_right l i ∷ up) t =
    omega (arith, occ-zip_up x up (balance l i t), occ-balance x l i t)

pub occ-plug : (x : ℕ) (up : List Crumb) (t : Tree) → occ x (plug t up) ≡ occ x t + occ_up x up
occ-plug x [] t = omega arith
occ-plug x (in_left i r ∷ up) t = omega (arith, occ-plug x up (node t i r))
occ-plug x (in_right l i ∷ up) t = omega (arith, occ-plug x up (node l i t))

-- a whole tree seen from one of its subtrees
pub plug-Linked :
    (up : List Crumb) (s : Store) (t : Tree)
    → Linked s (plug t up) none
    → Linked s t (parent_of up) × Above s (root_of t) up
plug-Linked [] s t h = (h, tt)
plug-Linked (in_left i r ∷ up) s t h =
    let (linked, above) = plug-Linked up s (node t i r) h in
    let (left, right, parent, ht, hr) = Linked-Held s t i r (parent_of up) linked in
    (ht, (left, right, parent, hr, above))
plug-Linked (in_right l i ∷ up) s t h =
    let (linked, above) = plug-Linked up s (node l i t) h in
    let (left, right, parent, hl, ht) = Linked-Held s l i t (parent_of up) linked in
    (ht, (right, left, parent, hl, above))
