-- ===== src/Avl/Tree.antt =====
-- Binary trees of node addresses, the shapes behind the pointers of src/avl.cpp, and their
-- rotations.
use redis_c.Base.{
  ℕ, ◌+◌, ◌≤◌, ◌≡◌, Bool, true, false, Option, none, some, List, [], ◌∷◌, ◌++◌, ltb, ◌==◌,
  if◌then◌else◌, u32, arith, Bool-cases, inl, inr, ◌∙◌, refl, append_assoc, ap,
}
use redis_c.Avl.{max}

pub data Tree : Type 0 where
  leaf : Tree
  node : Tree → ℕ → Tree → Tree

abbrev pub root_of : Tree → Option ℕ
root_of leaf = none
root_of (node l i r) = some i

-- the depth and the number of nodes, as `uint32_t`
abbrev pub depth_of : Tree → ℕ
depth_of leaf = 0
depth_of (node l i r) = u32 (1 + max (depth_of l) (depth_of r))

abbrev pub count_of : Tree → ℕ
count_of leaf = 0
count_of (node l i r) = u32 (1 + count_of l + count_of r)

abbrev pub inorder : Tree → List ℕ
inorder leaf = []
inorder (node l i r) = inorder l ++ (i ∷ inorder r)

-- how often an address occurs
abbrev pub occ : ℕ → Tree → ℕ
occ x leaf = 0
occ x (node l i r) = occ x l + (if i == x then 1 else 0) + occ x r

abbrev pub Distinct : Tree → Type 0
Distinct t = (x : ℕ) → occ x t ≤ 1

-- a rotation, where there is a child to lift
abbrev pub turn_left : Tree → Tree
turn_left (node l i (node a k b)) = node (node l i a) k b
turn_left t = t

abbrev pub turn_right : Tree → Tree
turn_right (node (node a k b) i r) = node a k (node b i r)
turn_right t = t

abbrev pub leans_right : Tree → Bool
leans_right leaf = false
leans_right (node l i r) = ltb (depth_of l) (depth_of r)

abbrev pub leans_left : Tree → Bool
leans_left leaf = false
leans_left (node l i r) = ltb (depth_of r) (depth_of l)

unfoldable pub fix_left : Tree → ℕ → Tree → Tree
fix_left l i r = turn_right (node (if leans_right l then turn_left l else l) i r)

unfoldable pub fix_right : Tree → ℕ → Tree → Tree
fix_right l i r = turn_left (node l i (if leans_left r then turn_right r else r))

unfoldable pub balance : Tree → ℕ → Tree → Tree
unfolding fix_left fix_right
balance l i r =
    if depth_of l == u32 (depth_of r + 2)
    then fix_left l i r
    else if u32 (depth_of l + 2) == depth_of r
    then fix_right l i r
    else node l i r

-- One step of the way from a subtree to the root: it is the left, or the right child of a node.
pub data Crumb : Type 0 where
  in_left : ℕ → Tree → Crumb
  in_right : Tree → ℕ → Crumb

abbrev pub plug : Tree → List Crumb → Tree
plug t [] = t
plug t (in_left i r ∷ up) = plug (node t i r) up
plug t (in_right l i ∷ up) = plug (node l i t) up

-- the same with every node on the way balanced
abbrev pub zip_up : Tree → List Crumb → Tree
zip_up t [] = t
zip_up t (in_left i r ∷ up) = zip_up (balance t i r) up
zip_up t (in_right l i ∷ up) = zip_up (balance l i t) up

abbrev pub parent_of : List Crumb → Option ℕ
parent_of [] = none
parent_of (in_left i r ∷ up) = some i
parent_of (in_right l i ∷ up) = some i

abbrev pub size : Tree → ℕ
size leaf = 0
size (node l i r) = size l + 1 + size r

abbrev pub size_up : List Crumb → ℕ
size_up [] = 0
size_up (in_left i r ∷ up) = 1 + size r + size_up up
size_up (in_right l i ∷ up) = 1 + size l + size_up up

-- how often an address occurs in what is above a subtree
abbrev pub occ_up : ℕ → List Crumb → ℕ
occ_up x [] = 0
occ_up x (in_left i r ∷ up) = (if i == x then 1 else 0) + occ x r + occ_up x up
occ_up x (in_right l i ∷ up) = (if i == x then 1 else 0) + occ x l + occ_up x up

abbrev pub DistinctIn : Tree → List Crumb → Type 0
DistinctIn t up = (x : ℕ) → occ x t + occ_up x up ≤ 1

pub depth_of-le : (t : Tree) → depth_of t ≤ size t
depth_of-le leaf = omega arith
depth_of-le (node l i r) = ground (arith, depth_of-le l, depth_of-le r)

occ-turn_left : (x : ℕ) (t : Tree) → occ x (turn_left t) ≡ occ x t
occ-turn_left x leaf = refl
occ-turn_left x (node l i leaf) = refl
occ-turn_left x (node l i (node a k b)) = omega arith

occ-turn_right : (x : ℕ) (t : Tree) → occ x (turn_right t) ≡ occ x t
occ-turn_right x leaf = refl
occ-turn_right x (node leaf i r) = refl
occ-turn_right x (node (node a k b) i r) = omega arith

size-turn_left : (t : Tree) → size (turn_left t) ≡ size t
size-turn_left leaf = refl
size-turn_left (node l i leaf) = refl
size-turn_left (node l i (node a k b)) = omega arith

size-turn_right : (t : Tree) → size (turn_right t) ≡ size t
size-turn_right leaf = refl
size-turn_right (node leaf i r) = refl
size-turn_right (node (node a k b) i r) = omega arith

inorder-turn_left : (t : Tree) → inorder (turn_left t) ≡ inorder t
inorder-turn_left leaf = refl
inorder-turn_left (node l i leaf) = refl
inorder-turn_left (node l i (node a k b)) = simp (append_assoc)

inorder-turn_right : (t : Tree) → inorder (turn_right t) ≡ inorder t
inorder-turn_right leaf = refl
inorder-turn_right (node leaf i r) = refl
inorder-turn_right (node (node a k b) i r) = simp (append_assoc)

-- what all rotations keep, `balance` keeps
balance-keeps {ℓ} :
    {A : Type ℓ} (f : Tree → A)
    → ((t : Tree) → f (turn_left t) ≡ f t)
    → ((t : Tree) → f (turn_right t) ≡ f t)
    → ((l l' : Tree) (i : ℕ) (r : Tree) → f l ≡ f l' → f (node l i r) ≡ f (node l' i r))
    → ((l : Tree) (i : ℕ) (r r' : Tree) → f r ≡ f r' → f (node l i r) ≡ f (node l i r'))
    → (l : Tree) (i : ℕ) (r : Tree) → f (balance l i r) ≡ f (node l i r)
unfolding balance
balance-keeps f keep_l keep_r in_l in_r l i r =
    elim (Bool-cases (depth_of l == u32 (depth_of r + 2))) [
      | inl deep ↦ rw deep (
          keep_r (node (if leans_right l then turn_left l else l) i r)
          ∙ in_l _ l i r (either (leans_right l) l (turn_left l) (keep_l l)))
      | inr other ↦ rw other (elim (Bool-cases (u32 (depth_of l + 2) == depth_of r)) [
        | inl deep ↦ rw deep (
            keep_l (node l i (if leans_left r then turn_right r else r))
            ∙ in_r l i _ r (either (leans_left r) r (turn_right r) (keep_r r)))
        | inr even ↦ rw even refl
      ])
    ]
  where
    either : (b : Bool) (t t' : Tree) → f t' ≡ f t → f (if b then t' else t) ≡ f t
    either true t t' e = e
    either false t t' e = refl

pub occ-balance : (x : ℕ) (l : Tree) (i : ℕ) (r : Tree) → occ x (balance l i r) ≡ occ x (node l i r)
occ-balance x l i r =
    balance-keeps (occ x) (occ-turn_left x) (occ-turn_right x) (λ l l' i r e. omega arith)
      (λ l i r r' e. omega arith) l i r

pub size-balance : (l : Tree) (i : ℕ) (r : Tree) → size (balance l i r) ≡ size l + 1 + size r
size-balance l i r =
    balance-keeps size size-turn_left size-turn_right (λ l l' i r e. omega arith)
      (λ l i r r' e. omega arith) l i r

pub inorder-balance :
    (l : Tree) (i : ℕ) (r : Tree) → inorder (balance l i r) ≡ inorder l ++ (i ∷ inorder r)
inorder-balance l i r =
    balance-keeps inorder inorder-turn_left inorder-turn_right
      (λ l l' i r e. ap (λ xs. xs ++ (i ∷ inorder r)) e)
      (λ l i r r' e. ap (λ xs. inorder l ++ (i ∷ xs)) e) l i r
