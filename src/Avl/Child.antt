-- ===== src/Avl/Child.antt =====
-- The pointer to a child in the store of src/avl.cpp, set after a change below it.
use redis_c.Base.{ℕ, ◌<◌, ◌≡◌, ◌≢◌, refl, ◌∙◌, Option, some, ==_refl, arith}
use redis_c.Avl.{AvlNode, Store, put, set_left, set_right}
use redis_c.Avl.Tree.{Tree, node, occ, Distinct}
use redis_c.Avl.Link.{Becomes, Linked, Held, Spares, Linked-frame, Linked-put, cell}

pub put_other : (s : Store) (i j : ℕ) (n : AvlNode) → i ≢ j → put s i n j ≡ s j
put_other s i j n h = ground arith

module _ (l : Tree) (i : ℕ) (r : Tree) (d : Distinct (node l i r)) where
  pub left-Distinct : Distinct l
  left-Distinct x = omega (arith, d x)

  pub right-Distinct : Distinct r
  right-Distinct x = omega (arith, d x)

  pub not_in : (occ i l ≡ 0) × (occ i r ≡ 0)
  not_in = ground (arith, d i)

  pub not_in_right : (j : ℕ) → 0 < occ j r → (i ≢ j) × (occ j l ≡ 0)
  not_in_right j h = ground (arith, d j)

  pub not_in_left : (j : ℕ) → 0 < occ j l → (i ≢ j) × (occ j r ≡ 0)
  not_in_left j h = ground (arith, d j)

  pub not_in_node : (j : ℕ) → occ j (node l i r) ≡ 0 → (i ≢ j) × (occ j l ≡ 0) × (occ j r ≡ 0)
  not_in_node j h = ground arith

-- the left subtree becomes another one, and the pointer to it is stored
pub set_left-Held :
    (s : Store) (l : Tree) (i : ℕ) (r : Tree) (parent : Option ℕ) (l' : Tree) (out : ℕ × Store)
    → Distinct (node l i r)
    → ((x : ℕ) → occ x l' ≡ occ x l)
    → Linked s (node l i r) parent
    → Becomes s l (some i) l' out
    → Held (set_left out.1 i (some out.0)) l' i r parent
set_left-Held s l i r parent l' out d same h (root, linked, spares) =
    let (out_l, out_r) = not_in l i r d in
    let at_i : out.1 i ≡ cell l r parent = spares i out_l ∙ h.0 in
    let kept = Linked-frame r s out.1 (some i) (λ j q. spares j (not_in_right l i r d j q).1) h.2 in
    (
      rw (==_refl i) root,
      rw (==_refl i, at_i) refl,
      rw (==_refl i, at_i) refl,
      Linked-put l' out.1 (some i) i _ (same i ∙ out_l) linked,
      Linked-put r out.1 (some i) i _ out_r kept,
    )

pub set_left-Spares :
    (s : Store) (l : Tree) (i : ℕ) (r : Tree) (parent : Option ℕ) (l' : Tree) (out : ℕ × Store)
    → Distinct (node l i r)
    → Becomes s l (some i) l' out
    → Spares (node l i r) s (set_left out.1 i (some out.0))
set_left-Spares s l i r parent l' out d becomes j h =
    let (ne, out_l, out_r) = not_in_node l i r d j h in put_other out.1 i j _ ne ∙ becomes.2 j out_l

pub set_right-Held :
    (s : Store) (l : Tree) (i : ℕ) (r : Tree) (parent : Option ℕ) (r' : Tree) (out : ℕ × Store)
    → Distinct (node l i r)
    → ((x : ℕ) → occ x r' ≡ occ x r)
    → Linked s (node l i r) parent
    → Becomes s r (some i) r' out
    → Held (set_right out.1 i (some out.0)) l i r' parent
set_right-Held s l i r parent r' out d same h (root, linked, spares) =
    let (out_l, out_r) = not_in l i r d in
    let at_i : out.1 i ≡ cell l r parent = spares i out_r ∙ h.0 in
    let kept = Linked-frame l s out.1 (some i) (λ j q. spares j (not_in_left l i r d j q).1) h.1 in
    (
      rw (==_refl i, at_i) refl,
      rw (==_refl i) root,
      rw (==_refl i, at_i) refl,
      Linked-put l out.1 (some i) i _ out_l kept,
      Linked-put r' out.1 (some i) i _ (same i ∙ out_r) linked,
    )

pub set_right-Spares :
    (s : Store) (l : Tree) (i : ℕ) (r : Tree) (parent : Option ℕ) (r' : Tree) (out : ℕ × Store)
    → Distinct (node l i r)
    → Becomes s r (some i) r' out
    → Spares (node l i r) s (set_right out.1 i (some out.0))
set_right-Spares s l i r parent r' out d becomes j h =
    let (ne, out_l, out_r) = not_in_node l i r d j h in put_other out.1 i j _ ne ∙ becomes.2 j out_r

pub Becomes-trans :
    (s s' : Store) (t t' t'' : Tree) (parent : Option ℕ) (out : ℕ × Store)
    → ((x : ℕ) → occ x t' ≡ occ x t)
    → Spares t s s'
    → Becomes s' t' parent t'' out
    → Becomes s t parent t'' out
Becomes-trans s s' t t' t'' parent out same spares (root, linked, spares') =
    (root, linked, λ j h. spares' j (same j ∙ h) ∙ spares j h)
