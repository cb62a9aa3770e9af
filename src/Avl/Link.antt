-- ===== src/Avl/Link.antt =====
-- What it is for the store of src/avl.cpp to hold a tree, and how it stands against writes.
use redis_c.Base.{ℕ, ◌+◌, ◌<◌, ◌≡◌, ◌≢◌, refl, ◌∙◌, Option, some, ==_refl, arith, ap, u32}
use redis_c.Avl.{AvlNode, Store, put, set_parent, avl_depth, avl_count, avl_update, max}
use redis_c.Avl.Tree.{Tree, leaf, node, root_of, depth_of, count_of, occ, Distinct}

-- the node at the root of a tree
abbrev pub cell : Tree → Tree → Option ℕ → AvlNode
cell l r parent = record {
  depth = u32 (1 + max (depth_of l) (depth_of r));
  count = u32 (1 + count_of l + count_of r);
  left = root_of l;
  right = root_of r;
  parent = parent;
}

abbrev pub Linked : Store → Tree → Option ℕ → Type 0
Linked s leaf parent = Unit
Linked s (node l i r) parent = (s i ≡ cell l r parent) × Linked s l (some i) × Linked s r (some i)

-- the same where the depth and the count of the root need not be right
abbrev pub Held : Store → Tree → ℕ → Tree → Option ℕ → Type 0
Held s l i r parent =
    ((s i).left ≡ root_of l)
    × ((s i).right ≡ root_of r)
    × ((s i).parent ≡ parent)
    × Linked s l (some i)
    × Linked s r (some i)

-- outside the tree the stores agree
abbrev pub Spares : Tree → Store → Store → Type 0
Spares t s s' = (j : ℕ) → occ j t ≡ 0 → s' j ≡ s j

-- a tree becomes another one, with its root at a pointer
abbrev pub Placed : Store → Tree → Option ℕ → Tree → Option ℕ → Store → Type 0
Placed s t parent t' root s' = (root ≡ root_of t') × Linked s' t' parent × Spares t s s'

-- the same where the pointer is returned
abbrev pub Becomes : Store → Tree → Option ℕ → Tree → ℕ × Store → Type 0
Becomes s t parent t' out = Placed s t parent t' (some out.0) out.1

pub Linked-Held :
    (s : Store) (l : Tree) (i : ℕ) (r : Tree) (parent : Option ℕ)
    → Linked s (node l i r) parent
    → Held s l i r parent
Linked-Held s l i r parent (e, hl, hr) =
    (ap (λ n. n.left) e, ap (λ n. n.right) e, ap (λ n. n.parent) e, hl, hr)

pub Linked-frame :
    (t : Tree) (s s' : Store) (parent : Option ℕ)
    → ((j : ℕ) → 0 < occ j t → s' j ≡ s j)
    → Linked s t parent
    → Linked s' t parent
Linked-frame leaf s s' parent same h = tt
Linked-frame (node l i r) s s' parent same (e, hl, hr) = (
  same i (ground arith) ∙ e,
  Linked-frame l s s' (some i) (λ j h. same j (ground arith)) hl,
  Linked-frame r s s' (some i) (λ j h. same j (ground arith)) hr,
)

-- one node outside is written
pub Linked-put :
    (t : Tree) (s : Store) (parent : Option ℕ) (i : ℕ) (n : AvlNode)
    → occ i t ≡ 0
    → Linked s t parent
    → Linked (put s i n) t parent
Linked-put t s parent i n away h = Linked-frame t s (put s i n) parent (λ j k. ground arith) h

-- the parent of the root is written
pub Linked-set_parent :
    (t : Tree) (s : Store) (parent parent' : Option ℕ)
    → Distinct t
    → Linked s t parent
    → Linked (set_parent s (root_of t) parent') t parent'
Linked-set_parent leaf s parent parent' d h = tt
Linked-set_parent (node l i r) s parent parent' d (e, hl, hr) = (
  rw (==_refl i, e) refl,
  Linked-put l s (some i) i _ (ground (arith, d i)) hl,
  Linked-put r s (some i) i _ (ground (arith, d i)) hr,
)

pub set_parent-Spares :
    (t : Tree) (s : Store) (parent : Option ℕ) → Spares t s (set_parent s (root_of t) parent)
set_parent-Spares leaf s parent j h = refl
set_parent-Spares (node l i r) s parent j h = ground arith

pub avl_depth-Linked :
    (t : Tree) (s : Store) (parent : Option ℕ)
    → Linked s t parent
    → avl_depth s (root_of t) ≡ depth_of t
avl_depth-Linked leaf s parent h = refl
avl_depth-Linked (node l i r) s parent h = ap (λ n. n.depth) h.0

pub avl_count-Linked :
    (t : Tree) (s : Store) (parent : Option ℕ)
    → Linked s t parent
    → avl_count s (root_of t) ≡ count_of t
avl_count-Linked leaf s parent h = refl
avl_count-Linked (node l i r) s parent h = ap (λ n. n.count) h.0

-- The update makes the node's depth and count right.
pub avl_update-Linked :
    (s : Store) (l : Tree) (i : ℕ) (r : Tree) (parent : Option ℕ)
    → occ i l ≡ 0
    → occ i r ≡ 0
    → Held s l i r parent
    → Linked (avl_update s i) (node l i r) parent
unfolding avl_update
avl_update-Linked s l i r parent away_l away_r (left, right, above, hl, hr) = (
  rw
      (
        ==_refl i,
        left,
        right,
        above,
        avl_depth-Linked l s _ hl,
        avl_depth-Linked r s _ hr,
        avl_count-Linked l s _ hl,
        avl_count-Linked r s _ hr,
      )
      refl,
  Linked-put l s (some i) i _ away_l hl,
  Linked-put r s (some i) i _ away_r hr,
)

pub avl_update-other : (s : Store) (i j : ℕ) → i ≢ j → avl_update s i j ≡ s j
unfolding avl_update
avl_update-other s i j h = ground arith
