-- ===== src/Avl/Above.antt =====
-- What stands above a subtree in the store of src/avl.cpp: the way to the root, with the subtrees
-- beside it. Its depths and counts need not be right.
use mathlib.Core.Path.{subst}
use redis_c.Base.{
  ℕ, ◌+◌, ◌≤◌, ◌<◌, ◌≡◌, ◌≢◌, refl, sym, ◌∙◌, false, Option, none, some, List, [], ◌∷◌, ◌==◌,
  ==_refl, if◌then◌else◌, arith, ap,
}
use redis_c.Avl.{AvlNode, Store, put, set_left, set_right, points_at}
use redis_c.Avl.Tree.{Tree, leaf, node, root_of, occ, occ_up, Crumb, in_left, in_right, parent_of}
use redis_c.Avl.Child.{put_other}
use redis_c.Avl.Link.{Placed, Linked, Held, Linked-frame, Linked-put}

abbrev pub Above : Store → Option ℕ → List Crumb → Type 0
Above s focus [] = Unit
Above s focus (in_left i r ∷ up) =
    ((s i).left ≡ focus)
    × ((s i).right ≡ root_of r)
    × ((s i).parent ≡ parent_of up)
    × Linked s r (some i)
    × Above s (some i) up
Above s focus (in_right l i ∷ up) =
    ((s i).right ≡ focus)
    × ((s i).left ≡ root_of l)
    × ((s i).parent ≡ parent_of up)
    × Linked s l (some i)
    × Above s (some i) up

pub Above-frame :
    (up : List Crumb) (s s' : Store) (focus : Option ℕ)
    → ((j : ℕ) → 0 < occ_up j up → s' j ≡ s j)
    → Above s focus up
    → Above s' focus up
Above-frame [] s s' focus same h = tt
Above-frame (in_left i r ∷ up) s s' focus same (child, right, above, hr, hup) =
    let e = same i (ground arith) in
    (
      ap (λ n. n.left) e ∙ child,
      ap (λ n. n.right) e ∙ right,
      ap (λ n. n.parent) e ∙ above,
      Linked-frame r s s' (some i) (λ j p. same j (ground arith)) hr,
      Above-frame up s s' (some i) (λ j p. same j (ground arith)) hup,
    )
Above-frame (in_right l i ∷ up) s s' focus same (child, left, above, hl, hup) =
    let e = same i (ground arith) in
    (
      ap (λ n. n.right) e ∙ child,
      ap (λ n. n.left) e ∙ left,
      ap (λ n. n.parent) e ∙ above,
      Linked-frame l s s' (some i) (λ j p. same j (ground arith)) hl,
      Above-frame up s s' (some i) (λ j p. same j (ground arith)) hup,
    )

pub points_at-root_of : (t : Tree) (i : ℕ) → occ i t ≡ 0 → points_at (root_of t) i ≡ false
points_at-root_of leaf i h = refl
points_at-root_of (node l x r) i h = ground arith

-- which nodes are different, at a node `i` above the subtree `t` with the sibling `b`
module _ (t : Tree) (i : ℕ) (b : Tree) (up : List Crumb)
    (d : (x : ℕ) → occ x t + ((if i == x then 1 else 0) + occ x b + occ_up x up) ≤ 1) where
  pub parent_out : (occ i t ≡ 0) × (occ i b ≡ 0) × (occ_up i up ≡ 0)
  parent_out = ground (arith, d i)

  pub beside : (j : ℕ) → 0 < occ j b → (i ≢ j) × (occ j t ≡ 0)
  beside j h = ground (arith, d j)

  pub higher : (j : ℕ) → 0 < occ_up j up → (i ≢ j) × (occ j t ≡ 0)
  higher j h = ground (arith, d j)

  pub lower : (j : ℕ) → 0 < occ j t → i ≢ j
  lower j h = ground (arith, d j)

-- The subtree becomes another one, and the node above it gets the pointer.
module _ (s : Store) (t t' : Tree) (i : ℕ) (b : Tree) (up : List Crumb) (root : Option ℕ)
    (s' : Store) (d : (x : ℕ) → occ x t + ((if i == x then 1 else 0) + occ x b + occ_up x up) ≤ 1)
    (away : occ i t' ≡ 0) (placed : Placed s t (some i) t' root s') where
  kept : (j : ℕ) → occ j t ≡ 0 → s' j ≡ s j
  kept = placed.2

  spared : (j : ℕ) (n : AvlNode) → i ≢ j → occ j t ≡ 0 → put s' i n j ≡ s j
  spared j n ne h = put_other s' i j n ne ∙ kept j h

  pub set_left-Above :
      ((s i).right ≡ root_of b)
        × ((s i).parent ≡ parent_of up)
        × Linked s b (some i)
        × Above s (some i) up
      → Held (set_left s' i root) t' i b (parent_of up) × Above (set_left s' i root) (some i) up
  set_left-Above (right, above, hb, hup) =
      let (out_t, out_b, out_up) = parent_out t i b up d in
      let at_i = kept i out_t in
      (
        (
          rw (==_refl i) placed.0,
          rw (==_refl i) (ap (λ n. n.right) at_i ∙ right),
          rw (==_refl i) (ap (λ n. n.parent) at_i ∙ above),
          Linked-put t' s' (some i) i _ (away) placed.1,
          Linked-frame b s (set_left s' i root) (some i)
              (λ j h. let (ne, out) = beside t i b up d j h in spared j _ ne out) hb,
        ),
        Above-frame up s (set_left s' i root) (some i)
            (λ j h. let (ne, out) = higher t i b up d j h in spared j _ ne out) hup,
      )

  pub set_right-Above :
      ((s i).left ≡ root_of b)
        × ((s i).parent ≡ parent_of up)
        × Linked s b (some i)
        × Above s (some i) up
      → Held (set_right s' i root) b i t' (parent_of up) × Above (set_right s' i root) (some i) up
  set_right-Above (left, above, hb, hup) =
      let (out_t, out_b, out_up) = parent_out t i b up d in
      let at_i = kept i out_t in
      (
        (
          rw (==_refl i) (ap (λ n. n.left) at_i ∙ left),
          rw (==_refl i) placed.0,
          rw (==_refl i) (ap (λ n. n.parent) at_i ∙ above),
          Linked-frame b s (set_right s' i root) (some i)
              (λ j h. let (ne, out) = beside t i b up d j h in spared j _ ne out) hb,
          Linked-put t' s' (some i) i _ (away) placed.1,
        ),
        Above-frame up s (set_right s' i root) (some i)
            (λ j h. let (ne, out) = higher t i b up d j h in spared j _ ne out) hup,
      )

none-some : (x : ℕ) → some x ≢ none
none-some x e = cc

some_inj : (x y : ℕ) → some x ≡ some y → x ≡ y
some_inj x y e = cc

occ_root : (l : Tree) (i : ℕ) (r : Tree) → 0 < occ i (node l i r)
occ_root l i r = ground arith

-- the root of a tree points to its parent
pub root-parent :
    (s : Store) (t : Tree) (parent : Option ℕ) (root : ℕ)
    → Linked s t parent
    → some root ≡ root_of t
    → (0 < occ root t) × ((s root).parent ≡ parent)
root-parent s leaf parent root h e = absurd (none-some root e)
root-parent s (node l i r) parent root h e =
    let same : root ≡ i = some_inj root i e in
    subst (λ x. (0 < occ x (node l i r)) × ((s x).parent ≡ parent)) (sym same)
      (occ_root l i r, ap (λ n. n.parent) h.0)
