-- ===== src/Avl/Delete/Swap.antt =====
-- `take_place`, the second half of `avl_delete` of src/avl.cpp.
use mathlib.Core.Path.{subst}
use redis_c.Base.{
  ℕ, ◌+◌, ◌≤◌, ◌<◌, ◌≡◌, ◌≢◌, refl, sym, ◌∙◌, Option, none, some, List, [], ◌∷◌, ◌==◌, ==_refl,
  if◌then◌else◌, arith, ap,
}
use redis_c.Avl.{Store, set_left, set_right, points_at, copy_node, take_place, replace_child}
use redis_c.Avl.Tree.{
  Tree, node, root_of, occ, occ_up, Crumb, in_left, in_right, parent_of, DistinctIn, plug,
}
use redis_c.Avl.Child.{put_other}
use redis_c.Avl.Link.{Linked, Linked-frame, Linked-put}
use redis_c.Avl.Above.{points_at-root_of}
use redis_c.Avl.Balanced.{plug-Linked}
use redis_c.Avl.Delete.Unlink.{replace_child-set_left, replace_child-set_right}
use redis_c.Avl.Delete.Copied.{copied, copy_node-copied, copied-other, copied-Linked}
use redis_c.Avl.Delete.Locate.{swap_below}

-- a tree seen from one of its nodes
root-plug :
    (up : List Crumb) (t t' : Tree)
    → root_of t' ≡ root_of t
    → root_of (plug t' up) ≡ root_of (plug t up)
root-plug [] t t' same = same
root-plug (in_left i b ∷ up) t t' same = root-plug up (node t i b) (node t' i b) refl
root-plug (in_right b i ∷ up) t t' same = root-plug up (node b i t) (node b i t') refl

-- which nodes are different, at a node, its parent, and a node outside the tree
module _ (l : Tree) (i : ℕ) (r : Tree) (p : ℕ) (b : Tree) (up : List Crumb) (v : ℕ)
    (d : (x : ℕ) → occ x (node l i r) + ((if p == x then 1 else 0) + occ x b + occ_up x up) ≤ 1)
    (out : occ v (node l i r) + ((if p == v then 1 else 0) + occ v b + occ_up v up) ≡ 0) where
  v_out : (i ≢ v) × (p ≢ v) × (occ v l ≡ 0) × (occ v r ≡ 0)
  v_out = ground arith

  i_out : (occ i l ≡ 0) × (occ i r ≡ 0) × (occ i b ≡ 0)
  i_out = ground (arith, d i)

  p_out : (occ p l ≡ 0) × (occ p r ≡ 0)
  p_out = ground (arith, d p)

  p_out_new : occ p (node l v r) ≡ 0
  p_out_new = ground (arith, d p)

  b_out : (j : ℕ) → 0 < occ j b → (p ≢ j) × (v ≢ j) × (occ j l ≡ 0) × (occ j r ≡ 0)
  b_out j h = ground (arith, d j)

  up_out : (j : ℕ) → 0 < occ_up j up → (p ≢ j) × (v ≢ j) × (occ j l ≡ 0) × (occ j r ≡ 0)
  up_out j h = ground (arith, d j)

  children : (x : ℕ) → occ x l + occ x r ≤ 1
  children x = omega (arith, d x)

  outer :
      (j : ℕ)
      → occ j (node l i r) + ((if p == j then 1 else 0) + occ j b + occ_up j up) ≡ 0
      → (p ≢ j) × (occ j l ≡ 0) × (occ j r ≡ 0)
  outer j h = ground arith

-- the tree at a pointer has another node in the place of one
abbrev pub Swapped : Store → Tree → ℕ → Tree → List Crumb → ℕ → Option ℕ × Store → Type 0
Swapped s l i r up v out =
    (out.0 ≡ root_of (plug (node l v r) up))
    × Linked out.1 (plug (node l v r) up) none
    × ((j : ℕ) → v ≢ j → occ j (node l i r) + occ_up j up ≡ 0 → out.1 j ≡ s j)

take_place-root :
    (s : Store) (i v : ℕ) (root : Option ℕ) (s' : Store)
    → copy_node s i v ≡ s'
    → (s' i).parent ≡ none
    → take_place s i v root ≡ (some v, s')
unfolding take_place
take_place-root s i v root s' e parent =
    rw (ap (λ m. (m i).parent) e ∙ parent, take_place) (ap (λ m. (some v, m)) e)

take_place-child :
    (s : Store) (i v : ℕ) (root : Option ℕ) (s' : Store) (p : ℕ)
    → copy_node s i v ≡ s'
    → (s' i).parent ≡ some p
    → take_place s i v root ≡ (root, replace_child s' p i (some v))
unfolding take_place
take_place-child s i v root s' p e parent =
    rw (ap (λ m. (m i).parent) e ∙ parent, take_place)
      (ap (λ m. (root, replace_child m p i (some v))) e)

no_parent :
    (l : Tree) (i : ℕ) (r : Tree) (v : ℕ)
    → ((x : ℕ) → occ x (node l i r) + 0 ≤ 1)
    → occ v (node l i r) + 0 ≡ 0
    → (i ≢ v) × (occ i l ≡ 0) × (occ i r ≡ 0) × (occ v l ≡ 0) × (occ v r ≡ 0)
no_parent l i r v d out = ground (arith, d i)

no_parent_outer :
    (l : Tree) (i : ℕ) (r : Tree) (j : ℕ)
    → occ j (node l i r) + 0 ≡ 0
    → (occ j l ≡ 0) × (occ j r ≡ 0)
no_parent_outer l i r j h = ground arith

pub take_place-Swapped :
    (s : Store) (l : Tree) (i : ℕ) (r : Tree) (up : List Crumb) (v : ℕ) (root : Option ℕ)
    → DistinctIn (node l i r) up
    → occ v (node l i r) + occ_up v up ≡ 0
    → root ≡ root_of (plug (node l i r) up)
    → Linked s (plug (node l i r) up) none
    → Swapped s l i r up v (take_place s i v root)
take_place-Swapped s l i r [] v root d out at_root h =
    let (i_v, i_l, i_r, v_l, v_r) = no_parent l i r v d out in
    let s' = copied s l i r v in
    let same = copied-other s l i r v none v_l v_r h in
    let parent = ap (λ n. n.parent) (same i (λ e. i_v (sym e)) i_l i_r) ∙ ap (λ n. n.parent) h.0 in
    subst (Swapped s l i r [] v)
      (sym (take_place-root s i v root s' (copy_node-copied s l i r v none v_l v_r h) parent))
      (
        refl,
        copied-Linked s l i r v none v_l v_r h (λ x. omega (arith, d x)),
        λ j ne k. let (j_l, j_r) = no_parent_outer l i r j k in same j ne j_l j_r,
      )
take_place-Swapped s l i r (in_left p b ∷ up) v root d out at_root h =
    let (i_v, p_v, v_l, v_r) = v_out l i r p b up v d out in
    let (i_l, i_r, i_b) = i_out l i r p b up v d out in
    let (p_l, p_r) = p_out l i r p b up v d out in
    let ((at_p, hi, hb), above) = plug-Linked up s (node (node l i r) p b) h in
    let s' = copied s l i r v in
    let same = copied-other s l i r v (some p) v_l v_r hi in
    let new = copied-Linked s l i r v (some p) v_l v_r hi (children l i r p b up v d out) in
    let parent = ap (λ n. n.parent) (same i (λ e. i_v (sym e)) i_l i_r) ∙ ap (λ n. n.parent) hi.0 in
    let p_cell = same p (λ e. p_v (sym e)) p_l p_r ∙ at_p in
    let s'' = set_left s' p (some v) in
    let low : Linked s'' (node (node l v r) p b) (parent_of up) = (
      rw (==_refl p, p_cell) refl,
      Linked-put (node l v r) s' (some p) p _ (p_out_new l i r p b up v d out) new,
      Linked-frame b s s'' (some p)
          (λ j k.
            let (j_p, j_v, j_l, j_r) = b_out l i r p b up v d out j k in
            put_other s' p j _ j_p ∙ same j j_v j_l j_r)
          hb,
    ) in
    let run =
      take_place-child s i v root s' p (copy_node-copied s l i r v (some p) v_l v_r hi) parent
      ∙ ap (λ m. (root, m))
          (replace_child-set_left s' p i (some v)
            (ap (λ n. points_at n.left i) p_cell ∙ ==_refl i)) in
    subst (Swapped s l i r (in_left p b ∷ up) v) (sym run) (
      at_root ∙ sym (root-plug up (node (node l i r) p b) (node (node l v r) p b) refl),
      swap_below up s s'' (node (node l i r) p b) (node (node l v r) p b) refl refl refl
          (λ j k.
            let (j_p, j_v, j_l, j_r) = up_out l i r p b up v d out j k in
            put_other s' p j _ j_p ∙ same j j_v j_l j_r)
          h low,
      λ j ne k.
          let (j_p, j_l, j_r) = outer l i r p b up v d out j k in
          put_other s' p j _ j_p ∙ same j ne j_l j_r,
    )
take_place-Swapped s l i r (in_right b p ∷ up) v root d out at_root h =
    let (i_v, p_v, v_l, v_r) = v_out l i r p b up v d out in
    let (i_l, i_r, i_b) = i_out l i r p b up v d out in
    let (p_l, p_r) = p_out l i r p b up v d out in
    let ((at_p, hb, hi), above) = plug-Linked up s (node b p (node l i r)) h in
    let s' = copied s l i r v in
    let same = copied-other s l i r v (some p) v_l v_r hi in
    let new = copied-Linked s l i r v (some p) v_l v_r hi (children l i r p b up v d out) in
    let parent = ap (λ n. n.parent) (same i (λ e. i_v (sym e)) i_l i_r) ∙ ap (λ n. n.parent) hi.0 in
    let p_cell = same p (λ e. p_v (sym e)) p_l p_r ∙ at_p in
    let s'' = set_right s' p (some v) in
    let low : Linked s'' (node b p (node l v r)) (parent_of up) = (
      rw (==_refl p, p_cell) refl,
      Linked-frame b s s'' (some p)
          (λ j k.
            let (j_p, j_v, j_l, j_r) = b_out l i r p b up v d out j k in
            put_other s' p j _ j_p ∙ same j j_v j_l j_r)
          hb,
      Linked-put (node l v r) s' (some p) p _ (p_out_new l i r p b up v d out) new,
    ) in
    let run =
      take_place-child s i v root s' p (copy_node-copied s l i r v (some p) v_l v_r hi) parent
      ∙ ap (λ m. (root, m))
          (replace_child-set_right s' p i (some v)
            (ap (λ n. points_at n.left i) p_cell ∙ points_at-root_of b i i_b)) in
    subst (Swapped s l i r (in_right b p ∷ up) v) (sym run) (
      at_root ∙ sym (root-plug up (node b p (node l i r)) (node b p (node l v r)) refl),
      swap_below up s s'' (node b p (node l i r)) (node b p (node l v r)) refl refl refl
          (λ j k.
            let (j_p, j_v, j_l, j_r) = up_out l i r p b up v d out j k in
            put_other s' p j _ j_p ∙ same j j_v j_l j_r)
          h low,
      λ j ne k.
          let (j_p, j_l, j_r) = outer l i r p b up v d out j k in
          put_other s' p j _ j_p ∙ same j ne j_l j_r,
    )
