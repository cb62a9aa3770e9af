-- ===== src/Avl/Delete/Copied.antt =====
-- The contents of a node at another address, in `avl_delete` of src/avl.cpp.
use redis_c.Base.{ℕ, ◌+◌, ◌≤◌, ◌≡◌, ◌≢◌, refl, ◌∙◌, Option, some, ==_refl, arith, ap}
use redis_c.Avl.{Store, put, set_parent, copy_node}
use redis_c.Avl.Tree.{Tree, node, root_of, occ}
use redis_c.Avl.Child.{put_other}
use redis_c.Avl.Link.{Linked, Linked-frame, Linked-put, Linked-set_parent, set_parent-Spares}

-- the node's contents at another address
pub copied : Store → Tree → ℕ → Tree → ℕ → Store
copied s l i r v = set_parent (set_parent (put s v (s i)) (root_of l) (some v)) (root_of r) (some v)

module _ (s : Store) (l : Tree) (i : ℕ) (r : Tree) (v : ℕ) (parent : Option ℕ) (v_l : occ v l ≡ 0)
    (v_r : occ v r ≡ 0) (h : Linked s (node l i r) parent) where
  at_v : put s v (s i) v ≡ s i
  at_v = rw (==_refl v) refl

  pub copy_node-copied : copy_node s i v ≡ copied s l i r v
  unfolding copy_node copied
  copy_node-copied =
      let s1 = put s v (s i) in
      let left : (s1 v).left ≡ root_of l = ap (λ n. n.left) at_v ∙ ap (λ n. n.left) h.0 in
      let right : (set_parent s1 (root_of l) (some v) v).right ≡ root_of r =
        ap (λ n. n.right) (set_parent-Spares l s1 (some v) v v_l)
        ∙ ap (λ n. n.right) at_v
        ∙ ap (λ n. n.right) h.0 in
      ap (λ a. set_parent (set_parent s1 a (some v)) (set_parent s1 a (some v) v).right (some v))
        left
      ∙ ap (λ b. set_parent (set_parent s1 (root_of l) (some v)) b (some v)) right

  pub copied-other : (j : ℕ) → v ≢ j → occ j l ≡ 0 → occ j r ≡ 0 → copied s l i r v j ≡ s j
  unfolding copied
  copied-other j ne out_l out_r =
      let s1 = put s v (s i) in
      set_parent-Spares r (set_parent s1 (root_of l) (some v)) (some v) j out_r
      ∙ set_parent-Spares l s1 (some v) j out_l
      ∙ put_other s v j _ ne

  pub copied-Linked :
      ((x : ℕ) → occ x l + occ x r ≤ 1) → Linked (copied s l i r v) (node l v r) parent
  unfolding copied
  copied-Linked d =
      let s1 = put s v (s i) in
      let s2 = set_parent s1 (root_of l) (some v) in
      let hl =
        Linked-set_parent l s1 (some i) (some v) (λ x. omega (arith, d x))
          (Linked-put l s (some i) v _ v_l h.1) in
      let hr =
        Linked-frame r s1 s2 (some i)
          (λ j k. set_parent-Spares l s1 (some v) j (omega (arith, d j)))
          (Linked-put r s (some i) v _ v_r h.2) in
      (
        set_parent-Spares r s2 (some v) v v_r ∙ set_parent-Spares l s1 (some v) v v_l ∙ at_v ∙ h.0,
        Linked-frame l s2 (set_parent s2 (root_of r) (some v)) (some v)
            (λ j k. set_parent-Spares r s2 (some v) j (omega (arith, d j))) hl,
        Linked-set_parent r s2 (some i) (some v) (λ x. omega (arith, d x)) hr,
      )
