-- ===== src/Avl/RotateRight.antt =====
-- `rotate_right` of src/avl.cpp on the nodes of a tree.
use mathlib.Core.Path.{subst}
use redis_c.Base.{ℕ, ◌<◌, ◌≡◌, ◌≢◌, refl, sym, ◌∙◌, Option, some, arith, ap}
use redis_c.Avl.{Store, set_left, set_right, set_parent, avl_update, rotate_right}
use redis_c.Avl.Tree.{Tree, leaf, node, root_of, occ, Distinct}
use redis_c.Avl.Apart.{roots_ne, out_i, out_k, in_a, in_b, in_c, b-Distinct, low_k, outside}
use redis_c.Avl.Link.{
  Becomes, Linked, Held, Spares, Linked-frame, Linked-set_parent, avl_update-Linked,
  avl_update-other, set_parent-Spares,
}

-- the store of `rotate_right` before the two updates
lifted_right : Store → ℕ → ℕ → Store
lifted_right s i k =
    let s1 = set_parent s (s k).right (some i) in
    let s2 = set_left s1 i (s1 k).right in
    let s3 = set_right s2 k (some i) in
    let s4 = set_parent s3 (some k) (s3 i).parent in set_parent s4 (some i) (some k)

rotate_right-lifted :
    (s : Store) (i k : ℕ)
    → (s i).left ≡ some k
    → rotate_right s i ≡ (k, avl_update (avl_update (lifted_right s i k) i) k)
unfolding rotate_right lifted_right
rotate_right-lifted s i k h = rw (h, rotate_right) refl

-- the nodes of the store, where `s'` is the store after the first assignment
lifted_right-child :
    (s : Store) (i k : ℕ) (b : Tree)
    → i ≢ k
    → occ i b ≡ 0
    → occ k b ≡ 0
    → (s k).right ≡ root_of b
    → ((lifted_right s i k i).left ≡ root_of b)
      × ((lifted_right s i k i).right ≡ (s i).right)
      × ((lifted_right s i k i).parent ≡ some k)
      × ((lifted_right s i k k).left ≡ (s k).left)
      × ((lifted_right s i k k).right ≡ some i)
      × ((lifted_right s i k k).parent ≡ (s i).parent)
unfolding lifted_right
lifted_right-child s i k leaf ne p q h = ground arith
lifted_right-child s i k (node l x r) ne p q h = ground arith

lifted_right-other :
    (s : Store) (i k j : ℕ) (b : Tree)
    → (s k).right ≡ root_of b
    → i ≢ j
    → k ≢ j
    → lifted_right s i k j ≡ set_parent s (root_of b) (some i) j
unfolding lifted_right
lifted_right-other s i k j b e h h' = rw e (ground arith)

-- The two updates, bottom up, once the pointers are right.
updated-right :
    (s : Store) (a : Tree) (k : ℕ) (b : Tree) (i : ℕ) (c : Tree) (parent : Option ℕ)
    → Distinct (node (node a k b) i c)
    → Held s b i c (some k)
    → ((s k).left ≡ root_of a) × ((s k).right ≡ some i) × ((s k).parent ≡ parent)
    → Linked s a (some k)
    → Linked (avl_update (avl_update s i) k) (node a k (node b i c)) parent
updated-right s a k b i c parent d low (left, right, above) ha =
    let s' = avl_update s i in
    let same = avl_update-other s i k (roots_ne a k b i c d) in
    let out = out_i a k b i c d in
    avl_update-Linked s' a k (node b i c) parent (out_k a k b i c d).0 (low_k a k b i c d) (
      ap (λ n. n.left) same ∙ left,
      ap (λ n. n.right) same ∙ right,
      ap (λ n. n.parent) same ∙ above,
      Linked-frame a s s' (some k) (λ j p. avl_update-other s i j (in_a a k b i c d j p).0) ha,
      avl_update-Linked s b i c (some k) out.1 out.2 low,
    )

module _ (s : Store) (a : Tree) (k : ℕ) (b : Tree) (i : ℕ) (c : Tree) (parent : Option ℕ)
    (d : Distinct (node (node a k b) i c)) (h : Held s (node a k b) i c parent) where
  lifted_right-frame :
      (t : Tree) (p : Option ℕ)
      → ((j : ℕ) → 0 < occ j t → (i ≢ j) × (k ≢ j))
      → Linked (set_parent s (root_of b) (some i)) t p
      → Linked (lifted_right s i k) t p
  lifted_right-frame t p away =
      Linked-frame t (set_parent s (root_of b) (some i)) (lifted_right s i k) p
        λ j q. lifted_right-other s i k j b (ap (λ n. n.right) h.3.0) (away j q).0 (away j q).1

  set_parent-frame :
      (t : Tree) (p : Option ℕ)
      → ((j : ℕ) → 0 < occ j t → occ j b ≡ 0)
      → Linked s t p
      → Linked (set_parent s (root_of b) (some i)) t p
  set_parent-frame t p away =
      Linked-frame t s (set_parent s (root_of b) (some i)) p
        λ j q. set_parent-Spares b s (some i) j (away j q)

  updated-Spares :
      Spares (node (node a k b) i c) s (avl_update (avl_update (lifted_right s i k) i) k)
  updated-Spares j q =
      let out = outside a k b i c d j q in
      avl_update-other (avl_update (lifted_right s i k) i) k j out.1
      ∙ avl_update-other (lifted_right s i k) i j out.0
      ∙ lifted_right-other s i k j b (ap (λ n. n.right) h.3.0) out.0 out.1
      ∙ set_parent-Spares b s (some i) j out.2

  pub rotate_right-Linked :
      Becomes s (node (node a k b) i c) parent (node a k (node b i c)) (rotate_right s i)
  rotate_right-Linked =
      let right = ap (λ n. n.right) h.3.0 in
      let out = out_i a k b i c d in
      let e = lifted_right-child s i k b (roots_ne a k b i c d) out.1 (out_k a k b i c d).1 right in
      let set_b = Linked-set_parent b s (some k) (some i) (b-Distinct a k b i c d) h.3.2 in
      let set_c = set_parent-frame c (some i) (λ j q. (in_c a k b i c d j q).3) h.4 in
      let set_a = set_parent-frame a (some k) (λ j q. (in_a a k b i c d j q).2) h.3.1 in
      let hb =
        lifted_right-frame b (some i) (λ j q. let x = in_b a k b i c d j q in (x.0, x.1)) set_b in
      let hc =
        lifted_right-frame c (some i) (λ j q. let x = in_c a k b i c d j q in (x.0, x.1)) set_c in
      let ha =
        lifted_right-frame a (some k) (λ j q. let x = in_a a k b i c d j q in (x.0, x.1)) set_a in
      let linked =
        updated-right (lifted_right s i k) a k b i c parent d (e.0, e.1 ∙ h.1, e.2, hb, hc)
          (e.3 ∙ ap (λ n. n.left) h.3.0, e.4, e.5 ∙ h.2) ha in
      subst (Becomes s (node (node a k b) i c) parent (node a k (node b i c)))
        (sym (rotate_right-lifted s i k h.0)) (refl, linked, updated-Spares)
