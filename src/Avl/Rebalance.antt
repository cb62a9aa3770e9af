-- ===== src/Avl/Rebalance.antt =====
-- `avl_rebalance` of src/avl.cpp: the way up to the root, with every node on it balanced.
use mathlib.Core.Path.{subst}
use redis_c.Base.{
  ℕ, zero, suc, ◌+◌, ◌≤◌, ◌<◌, ◌^◌, ◌≡◌, ◌≢◌, refl, ◌∙◌, none, some, List, [], ◌∷◌, ◌==◌, ==_refl,
  if◌then◌else◌, arith, ap, length, Returns,
}
use redis_c.Avl.{AvlNode, Store, put, set_left, set_right, avl_update, fix_node, avl_rebalance}
use redis_c.Avl.Tree.{
  Tree, node, root_of, occ, occ_up, size, size_up, Crumb, in_left, in_right, parent_of, DistinctIn,
  balance, zip_up, depth_of-le, occ-balance, size-balance,
}
use redis_c.Avl.Child.{put_other}
use redis_c.Avl.Link.{Becomes, Linked, Held, Spares, avl_update-Linked, avl_update-other}
use redis_c.Avl.Above.{
  Above, Above-frame, points_at-root_of, set_left-Above, set_right-Above, root-parent, parent_out,
}
use redis_c.Avl.Fix.{fix_node-Linked}

-- the whole tree above a subtree, after the run
abbrev pub Zipped : Store → Tree → List Crumb → Tree → ℕ × Store → Type 0
Zipped s t up t' out =
    (some out.0 ≡ root_of t')
    × Linked out.1 t' none
    × ((j : ℕ) → occ j t + occ_up j up ≡ 0 → out.1 j ≡ s j)

module _ (l : Tree) (i : ℕ) (r : Tree) (up : List Crumb) (d : DistinctIn (node l i r) up) where
  away_i : (occ i l ≡ 0) × (occ i r ≡ 0)
  away_i = ground (arith, d i)

  up_ne : (j : ℕ) → 0 < occ_up j up → i ≢ j
  up_ne j h = ground (arith, d j)

  sub-Distinct : (x : ℕ) → occ x (node l i r) ≤ 1
  sub-Distinct x = omega (arith, d x)

root_away :
    (l : Tree) (i : ℕ) (r : Tree) (j : ℕ)
    → occ j (node l i r) + 0 ≡ 0
    → (i ≢ j) × (occ j (node l i r) ≡ 0)
root_away l i r j h = ground arith

differ : (p x : ℕ) (t : Tree) → occ p t ≡ 0 → 0 < occ x t → p ≢ x
differ p x t away inside e = omega (arith, ap (λ y. occ y t) e)

not_beside :
    (l : Tree) (i : ℕ) (r : Tree) (p : ℕ) (b : Tree) (up : List Crumb)
    → ((x : ℕ) → occ x (node l i r) + ((if p == x then 1 else 0) + occ x b + occ_up x up) ≤ 1)
    → occ i b ≡ 0
not_beside l i r p b up d = ground (arith, d i)

outside :
    (l : Tree) (i : ℕ) (r : Tree) (p : ℕ) (b t' : Tree) (up : List Crumb)
    → ((x : ℕ) → occ x t' ≡ (if p == x then 1 else 0) + occ x b + occ x (node l i r))
    → (j : ℕ) → occ j (node l i r) + ((if p == j then 1 else 0) + occ j b + occ_up j up) ≡ 0
    → (i ≢ j) × (p ≢ j) × (occ j (node l i r) ≡ 0) × (occ j t' + occ_up j up ≡ 0)
outside l i r p b t' up same j h = ground (arith, same j)

-- one round of the loop up to the choice of the parent: the subtree is balanced
balanced :
    (s : Store) (l : Tree) (i : ℕ) (r : Tree) (up : List Crumb)
    → size l + 1 + size r + size_up up < 2 ^ 31
    → DistinctIn (node l i r) up
    → Held s l i r (parent_of up)
    → Above s (some i) up
    → Returns
        (fix_node (avl_update s i) i)
        (Becomes (avl_update s i) (node l i r) (parent_of up) (balance l i r))
      × ((avl_update s i i).parent ≡ parent_of up)
      × Above (avl_update s i) (some i) up
balanced s l i r up small d held above =
    let (out_l, out_r) = away_i l i r up d in
    let linked = avl_update-Linked s l i r (parent_of up) out_l out_r held in
    (
      fix_node-Linked (avl_update s i) l i r (parent_of up) (omega (arith, depth_of-le l))
          (omega (arith, depth_of-le r)) (sub-Distinct l i r up d) linked,
      ap (λ n. n.parent) linked.0,
      Above-frame up s (avl_update s i) (some i)
          (λ j h. avl_update-other s i j (up_ne l i r up d j h)) above,
    )

-- the pointer stored above leaves the parent of the new root as it is
top-parent :
    (s : Store) (t t' : Tree) (p : ℕ) (out : ℕ × Store) (n : AvlNode)
    → occ p t ≡ 0
    → ((x : ℕ) → occ x t' ≡ occ x t)
    → Becomes s t (some p) t' out
    → (put out.1 p n out.0).parent ≡ some p
top-parent s t t' p out n away same (root, linked, spares) =
    let (inside, parent) = root-parent out.1 t' (some p) out.0 linked root in
    let ne : p ≢ out.0 = λ e. differ p out.0 t away (subst (λ k. 0 < k) (same out.0) inside) e in
    ap (λ m. m.parent) (put_other out.1 p out.0 n ne) ∙ parent

-- the run of the rest of the loop, after a round at `i` and the pointer stored in `p`
Zipped-round :
    (s : Store) (l : Tree) (i : ℕ) (r : Tree) (p : ℕ) (b t' t'' : Tree) (up : List Crumb)
    (out out' : ℕ × Store) (n : AvlNode)
    → ((x : ℕ) → occ x t' ≡ (if p == x then 1 else 0) + occ x b + occ x (node l i r))
    → Spares (node l i r) (avl_update s i) out.1
    → Zipped (put out.1 p n) t' up t'' out'
    → ((j : ℕ)
        → occ j (node l i r) + ((if p == j then 1 else 0) + occ j b + occ_up j up) ≡ 0
        → out'.1 j ≡ s j)
Zipped-round s l i r p b t' t'' up out out' n same spares (root, linked, rest) j h =
    let (ne_i, ne_p, away, away') = outside l i r p b t' up same j h in
    rest j away' ∙ put_other out.1 p j n ne_p ∙ spares j away ∙ avl_update-other s i j ne_i

pub avl_rebalance-Zipped :
    (up : List Crumb) (fuel : ℕ) (s : Store) (l : Tree) (i : ℕ) (r : Tree)
    → length up < fuel
    → size l + 1 + size r + size_up up < 2 ^ 31
    → DistinctIn (node l i r) up
    → Held s l i r (parent_of up)
    → Above s (some i) up
    → Returns (avl_rebalance fuel s i) (Zipped s (node l i r) up (zip_up (balance l i r) up))
unfolding avl_rebalance
avl_rebalance-Zipped up zero s l i r enough small d held above = absurd (omega arith)
avl_rebalance-Zipped [] (suc fuel) s l i r enough small d held above =
    let ((out, run, becomes), parent, above') = balanced s l i r [] small d held above in
    rw (run, parent)
      (
        out,
        refl,
        (
          becomes.0,
          becomes.1,
          λ j h.
              becomes.2 j (root_away l i r j h).1 ∙ avl_update-other s i j (root_away l i r j h).0,
        ),
      )
avl_rebalance-Zipped (in_left p b ∷ up) (suc fuel) s l i r enough small d held above =
    let ((out, run, becomes), parent, above') =
      balanced s l i r (in_left p b ∷ up) small d held above in
    let same = λ (x : ℕ). occ-balance x l i r in
    let t = balance l i r in
    let s' = set_left out.1 p (some out.0) in
    let (held', up') =
      set_left-Above (avl_update s i) (node l i r) t p b up (some out.0) out.1 d
        (same p ∙ (parent_out (node l i r) p b up d).0) becomes
        (above'.1, above'.2, above'.3, above'.4) in
    let top =
      top-parent (avl_update s i) (node l i r) t p out (record (out.1 p) { left = some out.0 })
        (parent_out (node l i r) p b up d).0 same becomes in
    let (out', run', zipped) =
      avl_rebalance-Zipped up fuel s' t p b (omega arith) (omega (arith, size-balance l i r))
        (λ x. omega (arith, d x, same x)) held' up' in
    rw (run, parent, above'.0, ==_refl i, top, run')
      (
        out',
        refl,
        (
          zipped.0,
          zipped.1,
          Zipped-round s l i r p b (node t p b) _ up out out' _ (λ x. omega (arith, same x))
              becomes.2 zipped,
        ),
      )
avl_rebalance-Zipped (in_right b p ∷ up) (suc fuel) s l i r enough small d held above =
    let ((out, run, becomes), parent, above') =
      balanced s l i r (in_right b p ∷ up) small d held above in
    let same = λ (x : ℕ). occ-balance x l i r in
    let t = balance l i r in
    let s' = set_right out.1 p (some out.0) in
    let (held', up') =
      set_right-Above (avl_update s i) (node l i r) t p b up (some out.0) out.1 d
        (same p ∙ (parent_out (node l i r) p b up d).0) becomes
        (above'.1, above'.2, above'.3, above'.4) in
    let top =
      top-parent (avl_update s i) (node l i r) t p out (record (out.1 p) { right = some out.0 })
        (parent_out (node l i r) p b up d).0 same becomes in
    let (out', run', zipped) =
      avl_rebalance-Zipped up fuel s' b p t (omega arith) (omega (arith, size-balance l i r))
        (λ x. omega (arith, d x, same x)) held' up' in
    let not_left = points_at-root_of b i (not_beside l i r p b up d) in
    rw (run, parent, above'.1, not_left, top, run')
      (
        out',
        refl,
        (
          zipped.0,
          zipped.1,
          Zipped-round s l i r p b (node b p t) _ up out out' _ (λ x. omega (arith, same x))
              becomes.2 zipped,
        ),
      )
