-- ===== src/Avl/Delete/Unlink.antt =====
-- `replace_by_left`, the first half of `avl_delete` of src/avl.cpp.
use redis_c.Base.{
  ℕ, ◌+◌, ◌≤◌, ◌<◌, ◌^◌, ◌≡◌, ◌≢◌, refl, sym, ◌∙◌, true, false, Option, none, some, List, [], ◌∷◌,
  ◌++◌, ◌==◌, ==_refl, if◌then◌else◌, arith, ap, length, ok, Returns, ◌>>=◌, max,
}
use redis_c.Avl.{
  Store, set_left, set_right, set_parent, points_at, replace_by_left, replace_child, avl_rebalance,
}
use redis_c.Avl.Tree.{
  Tree, leaf, node, root_of, occ, occ_up, size, size_up, Crumb, in_left, in_right, DistinctIn,
  zip_up, plug, inorder,
}
use redis_c.Avl.Child.{put_other}
use redis_c.Avl.Link.{Placed, Linked, Linked-set_parent, set_parent-Spares}
use redis_c.Avl.Above.{points_at-root_of, set_left-Above, set_right-Above}
use redis_c.Avl.Height.{IsAvl, height}
use redis_c.Avl.Balanced.{
  plug-IsAvl, zip_up-IsAvl, plug-Linked, occ-plug, occ-zip_up, inorder-zip_up, before, after,
}
use redis_c.Avl.Rebalance.{avl_rebalance-Zipped}

-- the tree at a pointer is another one without a node, and balanced where that was
pub record Deleted (s : Store) (t : Tree) (i : ℕ) (rest : List ℕ) (out : Option ℕ × Store)
    : Type 0 where
  pub tree : Tree
  pub root : out.0 ≡ root_of tree
  pub linked : Linked out.1 tree none
  pub order : inorder tree ≡ rest
  pub nodes : (x : ℕ) → occ x tree + (if i == x then 1 else 0) ≡ occ x t
  pub balance : IsAvl t → IsAvl tree
  pub spares : (j : ℕ) → occ j t ≡ 0 → out.1 j ≡ s j

pub length-size_up : (up : List Crumb) → length up ≤ size_up up
length-size_up [] = omega arith
length-size_up (in_left i r ∷ up) = omega (arith, length-size_up up)
length-size_up (in_right l i ∷ up) = omega (arith, length-size_up up)

module _ (l : Tree) (i : ℕ) (up : List Crumb) (d : DistinctIn (node l i leaf) up) where
  l-Distinct : (x : ℕ) → occ x l ≤ 1
  l-Distinct x = omega (arith, d x)

  node_away : occ i l ≡ 0
  node_away = ground (arith, d i)

-- the left subtree moves up
lifted :
    (s : Store) (l : Tree) (i : ℕ) (parent : Option ℕ)
    → ((x : ℕ) → occ x l ≤ 1)
    → Linked s (node l i leaf) parent
    → Placed s (node l i leaf) parent l (root_of l) (set_parent s (root_of l) parent)
lifted s l i parent d h = (
  refl,
  Linked-set_parent l s (some i) parent d h.1,
  λ j k. set_parent-Spares l s parent j (omega arith),
)

-- a way up that was balanced, with the left subtree at its foot
zipped-Deleted :
    (s : Store) (l : Tree) (i : ℕ) (up : List Crumb) (out : Option ℕ × Store)
    → size l + size_up up < 2 ^ 30
    → out.0 ≡ root_of (zip_up l up)
    → Linked out.1 (zip_up l up) none
    → ((j : ℕ) → occ j (node l i leaf) + occ_up j up ≡ 0 → out.1 j ≡ s j)
    → Deleted s (plug (node l i leaf) up) i (before up ++ (inorder l ++ after up)) out
zipped-Deleted s l i up out small root linked spares = record {
  tree = zip_up l up;
  root = root;
  linked = linked;
  order = inorder-zip_up up l;
  nodes = λ x. omega (arith, occ-zip_up x up l, occ-plug x up (node l i leaf));
  balance = λ avl.
      let ((hl, hr, p, q), above) = plug-IsAvl up (node l i leaf) avl in
      zip_up-IsAvl up l (1 + max (height l) 0) (omega arith) hl (omega arith) (omega arith) above;
  spares = λ j h. spares j (sym (occ-plug j up (node l i leaf)) ∙ h);
}

swap_sum : (a b c e : ℕ) → a + b + c + e ≡ 0 → c + b + a + e ≡ 0
swap_sum a b c e h = omega arith

-- which nodes are different, at a node and its parent
module _ (l : Tree) (i p : ℕ) (b : Tree) (up : List Crumb)
    (d : (x : ℕ)
      → occ x (node l i leaf) + ((if p == x then 1 else 0) + occ x b + occ_up x up) ≤ 1) where
  i_away : (occ i l ≡ 0) × (occ i b ≡ 0)
  i_away = ground (arith, d i)

  p_away : occ p l ≡ 0
  p_away = ground (arith, d p)

  low-Distinct : (x : ℕ) → occ x l ≤ 1
  low-Distinct x = omega (arith, d x)

  next-Distinct : (x : ℕ) → occ x l + (if p == x then 1 else 0) + occ x b + occ_up x up ≤ 1
  next-Distinct x = omega (arith, d x)

  mirror_next : (x : ℕ) → occ x b + (if p == x then 1 else 0) + occ x l + occ_up x up ≤ 1
  mirror_next x = omega (arith, d x)

  rest_away :
      (j : ℕ)
      → occ j (node l i leaf) + ((if p == j then 1 else 0) + occ j b + occ_up j up) ≡ 0
      → (p ≢ j)
        × (occ j (node l i leaf) ≡ 0)
        × (occ j l + (if p == j then 1 else 0) + occ j b + occ_up j up ≡ 0)
  rest_away j h = ground arith

pub replace_child-set_left :
    (s : Store) (p i : ℕ) (child : Option ℕ)
    → points_at (s p).left i ≡ true
    → replace_child s p i child ≡ set_left s p child
unfolding replace_child
replace_child-set_left s p i child h = rw h refl

pub replace_child-set_right :
    (s : Store) (p i : ℕ) (child : Option ℕ)
    → points_at (s p).left i ≡ false
    → replace_child s p i child ≡ set_right s p child
unfolding replace_child
replace_child-set_right s p i child h = rw h refl

at_root :
    (fuel : ℕ) (s : Store) (i : ℕ) (left : Option ℕ)
    → (s i).left ≡ left
    → (s i).parent ≡ none
    → replace_by_left fuel s i ≡ ok ((set_parent s left none i).left, set_parent s left none)
unfolding replace_by_left
at_root fuel s i left e parent = rw (parent, replace_by_left) (rw (parent, e) refl)

below_parent :
    (fuel : ℕ) (s : Store) (i : ℕ) (left : Option ℕ) (p : ℕ)
    → (s i).left ≡ left
    → (s i).parent ≡ some p
    → replace_by_left fuel s i ≡ (do
      (root, s'') ←
          avl_rebalance fuel
            (replace_child (set_parent s left (some p)) p i (set_parent s left (some p) i).left)
            p
      ok (some root, s''))
unfolding replace_by_left
below_parent fuel s i left p e parent = rw (parent, replace_by_left) (rw (parent, e) refl)

pub replace_by_left-Deleted :
    (fuel : ℕ) (s : Store) (l : Tree) (i : ℕ) (up : List Crumb)
    → size_up up < fuel
    → size l + size_up up < 2 ^ 30
    → DistinctIn (node l i leaf) up
    → Linked s (plug (node l i leaf) up) none
    → Returns
        (replace_by_left fuel s i)
        (Deleted s (plug (node l i leaf) up) i (before up ++ (inorder l ++ after up)))
replace_by_left-Deleted fuel s l i [] enough small d h =
    let (root, linked, spares) = lifted s l i none (l-Distinct l i [] d) h in
    let left = ap (λ n. n.left) h.0 in
    let kept = ap (λ n. n.left) (set_parent-Spares l s none i (node_away l i [] d)) ∙ left in
    rw (at_root fuel s i (root_of l) left (ap (λ n. n.parent) h.0), kept)
      (
        _,
        refl,
        zipped-Deleted s l i [] (root_of l, set_parent s (root_of l) none) small refl linked
            (λ j k. spares j (omega arith)),
      )
replace_by_left-Deleted fuel s l i (in_left p b ∷ up) enough small d h =
    let (low, (child, right, above, hb, hup)) =
      plug-Linked (in_left p b ∷ up) s (node l i leaf) h in
    let left = ap (λ n. n.left) low.0 in
    let s' = set_parent s (root_of l) (some p) in
    let placed = lifted s l i (some p) (low-Distinct l i p b up d) low in
    let away = p_away l i p b up d in
    let kept = ap (λ n. n.left) (set_parent-Spares l s (some p) i (i_away l i p b up d).0) ∙ left in
    let child' = ap (λ n. n.left) (set_parent-Spares l s (some p) p away) ∙ child in
    let (held, hup') =
      set_left-Above s (node l i leaf) l p b up (root_of l) s' d away placed
        (right, above, hb, hup) in
    let (out, run, (root, linked, spares)) =
      avl_rebalance-Zipped up fuel (set_left s' p (root_of l)) l p b
        (omega (arith, length-size_up up)) (omega arith) (next-Distinct l i p b up d) held hup' in
    rw
      (
        below_parent fuel s i (root_of l) p left (ap (λ n. n.parent) low.0),
        kept,
        replace_child-set_left s' p i (root_of l) (ap (λ a. points_at a i) child' ∙ ==_refl i),
        run,
      )
      (
        _,
        refl,
        zipped-Deleted s l i (in_left p b ∷ up) (some out.0, out.1) small root linked
            (λ j k.
              let (ne, away_t, away_up) = rest_away l i p b up d j k in
              spares j away_up ∙ put_other s' p j _ ne ∙ placed.2 j away_t),
      )
replace_by_left-Deleted fuel s l i (in_right b p ∷ up) enough small d h =
    let (low, (child, left_p, above, hb, hup)) =
      plug-Linked (in_right b p ∷ up) s (node l i leaf) h in
    let left = ap (λ n. n.left) low.0 in
    let s' = set_parent s (root_of l) (some p) in
    let placed = lifted s l i (some p) (low-Distinct l i p b up d) low in
    let away = p_away l i p b up d in
    let kept = ap (λ n. n.left) (set_parent-Spares l s (some p) i (i_away l i p b up d).0) ∙ left in
    let left' = ap (λ n. n.left) (set_parent-Spares l s (some p) p away) ∙ left_p in
    let (held, hup') =
      set_right-Above s (node l i leaf) l p b up (root_of l) s' d away placed
        (left_p, above, hb, hup) in
    let (out, run, (root, linked, spares)) =
      avl_rebalance-Zipped up fuel (set_right s' p (root_of l)) b p l
        (omega (arith, length-size_up up)) (omega arith) (mirror_next l i p b up d) held hup' in
    rw
      (
        below_parent fuel s i (root_of l) p left (ap (λ n. n.parent) low.0),
        kept,
        replace_child-set_right s' p i (root_of l)
            (ap (λ a. points_at a i) left' ∙ points_at-root_of b i (i_away l i p b up d).1),
        run,
      )
      (
        _,
        refl,
        zipped-Deleted s l i (in_right b p ∷ up) (some out.0, out.1) small root linked
            (λ j k.
              let (ne, away_t, away_up) = rest_away l i p b up d j k in
              spares j (swap_sum (occ j l) _ (occ j b) (occ_up j up) away_up)
              ∙ put_other s' p j _ ne
              ∙ placed.2 j away_t),
      )
