-- ===== src/Avl/Delete/Locate.antt =====
-- The place of a node in a tree, and another node there, for `avl_delete` of src/avl.cpp.
use redis_c.Base.{
  ℕ, ◌+◌, ◌<◌, ◌≡◌, refl, sym, ◌∙◌, false, none, some, List, [], ◌∷◌, ◌==◌, if◌then◌else◌, arith,
  ap, inl, inr, Nat-cases, Bool-cases, ==_iff,
}
use redis_c.Avl.{Store}
use redis_c.Avl.Tree.{
  Tree, leaf, node, root_of, depth_of, count_of, occ, occ_up, Crumb, in_left, in_right, parent_of,
  plug,
}
use redis_c.Avl.Link.{Linked, Linked-frame}
use redis_c.Avl.Height.{IsAvl, height}
use redis_c.Avl.Balanced.{plug-IsAvl, plug-Linked}

pub record Located (i : ℕ) (t : Tree) (up : List Crumb) : Type 0 where
  pub left : Tree
  pub right : Tree
  pub way : List Crumb
  pub whole : plug (node left i right) way ≡ plug t up

pub locate : (i : ℕ) (t : Tree) (up : List Crumb) → 0 < occ i t → Located i t up
locate i leaf up h = absurd (omega arith)
locate i (node l k r) up h = elim (Bool-cases (k == i)) [
  | inl here ↦ record {
    left = l;
    right = r;
    way = up;
    whole = ap (λ x. plug (node l x r) up) (sym ((==_iff k i).0 here));
  }
  | inr other ↦ elim (Nat-cases (occ i l)) [
    | inl none_left ↦
        let m = locate i r (in_right l k ∷ up) (below (occ i l) (occ i r) k other none_left h) in
        record { left = m.left; right = m.right; way = m.way; whole = m.whole }
    | inr some_left ↦
        let m = locate i l (in_left k r ∷ up) some_left in
        record { left = m.left; right = m.right; way = m.way; whole = m.whole }
  ]
]
  where
    below : (a b k : ℕ) → (k == i) ≡ false → a ≡ 0 → 0 < a + (if k == i then 1 else 0) + b → 0 < b
    below a b k e z h = ground arith

-- a subtree of the same depth and count, with the same root
pub swap_below :
    (up : List Crumb) (s s' : Store) (t t' : Tree)
    → root_of t' ≡ root_of t
    → depth_of t' ≡ depth_of t
    → count_of t' ≡ count_of t
    → ((j : ℕ) → 0 < occ_up j up → s' j ≡ s j)
    → Linked s (plug t up) none
    → Linked s' t' (parent_of up)
    → Linked s' (plug t' up) none
swap_below [] s s' t t' root depth number same h low = low
swap_below (in_left i b ∷ up) s s' t t' root depth number same h low =
    let ((e, ht, hb), above) = plug-Linked up s (node t i b) h in
    swap_below up s s' (node t i b) (node t' i b) refl (rw depth refl) (rw number refl)
      (λ j k. same j (ground arith)) h
      (
        rw (root, depth, number) (same i (ground arith) ∙ e),
        low,
        Linked-frame b s s' (some i) (λ j k. same j (ground arith)) hb,
      )
swap_below (in_right b i ∷ up) s s' t t' root depth number same h low =
    let ((e, hb, ht), above) = plug-Linked up s (node b i t) h in
    swap_below up s s' (node b i t) (node b i t') refl (rw depth refl) (rw number refl)
      (λ j k. same j (ground arith)) h
      (
        rw (root, depth, number) (same i (ground arith) ∙ e),
        Linked-frame b s s' (some i) (λ j k. same j (ground arith)) hb,
        low,
      )

pub swap-IsAvl :
    (up : List Crumb) (t t' : Tree)
    → height t' ≡ height t
    → IsAvl t'
    → IsAvl (plug t up)
    → IsAvl (plug t' up)
swap-IsAvl [] t t' same h avl = h
swap-IsAvl (in_left i b ∷ up) t t' same h avl =
    let ((ht, hb, p, q), above) = plug-IsAvl up (node t i b) avl in
    swap-IsAvl up (node t i b) (node t' i b) (rw same refl) (h, hb, omega arith, omega arith) avl
swap-IsAvl (in_right b i ∷ up) t t' same h avl =
    let ((hb, ht, p, q), above) = plug-IsAvl up (node b i t) avl in
    swap-IsAvl up (node b i t) (node b i t') (rw same refl) (hb, h, omega arith, omega arith) avl
