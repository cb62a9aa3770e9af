-- ===== src/Avl/Delete/Minimum.antt =====
-- `leftmost` of `avl_delete` in src/avl.cpp: the first node of a subtree, and the way up from it.
use redis_c.Base.{
  ℕ, zero, suc, ◌+◌, ◌≤◌, ◌<◌, ◌≡◌, refl, ◌∙◌, Option, some, List, ◌∷◌, ◌++◌, arith, ap, ok,
  append_assoc,
}
use redis_c.Avl.{Store, leftmost}
use redis_c.Avl.Tree.{Tree, leaf, node, occ, size, Crumb, in_left, plug, inorder}
use redis_c.Avl.Link.{Linked}
use redis_c.Avl.Balanced.{before, after}

-- the whole tree, seen from the first node of a subtree of it
pub record Minimum (fuel : ℕ) (s : Store) (l : Tree) (i : ℕ) (r : Tree) (up : List Crumb)
    : Type 0 where
  pub first : ℕ
  pub right : Tree
  pub way : List Crumb
  pub run : leftmost fuel s i ≡ ok first
  pub whole : plug (node leaf first right) way ≡ plug (node l i r) up
  pub nothing : before way ≡ before up
  pub rest : first ∷ (inorder right ++ after way) ≡ (inorder l ++ (i ∷ inorder r)) ++ after up
  pub inside : 0 < occ first (node l i r)
  pub smaller : size right ≤ size l + size r

pub leftmost-Minimum :
    (l : Tree) (fuel : ℕ) (s : Store) (i : ℕ) (r : Tree) (up : List Crumb) (parent : Option ℕ)
    → size l < fuel
    → Linked s (node l i r) parent
    → Minimum fuel s l i r up
unfolding leftmost
leftmost-Minimum l zero s i r up parent enough h = absurd (omega arith)
leftmost-Minimum leaf (suc fuel) s i r up parent enough h = record {
  first = i;
  right = r;
  way = up;
  run = rw (ap (λ n. n.left) h.0, leftmost) refl;
  whole = refl;
  nothing = refl;
  rest = refl;
  inside = ground arith;
  smaller = omega arith;
}
leftmost-Minimum (node a k b) (suc fuel) s i r up parent enough h =
    let m = leftmost-Minimum a fuel s k b (in_left i r ∷ up) (some i) (omega arith) h.1 in
    record {
      first = m.first;
      right = m.right;
      way = m.way;
      run = rw (ap (λ n. n.left) h.0, leftmost) m.run;
      whole = m.whole;
      nothing = m.nothing;
      inside = omega (arith, m.inside);
      rest = m.rest ∙ simp (append_assoc);
      smaller = omega (arith, m.smaller);
    }
