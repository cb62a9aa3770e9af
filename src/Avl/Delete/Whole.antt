-- ===== src/Avl/Delete/Whole.antt =====
-- `avl_delete` of src/avl.cpp.
use mathlib.Core.Path.{subst}
use redis_c.Base.{
  ℕ, zero, suc, ◌+◌, ◌≤◌, ◌<◌, ◌^◌, ◌≡◌, ◌≢◌, refl, sym, ◌∙◌, Option, none, some, List, [], ◌∷◌,
  ◌++◌, ◌==◌, if◌then◌else◌, arith, ap, Returns, count, count-append, append_assoc,
}
use redis_c.Avl.{Store, avl_delete, take_place}
use redis_c.Avl.Tree.{
  Tree, leaf, node, root_of, occ, occ_up, size, Crumb, in_right, DistinctIn, plug, inorder,
}
use redis_c.Avl.Link.{Linked}
use redis_c.Avl.Height.{IsAvl}
use redis_c.Avl.Balanced.{plug-IsAvl, plug-Linked, size-plug, occ-plug, inorder-plug, before, after}
use redis_c.Avl.Delete.Unlink.{Deleted, replace_by_left-Deleted}
use redis_c.Avl.Delete.Minimum.{leftmost-Minimum}
use redis_c.Avl.Delete.Locate.{locate, swap-IsAvl}
use redis_c.Avl.Delete.Swap.{take_place-Swapped}

-- a list has one place where a number that it holds once stands
heads : (x y : ℕ) (xs ys : List ℕ) → x ∷ xs ≡ y ∷ ys → (x ≡ y) × (xs ≡ ys)
heads x y xs ys e = (cc, cc)

twice : (i : ℕ) (xs ys zs : List ℕ) → count (λ y. y == i) zs ≡ 0 → zs ≢ xs ++ (i ∷ ys)
twice i xs ys zs nowhere e =
    omega (arith, ap (count (λ y. y == i)) e, count-append (λ y. y == i) xs (i ∷ ys), self i)
  where
    self : (x : ℕ) → ◌≡◌ {A = ℕ} (if x == x then 1 else 0) 1
    self x = ground arith

first : (x n : ℕ) → (if x == x then 1 else 0) + n ≡ 1 → n ≡ 0
first x n h = ground arith

-- what holds a number once holds it after any other entry
below :
    (i : ℕ) (xs ys : List ℕ) (x : ℕ)
    → (if x == i then 1 else 0) + count (λ y. y == i) (xs ++ (i ∷ ys)) ≡ 1
    → count (λ y. y == i) (xs ++ (i ∷ ys)) ≡ 1
below i xs ys x h = ground (arith, count-append (λ y. y == i) xs (i ∷ ys))

pub unique_place :
    (i : ℕ) (xs ys xs' ys' : List ℕ)
    → count (λ y. y == i) (xs ++ (i ∷ ys)) ≡ 1
    → count (λ y. y == i) (xs' ++ (i ∷ ys')) ≡ 1
    → xs ++ (i ∷ ys) ≡ xs' ++ (i ∷ ys')
    → (xs ≡ xs') × (ys ≡ ys')
unique_place i [] ys [] ys' once once' e = (refl, (heads i i ys ys' e).1)
unique_place i [] ys (x ∷ xs') ys' once once' e = absurd (
    twice i xs' ys' ys (first i (count (λ y. y == i) ys) once)
      (heads i x ys (xs' ++ (i ∷ ys')) e).1)
unique_place i (x ∷ xs) ys [] ys' once once' e = absurd (
    twice i xs ys ys' (first i (count (λ y. y == i) ys') once')
      (sym (heads x i (xs ++ (i ∷ ys)) ys' e).1))
unique_place i (x ∷ xs) ys (x' ∷ xs') ys' once once' e =
    let (head, tail) = heads x x' (xs ++ (i ∷ ys)) (xs' ++ (i ∷ ys')) e in
    let (before, after) =
      unique_place i xs ys xs' ys' (below i xs ys x once) (below i xs' ys' x' once') tail in
    (rw (head, before) refl, after)

pub count-inorder : (x : ℕ) (t : Tree) → count (λ y. y == x) (inorder t) ≡ occ x t
count-inorder x leaf = refl
count-inorder x (node l i r) = omega (
  arith,
  count-append (λ y. y == x) (inorder l) (i ∷ inorder r),
  count-inorder x l,
  count-inorder x r,
)

-- `v` stands in the place of `i`, in a tree that lost `v`
swapped_order :
    (i v : ℕ) (t l r : Tree) (way : List Crumb) (xs ys : List ℕ)
    → plug (node l i r) way ≡ t
    → occ i t ≡ 1
    → inorder t ≡ xs ++ (i ∷ ys)
    → inorder (plug (node l v r) way) ≡ xs ++ (v ∷ ys)
swapped_order i v t l r way xs ys whole once order =
    let split = λ (k : ℕ).
      inorder-plug way (node l k r) ∙ regroup (before way) (inorder l) k (inorder r) (after way) in
    let there : inorder t ≡ (before way ++ inorder l) ++ (i ∷ (inorder r ++ after way)) =
      sym (ap inorder whole) ∙ split i in
    let (same_l, same_r) =
      unique_place i (before way ++ inorder l) (inorder r ++ after way) xs ys
        (sym (ap (count (λ y. y == i)) there) ∙ count-inorder i t ∙ once)
        (sym (ap (count (λ y. y == i)) order) ∙ count-inorder i t ∙ once) (sym there ∙ order) in
    split v ∙ rw (same_l, same_r) refl
  where
    regroup :
        (a b : List ℕ) (k : ℕ) (c e : List ℕ)
        → a ++ ((b ++ (k ∷ c)) ++ e) ≡ (a ++ b) ++ (k ∷ (c ++ e))
    regroup a b k c e = simp (append_assoc)

-- how often a node occurs when another one has gone
stays : (i v n m : ℕ) → v ≢ i → n + (if v == i then 1 else 0) ≡ m → m ≤ 1 → 0 < m → n ≡ 1
stays i v n m ne e p q = ground arith

goes : (v n m : ℕ) → n + (if v == v then 1 else 0) ≡ m → m ≤ 1 → n ≡ 0
goes v n m e p = ground arith

neither : (v j n m : ℕ) → n + (if v == j then 1 else 0) ≡ m → m ≡ 0 → (v ≢ j) × (n ≡ 0)
neither v j n m e h = ground arith

module _ (s : Store) (w : Tree) (i v : ℕ) (xs ys : List ℕ) (out : Option ℕ × Store)
    (distinct : (x : ℕ) → occ x w ≤ 1) (here : 0 < occ i w) (there : 0 < occ v w) (ne : v ≢ i)
    (deleted : Deleted s w v (xs ++ (i ∷ ys)) out) where
  i_once : occ i deleted.tree ≡ 1
  i_once = stays i v (occ i deleted.tree) (occ i w) ne (deleted.nodes i) (distinct i) here

  v_gone : occ v deleted.tree ≡ 0
  v_gone = goes v (occ v deleted.tree) (occ v w) (deleted.nodes v) (distinct v)

  still-Distinct : (x : ℕ) → occ x deleted.tree ≤ 1
  still-Distinct x = omega (arith, deleted.nodes x, distinct x)

  still_away : (j : ℕ) → occ j w ≡ 0 → (v ≢ j) × (occ j deleted.tree ≡ 0)
  still_away j h = neither v j (occ j deleted.tree) (occ j w) (deleted.nodes j) h

  take_place-Deleted : Deleted s w i (xs ++ (v ∷ ys)) (take_place out.1 i v out.0)
  take_place-Deleted =
      let at = locate i deleted.tree [] (omega (arith, i_once)) in
      let l = at.left in
      let r = at.right in
      let swapped =
        take_place-Swapped out.1 l i r at.way v out.0
          (λ x.
            omega (arith, still-Distinct x, ap (occ x) at.whole, occ-plug x at.way (node l i r)))
          (omega (arith, v_gone, ap (occ v) at.whole, occ-plug v at.way (node l i r)))
          (deleted.root ∙ sym (ap root_of at.whole))
          (subst (λ t. Linked out.1 t none) (sym at.whole) deleted.linked) in
      record {
        tree = plug (node l v r) at.way;
        root = swapped.0;
        linked = swapped.1;
        order = swapped_order i v deleted.tree l r at.way xs ys at.whole i_once deleted.order;
        nodes = λ x.
            moved x (occ x l) (occ x r) (occ_up x at.way) (occ x deleted.tree) (occ x w)
              (sym (ap (occ x) at.whole) ∙ occ-plug x at.way (node l i r)) (deleted.nodes x)
              (occ-plug x at.way (node l v r));
        balance = λ avl.
            let whole : IsAvl (plug (node l i r) at.way) =
              subst IsAvl (sym at.whole) (deleted.balance avl) in
            swap-IsAvl at.way (node l i r) (node l v r) refl
              (plug-IsAvl at.way (node l i r) whole).0 whole;
        spares = λ j h.
            let (ne_v, away) = still_away j h in
            swapped.2 j ne_v (sym (occ-plug j at.way (node l i r)) ∙ ap (occ j) at.whole ∙ away)
            ∙ deleted.spares j h;
      }
    where
      moved :
          (x a b c t n : ℕ) {m : ℕ}
          → t ≡ a + (if i == x then 1 else 0) + b + c
          → t + (if v == x then 1 else 0) ≡ n
          → m ≡ a + (if v == x then 1 else 0) + b + c
          → m + (if i == x then 1 else 0) ≡ n
      moved x a b c t n e f g = omega arith

others :
    (l : Tree) (i : ℕ) (r : Tree) (up : List Crumb) (v : ℕ)
    → DistinctIn (node l i r) up
    → 0 < occ v r
    → v ≢ i
others l i r up v d inside e = omega (arith, d v, ap (λ x. occ x r) e, not_below l i r up d)
  where
    not_below :
        (l : Tree) (i : ℕ) (r : Tree) (up : List Crumb) → DistinctIn (node l i r) up → occ i r ≡ 0
    not_below l i r up d = ground (arith, d i)

inside_whole : (l : Tree) (i : ℕ) (r : Tree) (up : List Crumb) → 0 < occ i (plug (node l i r) up)
inside_whole l i r up = ground (arith, occ-plug i up (node l i r))

-- Let the store hold a tree of fewer than 2 ^ 30 distinct nodes, with its pointers, depths and
-- counts right, and let the fuel be above its nodes and those of the subtree at a node
-- together. Then `avl_delete` of the node returns the root of such a tree, or null if it is
-- empty. The tree has every node but that one, in the order of before; it is balanced if it
-- was; and the nodes outside of it are as before.
pub avl_delete-Deleted :
    (fuel : ℕ) (s : Store) (l : Tree) (i : ℕ) (r : Tree) (up : List Crumb)
    → size (node l i r) + size (plug (node l i r) up) < fuel
    → size (plug (node l i r) up) < 2 ^ 30
    → DistinctIn (node l i r) up
    → Linked s (plug (node l i r) up) none
    → Returns
        (avl_delete fuel s i)
        (Deleted s (plug (node l i r) up) i (before up ++ (inorder l ++ (inorder r ++ after up))))
unfolding avl_delete
avl_delete-Deleted zero s l i r up enough small d h = absurd (omega arith)
avl_delete-Deleted (suc fuel) s l i leaf up enough small d h =
    let low = (plug-Linked up s (node l i leaf) h).0 in
    rw (ap (λ n. n.right) low.0, avl_delete)
      (replace_by_left-Deleted fuel s l i up (omega (arith, size-plug up (node l i leaf)))
        (omega (arith, size-plug up (node l i leaf))) d h)
avl_delete-Deleted (suc fuel) s l i (node a k b) up enough small d h =
    let w = plug (node l i (node a k b)) up in
    let low = (plug-Linked up s (node l i (node a k b)) h).0 in
    let m =
      leftmost-Minimum a fuel s k b (in_right l i ∷ up) (some i)
        (omega (arith, size-plug up (node l i (node a k b)))) low.2 in
    let v = m.first in
    let t = node leaf v m.right in
    let bound = ap size m.whole in
    let dw : (x : ℕ) → occ x w ≤ 1 =
      λ x. omega (arith, d x, occ-plug x up (node l i (node a k b))) in
    let (out, run, inner) =
      avl_delete-Deleted fuel s leaf v m.right m.way (omega (arith, bound, m.smaller))
        (omega (arith, bound)) (λ x. omega (arith, dw x, ap (occ x) m.whole, occ-plug x m.way t))
        (subst (λ u. Linked s u none) (sym m.whole) h) in
    let e1 =
      start (before m.way) (before up) (inorder l) i (inorder m.right ++ after m.way) m.nothing in
    let inner' =
      subst
        (λ u.
          Deleted s u v ((before up ++ inorder l) ++ (i ∷ (inorder m.right ++ after m.way))) out)
        m.whole (subst (λ xs. Deleted s (plug t m.way) v xs out) e1 inner) in
    let there : 0 < occ v w =
      omega (arith, ap (occ v) m.whole, inside_whole leaf v m.right m.way) in
    let final =
      take_place-Deleted s w i v (before up ++ inorder l) (inorder m.right ++ after m.way) out dw
        (inside_whole l i (node a k b) up) there (others l i (node a k b) up v d m.inside) inner' in
    let e2 =
      ap (λ z. (before up ++ inorder l) ++ z) m.rest ∙ append_assoc (before up) (inorder l) _ in
    rw (ap (λ n. n.right) low.0, avl_delete, m.run, run)
      (
        take_place out.1 i v out.0,
        refl,
        subst (λ xs. Deleted s w i xs (take_place out.1 i v out.0)) e2 final,
      )
  where
    start :
        (way up l : List ℕ) (i : ℕ) (rest : List ℕ)
        → way ≡ up ++ (l ++ (i ∷ []))
        → way ++ rest ≡ (up ++ l) ++ (i ∷ rest)
    start way up l i rest e = rw e (simp (append_assoc))
