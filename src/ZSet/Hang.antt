-- ===== src/ZSet/Hang.antt =====
-- A new node below a node of the tree of a sorted set, in src/zset.cpp.
use redis_c.Base.{
  ℕ, ◌+◌, ◌≤◌, ◌<◌, ◌^◌, ◌≡◌, ◌≢◌, refl, sym, ◌∙◌, Bool, true, false, none, some, List, ◌∷◌, ◌++◌,
  ◌==◌, ==_refl, if◌then◌else◌, arith, ap, All,
}
use redis_c.Avl.{AvlNode, Store, put, set_left, set_right, set_parent}
use redis_c.Avl.Tree.{
  Tree, leaf, node, root_of, occ, occ_up, size_up, Crumb, in_left, in_right, parent_of, DistinctIn,
  plug, inorder, zip_up,
}
use redis_c.Avl.Child.{put_other}
use redis_c.Avl.Link.{Linked, Held, Linked-frame}
use redis_c.Avl.Above.{Above, Above-frame}
use redis_c.Avl.Height.{IsAvl}
use redis_c.Avl.Balanced.{
  plug-IsAvl, occ-plug, inorder-plug, before, after, zip_up-IsAvl, inorder-zip_up, occ-zip_up,
}

-- the tree at a pointer is another one with one node more, and balanced where that was
pub record Added (s : Store) (t : Tree) (n : ℕ) (lt : ℕ → ℕ → Bool) (out : ℕ × Store) : Type 0 where
  pub tree : Tree
  pub lower : List ℕ
  pub upper : List ℕ
  pub root : some out.0 ≡ root_of tree
  pub linked : Linked out.1 tree none
  pub split : inorder t ≡ lower ++ upper
  pub order : inorder tree ≡ lower ++ (n ∷ upper)
  pub below : All (λ x. lt n x ≡ false) lower
  pub above : All (λ y. lt n y ≡ true) upper
  pub nodes : (x : ℕ) → occ x tree ≡ (if n == x then 1 else 0) + occ x t
  pub balance : IsAvl t → IsAvl tree
  pub spares : (j : ℕ) → n ≢ j → occ j t ≡ 0 → out.1 j ≡ s j

module _ (l : Tree) (i : ℕ) (r : Tree) (up : List Crumb) (n : ℕ) (d : DistinctIn (node l i r) up)
    (out : occ n (node l i r) + occ_up n up ≡ 0) where
  pub new_ne : n ≢ i
  new_ne = ground arith

  pub other_up : (j : ℕ) → 0 < occ_up j up → (i ≢ j) × (n ≢ j)
  other_up j h = ground (arith, d j)

  pub other_l : (j : ℕ) → 0 < occ j l → (i ≢ j) × (n ≢ j)
  other_l j h = ground (arith, d j)

  pub other_r : (j : ℕ) → 0 < occ j r → (i ≢ j) × (n ≢ j)
  other_r j h = ground (arith, d j)

  pub new-DistinctIn : (x : ℕ) → (if n == x then 1 else 0) + (occ x (node l i r) + occ_up x up) ≤ 1
  new-DistinctIn x = ground (arith, d x)

pub outer :
    (i : ℕ) (b : Tree) (up : List Crumb) (n j : ℕ)
    → n ≢ j
    → (if i == j then 1 else 0) + occ j b + occ_up j up ≡ 0
    → (i ≢ j) × (occ j (node leaf n leaf) + ((if i == j then 1 else 0) + occ j b + occ_up j up) ≡ 0)
outer i b up n j ne h = ground arith

pub two_writes :
    (s : Store) (i n j : ℕ) (a b : AvlNode) → i ≢ j → n ≢ j → put (put s i a) n b j ≡ s j
two_writes s i n j a b p q = put_other (put s i a) n j b q ∙ put_other s i j a p

-- the new node hangs below `i`
module _ (s : Store) (i n : ℕ) (r : Tree) (up : List Crumb) (ne : n ≢ i)
    (new : ((s n).left ≡ none) × ((s n).right ≡ none))
    (away_r : (j : ℕ) → 0 < occ j r → (i ≢ j) × (n ≢ j))
    (away_up : (j : ℕ) → 0 < occ_up j up → (i ≢ j) × (n ≢ j)) (above : Above s (some i) up) where
  pub hang_left :
      Linked s (node leaf i r) (parent_of up)
      → Held (set_parent (set_left s i (some n)) (some n) (some i)) leaf n leaf (some i)
        × Above (set_parent (set_left s i (some n)) (some n) (some i)) (some n) (in_left i r ∷ up)
  hang_left h =
      let s1 = set_left s i (some n) in
      let at_n : s1 n ≡ s n = put_other s i n _ (λ e. ne (sym e)) in
      let at_i : set_parent s1 (some n) (some i) i ≡ record (s i) { left = some n } =
        put_other s1 n i _ ne ∙ rw (==_refl i) refl in
      (
        (
          rw (==_refl n) (ap (λ m. m.left) at_n ∙ new.0),
          rw (==_refl n) (ap (λ m. m.right) at_n ∙ new.1),
          rw (==_refl n) refl,
          tt,
          tt,
        ),
        (
          ap (λ m. m.left) at_i,
          ap (λ m. m.right) at_i ∙ ap (λ m. m.right) h.0,
          ap (λ m. m.parent) at_i ∙ ap (λ m. m.parent) h.0,
          Linked-frame r s _ (some i) (λ j k. two_writes s i n j _ _ (away_r j k).0 (away_r j k).1)
              h.2,
          Above-frame up s _ (some i)
              (λ j k. two_writes s i n j _ _ (away_up j k).0 (away_up j k).1) above,
        ),
      )

  pub hang_right :
      Linked s (node r i leaf) (parent_of up)
      → Held (set_parent (set_right s i (some n)) (some n) (some i)) leaf n leaf (some i)
        × Above (set_parent (set_right s i (some n)) (some n) (some i)) (some n) (in_right r i ∷ up)
  hang_right h =
      let s1 = set_right s i (some n) in
      let at_n : s1 n ≡ s n = put_other s i n _ (λ e. ne (sym e)) in
      let at_i : set_parent s1 (some n) (some i) i ≡ record (s i) { right = some n } =
        put_other s1 n i _ ne ∙ rw (==_refl i) refl in
      (
        (
          rw (==_refl n) (ap (λ m. m.left) at_n ∙ new.0),
          rw (==_refl n) (ap (λ m. m.right) at_n ∙ new.1),
          rw (==_refl n) refl,
          tt,
          tt,
        ),
        (
          ap (λ m. m.right) at_i,
          ap (λ m. m.left) at_i ∙ ap (λ m. m.left) h.0,
          ap (λ m. m.parent) at_i ∙ ap (λ m. m.parent) h.0,
          Linked-frame r s _ (some i) (λ j k. two_writes s i n j _ _ (away_r j k).0 (away_r j k).1)
              h.1,
          Above-frame up s _ (some i)
              (λ j k. two_writes s i n j _ _ (away_up j k).0 (away_up j k).1) above,
        ),
      )

-- the nodes on the way up are balanced around a new one
pub added-Added :
    (s s' : Store) (n : ℕ) (lt : ℕ → ℕ → Bool) (up : List Crumb) (out : ℕ × Store)
    → size_up up + 1 < 2 ^ 30
    → Held s' leaf n leaf (parent_of up)
    → some out.0 ≡ root_of (zip_up (node leaf n leaf) up)
    → Linked out.1 (zip_up (node leaf n leaf) up) none
    → ((j : ℕ) → n ≢ j → occ_up j up ≡ 0 → out.1 j ≡ s j)
    → All (λ x. lt n x ≡ false) (before up)
    → All (λ y. lt n y ≡ true) (after up)
    → Added s (plug leaf up) n lt out
added-Added s s' n lt up out small held root linked spares below above = record {
  tree = zip_up (node leaf n leaf) up;
  lower = before up;
  upper = after up;
  root = root;
  linked = linked;
  split = inorder-plug up leaf;
  order = inorder-zip_up up (node leaf n leaf);
  below = below;
  above = above;
  nodes = λ x. omega (arith, occ-zip_up x up (node leaf n leaf), occ-plug x up leaf);
  balance = λ avl.
      let (tt', up_avl) = plug-IsAvl up leaf avl in
      zip_up-IsAvl up (node leaf n leaf) 0 (omega arith) (tt, tt, omega arith, omega arith)
        (omega arith) (omega arith) up_avl;
  spares = λ j ne h. spares j ne (omega (arith, occ-plug j up leaf));
}
