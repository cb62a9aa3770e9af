-- ===== src/ZSet/Insert.antt =====
-- `tree_add` of src/zset.cpp.
use mathlib.Core.Bool.{false≢true}
use mathlib.Core.Path.{subst}
use redis_c.Base.{
  ℕ, zero, suc, ◌+◌, ◌<◌, ◌^◌, ◌≡◌, ◌≢◌, refl, sym, ◌∙◌, Bool, true, false, Option, none, some,
  List, [], ◌∷◌, ◌++◌, arith, ap, All, All-append, append_assoc, append_assoc, Bool-cases, inl, inr,
  Run, Returns,
}
use redis_c.Avl.{Store, avl_rebalance}
use redis_c.Avl.Tree.{
  Tree, leaf, node, root_of, occ, occ_up, size, size_up, balance, Crumb, in_left, in_right,
  parent_of, DistinctIn, plug, inorder,
}
use redis_c.Avl.Link.{Linked, Held}
use redis_c.Avl.Above.{Above}
use redis_c.Avl.Balanced.{plug-Linked, inorder-plug, before, after}
use redis_c.Avl.Delete.Unlink.{length-size_up}
use redis_c.Avl.Rebalance.{avl_rebalance-Zipped}
use redis_c.ZSet.{ZSet, node_less, child_link, hang, add_loop}
use redis_c.ZSet.Sorted.{Sorted, All-map, Sorted-split, Sorted-before}
use redis_c.ZSet.Hang.{
  Added, new_ne, other_up, other_l, other_r, new-DistinctIn, outer, two_writes, hang_left,
  hang_right, added-Added,
}

module _ (z : ZSet) (n : ℕ) (new : ((z.links n).left ≡ none) × ((z.links n).right ≡ none))
    (trans : (a b c : ℕ)
      → node_less z a b ≡ true
      → node_less z b c ≡ true
      → node_less z a c ≡ true) where
  -- the loop has found the empty place
  hung :
      (fuel : ℕ) (s' : Store) (up : List Crumb)
      → size_up up < fuel
      → size_up up + 1 < 2 ^ 30
      → DistinctIn (node leaf n leaf) up
      → Held s' leaf n leaf (parent_of up)
      → Above s' (some n) up
      → ((j : ℕ)
          → n ≢ j
          → occ_up j up ≡ 0
          → (occ j (node leaf n leaf) + occ_up j up ≡ 0) × (s' j ≡ z.links j))
      → All (λ x. node_less z n x ≡ false) (before up)
      → All (λ y. node_less z n y ≡ true) (after up)
      → Returns (avl_rebalance fuel s' n) (Added z.links (plug leaf up) n (node_less z))
  unfolding balance
  hung fuel s' up enough small d held above same lower upper =
      let (out, run, (root, linked, spares)) =
        avl_rebalance-Zipped up fuel s' leaf n leaf (omega (arith, length-size_up up)) (omega arith)
          d held above in
      (
        out,
        run,
        added-Added z.links s' n (node_less z) up out small held root linked
            (λ j ne k. let (away, e) = same j ne k in spares j away ∙ e) lower upper,
      )

  abbrev Goal : ℕ → ℕ → Tree → Type 0
  Goal fuel i w = Returns (add_loop fuel z i n) (Added z.links w n (node_less z))

  -- the order on both sides of a node
  beside :
      (xs : List ℕ) (i : ℕ) (ys : List ℕ)
      → Sorted (node_less z) (xs ++ (i ∷ ys))
      → (node_less z n i ≡ true → All (λ y. node_less z n y ≡ true) (i ∷ ys))
        × (node_less z n i ≡ false → All (λ x. node_less z n x ≡ false) (xs ++ (i ∷ [])))
  beside xs i ys sorted = (
    λ less. (
      less,
      All-map (λ y. node_less z i y ≡ true) (λ y. node_less z n y ≡ true) ys
          (λ y h. trans n i y less h) (Sorted-split (node_less z) xs (i ∷ ys) sorted).1.0,
    ),
    λ more.
        All-append (λ x. node_less z n x ≡ false) xs (i ∷ [])
          (All-map (λ x. node_less z x i ≡ true) (λ x. node_less z n x ≡ false) xs
            (λ x h. not_less x i h more) (Sorted-before (node_less z) xs i ys sorted))
          (more, tt),
  )
    where
      not_less :
          (x i : ℕ) → node_less z x i ≡ true → node_less z n i ≡ false → node_less z n x ≡ false
      not_less x i h more = elim (Bool-cases (node_less z n x)) [
        | inl yes' ↦ absurd (false≢true (sym more ∙ trans n x i yes' h))
        | inr no' ↦ no'
      ]

  abbrev Start : Tree → List Crumb → ℕ → Type 0
  Start t up fuel =
      (size t + size_up up + 1 < 2 ^ 30)
      × (size t + size_up up + size t < fuel)
      × DistinctIn t up
      × (occ n t + occ_up n up ≡ 0)
      × Linked z.links (plug t up) none
      × Sorted (node_less z) (inorder (plug t up))
      × All (λ x. node_less z n x ≡ false) (before up)
      × All (λ y. node_less z n y ≡ true) (after up)

  -- a round of the loop
  round :
      (fuel k : ℕ) (less : Bool) (child : Option ℕ)
      → node_less z n k ≡ less
      → child_link z.links k less ≡ child
      → add_loop (suc fuel) z k n ≡ (elim child [
        | none ↦ avl_rebalance (suc fuel) (hang z.links k n less) n
        | some next ↦ add_loop fuel z next n
      ])
  unfolding add_loop
  round fuel k less child e f =
      let body = λ (b : Bool) (c : Option ℕ).
        let m : Run (ℕ × Store) = elim c [
          | none ↦ avl_rebalance (suc fuel) (hang z.links k n b) n
          | some next ↦ add_loop fuel z next n
        ] in
        m in
      ap (λ b. body b (child_link z.links k b)) e ∙ ap (body less) f

  -- the rest of a round, on either side
  left :
      (l : Tree) (k : ℕ) (r : Tree) (up : List Crumb) (fuel : ℕ)
      → size_up up + 1 + size r < suc fuel
      → size_up up + 2 + size r < 2 ^ 30
      → DistinctIn (node l k r) up
      → occ n (node l k r) + occ_up n up ≡ 0
      → Linked z.links (node l k r) (parent_of up)
      → Above z.links (some k) up
      → All (λ x. node_less z n x ≡ false) (before up)
      → All (λ y. node_less z n y ≡ true) ((k ∷ inorder r) ++ after up)
      → ((j : ℕ) → root_of l ≡ some j → Goal fuel j (plug (node l k r) up))
      → Returns
          (elim (root_of l) [
            | none ↦ avl_rebalance (suc fuel) (hang z.links k n true) n
            | some next ↦ add_loop fuel z next n
          ])
          (Added z.links (plug (node l k r) up) n (node_less z))
  unfolding hang
  left leaf k r up fuel enough small d out low above lower upper rec =
      let ne = new_ne leaf k r up n d out in
      let (held, above') =
        hang_left z.links k n r up ne new (other_r leaf k r up n d out)
          (other_up leaf k r up n d out) above low in
      hung (suc fuel) (hang z.links k n true) (in_left k r ∷ up) (omega arith) (omega arith)
        (λ x. omega (arith, new-DistinctIn leaf k r up n d out x)) held above'
        (λ j ne_j h.
          let (ne_k, away) = outer k r up n j ne_j h in
          (away, two_writes z.links k n j _ _ ne_k ne_j))
        lower upper
  left (node a j b) k r up fuel enough small d out low above lower upper rec = rec j refl

  right :
      (r : Tree) (k : ℕ) (l : Tree) (up : List Crumb) (fuel : ℕ)
      → size_up up + 1 + size l < suc fuel
      → size_up up + 2 + size l < 2 ^ 30
      → DistinctIn (node l k r) up
      → occ n (node l k r) + occ_up n up ≡ 0
      → Linked z.links (node l k r) (parent_of up)
      → Above z.links (some k) up
      → All (λ x. node_less z n x ≡ false) (before up ++ (inorder l ++ (k ∷ [])))
      → All (λ y. node_less z n y ≡ true) (after up)
      → ((j : ℕ) → root_of r ≡ some j → Goal fuel j (plug (node l k r) up))
      → Returns
          (elim (root_of r) [
            | none ↦ avl_rebalance (suc fuel) (hang z.links k n false) n
            | some next ↦ add_loop fuel z next n
          ])
          (Added z.links (plug (node l k r) up) n (node_less z))
  unfolding hang
  right leaf k l up fuel enough small d out low above lower upper rec =
      let ne = new_ne l k leaf up n d out in
      let (held, above') =
        hang_right z.links k n l up ne new (other_l l k leaf up n d out)
          (other_up l k leaf up n d out) above low in
      hung (suc fuel) (hang z.links k n false) (in_right l k ∷ up) (omega arith) (omega arith)
        (λ x. omega (arith, new-DistinctIn l k leaf up n d out x)) held above'
        (λ j ne_j h.
          let (ne_k, away) = outer k l up n j ne_j h in
          (away, two_writes z.links k n j _ _ ne_k ne_j))
        lower upper
  right (node a j b) k l up fuel enough small d out low above lower upper rec = rec j refl

  pub go :
      (t : Tree) (up : List Crumb) (fuel i : ℕ)
      → root_of t ≡ some i
      → Start t up fuel
      → Goal fuel i (plug t up)
  unfolding child_link
  go leaf up fuel i root start = absurd (cc)
  go (node l k r) up zero i root start = absurd (omega (arith, start.1))
  go (node l k r) up (suc fuel) i root (small, enough, d, out, h, sorted, lower, upper) =
      let (low, above) = plug-Linked up z.links (node l k r) h in
      let split : Sorted (node_less z) ((before up ++ inorder l) ++ (k ∷ (inorder r ++ after up))) =
        subst (Sorted (node_less z)) (inorder-plug up (node l k r) ∙ simp (append_assoc)) sorted in
      let order = beside (before up ++ inorder l) k (inorder r ++ after up) split in
      subst (λ x. Goal (suc fuel) x (plug (node l k r) up)) (some_inj k i root)
        (elim (Bool-cases (node_less z n k)) [
          | inl less ↦
              let upper' = order.0 less in
              rw (round fuel k true (root_of l) less (ap (λ m. m.left) low.0)) (
                left l k r up fuel (omega arith) (omega arith) d out low above lower upper' (λ j e.
                  go l (in_left k r ∷ up) fuel j e (
                    omega arith,
                    omega arith,
                    (λ x. omega (arith, d x)),
                    omega arith,
                    h,
                    sorted,
                    lower,
                    upper',
                  )))
          | inr more ↦
              let lower' =
                subst (All (λ x. node_less z n x ≡ false))
                  (append_assoc (before up) (inorder l) (k ∷ [])) (order.1 more) in
              rw (round fuel k false (root_of r) more (ap (λ m. m.right) low.0)) (
                right r k l up fuel (omega arith) (omega arith) d out low above lower' upper (λ j e.
                  go r (in_right l k ∷ up) fuel j e (
                    omega arith,
                    omega arith,
                    (λ x. omega (arith, d x)),
                    omega arith,
                    h,
                    sorted,
                    lower',
                    upper,
                  )))
        ])
    where
      some_inj : (x y : ℕ) → some x ≡ some y → x ≡ y
      some_inj x y e = cc
