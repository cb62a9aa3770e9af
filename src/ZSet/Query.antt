-- ===== src/ZSet/Query.antt =====
-- `zset_query` of src/zset.cpp.
use mathlib.Core.Path.{subst}
use mathlib.Core.Bool.{false≢true}
use redis_c.Base.{
  ℕ, zero, suc, ◌+◌, ◌≤◌, ◌<◌, ◌^◌, ◌≡◌, refl, sym, ◌∙◌, true, false, Option, none, some, List, [],
  ◌∷◌, ◌++◌, ◌==◌, if◌then◌else◌, arith, ap, All, All-append, length, Bool-cases, inl, inr, Run, ok,
  Returns, append_assoc, count, length-append, count-append, ◌>>=◌,
}
use redis_c.Avl.{avl_offset}
use redis_c.Avl.Tree.{
  Tree, leaf, node, root_of, occ, occ_up, size, Crumb, in_left, in_right, Distinct, plug, inorder,
}
use redis_c.Avl.Link.{Linked}
use redis_c.Avl.Balanced.{plug-Linked, size-plug, occ-plug, inorder-plug, before, after}
use redis_c.Avl.Delete.Locate.{locate}
use redis_c.Avl.Delete.Unlink.{length-size_up}
use redis_c.Avl.Delete.Whole.{unique_place, count-inorder}
use redis_c.Avl.Place.{nth, skipped, length-inorder, length-before}
use redis_c.Avl.Offset.{avl_offset-nth}
use redis_c.ZSet.{ZSet, node_less, zless, query_loop, zset_query, score_rank}
use redis_c.ZSet.Order.{less, tuple_less-less, less_trans}
use redis_c.ZSet.Sorted.{Sorted, All-map, Sorted-split, Sorted-before}
use redis_c.ZSet.Invariant.{HasTree, HasShortNames}

abbrev pub head : List ℕ → Option ℕ
head [] = none
head (x ∷ xs) = some x

zless_trans :
    (z : ZSet)
    → HasShortNames z
    → (a b score : ℕ) (name : List ℕ) → node_less z a b ≡ true
    → zless z b score name ≡ true
    → zless z a score name ≡ true
zless_trans z short a b score name h k =
    tuple_less-less (z.scores a) (z.names a) score name (short a)
    ∙ less_trans (score_rank (z.scores a)) (z.names a) (score_rank (z.scores b)) (z.names b)
        (score_rank score) name
        (sym (tuple_less-less (z.scores a) (z.names a) (z.scores b) (z.names b) (short a)) ∙ h)
        (sym (tuple_less-less (z.scores b) (z.names b) score name (short b)) ∙ k)

-- The nodes of a tree, cut at the first that is not less than a tuple.
pub record Cut (z : ZSet) (t : Tree) (score : ℕ) (name : List ℕ) : Type 0 where
  pub lower : List ℕ
  pub upper : List ℕ
  pub split : inorder t ≡ lower ++ upper
  pub below : All (λ x. zless z x score name ≡ true) lower
  pub above : All (λ y. zless z y score name ≡ false) upper

module _ (z : ZSet) (short : HasShortNames z) (score : ℕ) (name : List ℕ) where
  -- what a comparison at a node says of those on its sides
  cut_beside :
      (xs : List ℕ) (i : ℕ) (ys : List ℕ)
      → Sorted (node_less z) (xs ++ (i ∷ ys))
      → (zless z i score name ≡ true → All (λ x. zless z x score name ≡ true) (xs ++ (i ∷ [])))
        × (zless z i score name ≡ false → All (λ y. zless z y score name ≡ false) (i ∷ ys))
  cut_beside xs i ys sorted = (
    λ lower.
        All-append (λ x. zless z x score name ≡ true) xs (i ∷ [])
          (All-map (λ x. node_less z x i ≡ true) (λ x. zless z x score name ≡ true) xs
            (λ x h. zless_trans z short x i score name h lower)
            (Sorted-before (node_less z) xs i ys sorted))
          (lower, tt),
    λ upper. (
      upper,
      All-map (λ y. node_less z i y ≡ true) (λ y. zless z y score name ≡ false) ys
          (λ y h. not_less y h upper) (Sorted-split (node_less z) xs (i ∷ ys) sorted).1.0,
    ),
  )
    where
      not_less :
          (y : ℕ)
          → node_less z i y ≡ true
          → zless z i score name ≡ false
          → zless z y score name ≡ false
      not_less y h upper = elim (Bool-cases (zless z y score name)) [
        | inl lower ↦ absurd (false≢true (sym upper ∙ zless_trans z short i y score name h lower))
        | inr fine ↦ fine
      ]

  query_loop-Cut :
      (t : Tree) (up : List Crumb) (fuel : ℕ) (found : Option ℕ)
      → size t < fuel
      → Linked z.links (plug t up) none
      → Sorted (node_less z) (inorder (plug t up))
      → All (λ x. zless z x score name ≡ true) (before up)
      → All (λ y. zless z y score name ≡ false) (after up)
      → found ≡ head (after up)
      → Returns
          (query_loop fuel z score name (root_of t) found)
          (λ first. (cut : Cut z (plug t up) score name) × (first ≡ head cut.upper))
  unfolding query_loop
  query_loop-Cut t up zero found enough h sorted lower upper first = absurd (omega arith)
  query_loop-Cut leaf up (suc fuel) found enough h sorted lower upper first = (
    found,
    refl,
    (
      record {
        lower = before up;
        upper = after up;
        split = inorder-plug up leaf;
        below = lower;
        above = upper;
      },
      first,
    ),
  )
  query_loop-Cut (node l i r) up (suc fuel) found enough h sorted lower upper first =
      let low = (plug-Linked up z.links (node l i r) h).0 in
      let order : Sorted (node_less z) ((before up ++ inorder l) ++ (i ∷ (inorder r ++ after up))) =
        subst (Sorted (node_less z)) (inorder-plug up (node l i r) ∙ simp (append_assoc)) sorted in
      let sides = cut_beside (before up ++ inorder l) i (inorder r ++ after up) order in
      elim (Bool-cases (zless z i score name)) [
        | inl less ↦
            let lower' =
              subst (All (λ x. zless z x score name ≡ true))
                (append_assoc (before up) (inorder l) (i ∷ [])) (sides.0 less) in
            rw (less, ap (λ m. m.right) low.0)
              (query_loop-Cut r (in_right l i ∷ up) fuel found (omega arith) h sorted lower' upper
                first)
        | inr more ↦
            rw (more, ap (λ m. m.left) low.0)
              (query_loop-Cut l (in_left i r ∷ up) fuel (some i) (omega arith) h sorted lower
                (sides.1 more) refl)
      ]

-- the node found, and those before it
pub found_place :
    (t : Tree) (l : Tree) (i : ℕ) (r : Tree) (up : List Crumb) (lower upper : List ℕ)
    → plug (node l i r) up ≡ t
    → Distinct t
    → inorder t ≡ lower ++ (i ∷ upper)
    → skipped up + size l ≡ length lower
found_place t l i r up lower upper whole d order =
    let there : inorder t ≡ (before up ++ inorder l) ++ (i ∷ (inorder r ++ after up)) =
      sym (ap inorder whole) ∙ inorder-plug up (node l i r) ∙ simp (append_assoc) in
    let one : occ i t ≡ 1 =
      once (occ i l) (occ i r) (occ_up i up) (occ i t)
        (sym (ap (occ i) whole) ∙ occ-plug i up (node l i r)) (d i) in
    let (same, rest) =
      unique_place i (before up ++ inorder l) (inorder r ++ after up) lower upper
        (sym (ap (count (λ y. y == i)) there) ∙ count-inorder i t ∙ one)
        (sym (ap (count (λ y. y == i)) order) ∙ count-inorder i t ∙ one) (sym there ∙ order) in
    omega (
      arith,
      ap length same,
      length-append (before up) (inorder l),
      length-before up,
      length-inorder l,
    )
  where
    once : (a b c m : ℕ) → m ≡ a + (if i == i then 1 else 0) + b + c → m ≤ 1 → m ≡ 1
    once a b c m e h = ground arith

-- The node that is offset from the first one that is not less than the tuple.
abbrev pub query_answer : Tree → List ℕ → List ℕ → ℕ → Option ℕ
query_answer t lower [] offset = none
query_answer t lower (x ∷ upper) offset = nth t (offset + length lower)

module _ (fuel : ℕ) (z : ZSet) (t : Tree) (score : ℕ) (name : List ℕ) (offset : ℕ)
    (enough : size t + size t < fuel) (small : size t < 2 ^ 31) (small_offset : offset < 2 ^ 64)
    (has : HasTree z t) where
  abbrev walk : Option ℕ → Run (Option ℕ)
  walk found = elim found [ none ↦ ok none | some i ↦ avl_offset fuel z.links i offset ]

  walked :
      (lower upper : List ℕ)
      → inorder t ≡ lower ++ upper
      → walk (head upper) ≡ ok (query_answer t lower upper offset)
  walked lower [] split = refl
  walked lower (x ∷ upper) split =
      let inside = holds (count (λ y. y == x) lower) (count (λ y. y == x) upper) x (
        sym (count-inorder x t)
        ∙ ap (count (λ y. y == x)) split
        ∙ count-append (λ y. y == x) lower (x ∷ upper)) in
      let at = locate x t [] inside in
      let w = at.whole in
      let place = found_place t at.left x at.right at.way lower upper w has.distinct split in
      avl_offset-nth fuel z.links at.left x at.right at.way offset small_offset
        (omega
          (arith, ap size w, size-plug at.way (node at.left x at.right), length-size_up at.way))
        (omega (arith, ap size w))
        (λ y.
          omega (arith, has.distinct y, ap (occ y) w, occ-plug y at.way (node at.left x at.right)))
        (subst (λ u. Linked z.links u none) (sym w) has.linked)
      ∙ ap (λ u. ok (nth u (offset + (skipped at.way + size at.left)))) w
      ∙ ap (λ k. ok (nth t (offset + k))) place
    where
      holds : (a b x : ℕ) {m : ℕ} → m ≡ a + ((if x == x then 1 else 0) + b) → 0 < m
      holds a b x e = ground arith

  -- On a balanced tree of fewer than 2 ^ 31 nodes in the order of score and name, with fuel
  -- above twice the nodes, the nodes in order split into those less than the tuple and those
  -- not, and `zset_query` with any `int64_t` as offset returns. Where the second part is empty
  -- the result is null; otherwise it is the node that stands the offset further in the order
  -- than the first of that part, or null outside of the order.
  pub zset_query-Cut :
      (cut : Cut z t score name) × (zset_query fuel z score name offset
        ≡ ok (query_answer t cut.lower cut.upper offset))
  unfolding zset_query
  zset_query-Cut =
      let (found, run, (cut, first)) =
        query_loop-Cut z has.short score name t [] fuel none (omega arith) has.linked has.sorted tt
          tt refl in
      (
        cut,
        ap (λ r. query_loop fuel z score name r none >>= walk) has.root
            ∙ ap (λ m. m >>= walk) run
            ∙ ap walk first
            ∙ walked cut.lower cut.upper cut.split,
      )
