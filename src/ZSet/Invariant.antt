-- ===== src/ZSet/Invariant.antt =====
-- The tree of a sorted set, src/zset.cpp: sorted, balanced and of unique names; `tree_add`,
-- `zset_update` and the tree's part of `zset_pop` on it.
use mathlib.Core.Path.{subst}
use redis_c.Base.{
  ℕ, ◌+◌, ◌≤◌, ◌<◌, ◌^◌, ◌≡◌, ◌≢◌, ◌⊎◌, ◌>>=◌, refl, sym, ◌∙◌, true, false, Option, none, some,
  List, [], ◌∷◌, ◌++◌, ◌==◌, ==_iff, if◌then◌else◌, arith, ap, All, length, Bool-cases, inl, inr,
  Run, ok, Returns, count, count-append,
}
use redis_c.Avl.Tree.{Tree, leaf, node, root_of, occ, size, Distinct, inorder}
use redis_c.Avl.Link.{Linked}
use redis_c.Avl.Height.{IsAvl}
use redis_c.Avl.Balanced.{before}
use redis_c.Avl.Delete.Whole.{count-inorder}
use redis_c.ZSet.{ZSet, node_less, add_loop, tree_add, score_rank}
use redis_c.ZSet.Order.{less, tuple_less-less, less_trans, less_total}
use redis_c.ZSet.Sorted.{Sorted, AllLess, Sorted-insert}
use redis_c.ZSet.Insert.{go}

abbrev pub HasShortNames : ZSet → Type 0
HasShortNames z = (x : ℕ) → length (z.names x) < 2 ^ 32

pub record HasTree (z : ZSet) (t : Tree) : Type 0 where
  pub root : z.tree ≡ root_of t
  pub linked : Linked z.links t none
  pub distinct : Distinct t
  pub balanced : IsAvl t
  pub sorted : Sorted (node_less z) (inorder t)
  pub short : HasShortNames z
  pub unique : (x y : ℕ) → 0 < occ x t → 0 < occ y t → z.names x ≡ z.names y → x ≡ y

node_less-less :
    (z : ZSet)
    → HasShortNames z
    → (a b : ℕ)
    → node_less z a b
      ≡ less (score_rank (z.scores a)) (z.names a) (score_rank (z.scores b)) (z.names b)
node_less-less z short a b =
    tuple_less-less (z.scores a) (z.names a) (z.scores b) (z.names b) (short a)

pub node_less_trans :
    (z : ZSet)
    → HasShortNames z
    → (a b c : ℕ) → node_less z a b ≡ true
    → node_less z b c ≡ true
    → node_less z a c ≡ true
node_less_trans z short a b c h k =
    node_less-less z short a c
    ∙ less_trans (score_rank (z.scores a)) (z.names a) (score_rank (z.scores b)) (z.names b)
        (score_rank (z.scores c)) (z.names c) (sym (node_less-less z short a b) ∙ h)
        (sym (node_less-less z short b c) ∙ k)

-- nodes of different names stand in one order or the other
node_less_total :
    (z : ZSet)
    → HasShortNames z
    → (a b : ℕ) → z.names b ≢ z.names a
    → node_less z a b ≡ false
    → node_less z b a ≡ true
node_less_total z short a b differ h = elim (Bool-cases (node_less z b a)) [
  | inl before ↦ before
  | inr neither ↦ absurd (
      differ (
        sym
          (less_total (score_rank (z.scores a)) (z.names a) (score_rank (z.scores b)) (z.names b)
            (sym (node_less-less z short a b) ∙ h) (sym (node_less-less z short b a) ∙ neither)).1))
]

-- what holds of the nodes of a list
pub All-occ :
    (P : ℕ → Type 0) (xs : List ℕ) → ((x : ℕ) → 0 < count (λ y. y == x) xs → P x) → All P xs
All-occ P [] f = tt
All-occ P (x ∷ xs) f = (f x (ground arith), All-occ P xs (λ y h. f y (omega arith)))

-- The tree of the set, and what stays as it was.
pub record Grown (z : ZSet) (t : Tree) (n : ℕ) (z' : ZSet) : Type 0 where
  pub tree : Tree
  pub has : HasTree z' tree
  pub nodes : (x : ℕ) → occ x tree ≡ (if n == x then 1 else 0) + occ x t
  pub hmap : z'.hmap ≡ z.hmap
  pub scores : z'.scores ≡ z.scores
  pub names : z'.names ≡ z.names
  pub fresh : z'.fresh ≡ z.fresh

abbrev pub IsNew : ZSet → Tree → ℕ → Type 0
IsNew z t n =
    (z.links n ≡ record { depth = 1; count = 1; left = none; right = none; parent = none })
    × (occ n t ≡ 0)
    × ((x : ℕ) → 0 < occ x t → z.names x ≢ z.names n)

some_nodes :
    (n x : ℕ) (t : Tree) → 0 < (if n == x then 1 else 0) + occ x t → (n ≡ x) ⊎ (0 < occ x t)
some_nodes n x t h = elim (Bool-cases (n == x)) [
  | inl here ↦ inl ((==_iff n x).0 here)
  | inr other ↦ inr (ground arith)
]

grown_unique :
    (z : ZSet) (t : Tree) (n : ℕ)
    → ((x y : ℕ) → 0 < occ x t → 0 < occ y t → z.names x ≡ z.names y → x ≡ y)
    → ((x : ℕ) → 0 < occ x t → z.names x ≢ z.names n)
    → (x y : ℕ) → 0 < (if n == x then 1 else 0) + occ x t
    → 0 < (if n == y then 1 else 0) + occ y t
    → z.names x ≡ z.names y
    → x ≡ y
grown_unique z t n unique new x y h k e = elim (some_nodes n x t h) [
  | inl here ↦ elim (some_nodes n y t k) [
    | inl here' ↦ sym here ∙ here'
    | inr there' ↦ absurd (new y there' (sym e ∙ ap z.names (sym here)))
  ]
  | inr there ↦ elim (some_nodes n y t k) [
    | inl here' ↦ absurd (new x there (e ∙ ap z.names (sym here')))
    | inr there' ↦ unique x y there there' e
  ]
]

tree_add_lem :
    (fuel : ℕ) (z : ZSet) (n : ℕ) (root : Option ℕ)
    → z.tree ≡ root
    → tree_add fuel z n ≡ (elim root [
      | none ↦ ok (record z { tree = some n })
      | some i ↦ do
        (root', links) ← add_loop fuel z i n
        ok (record z { tree = some root'; links = links })
    ])
unfolding tree_add
tree_add_lem fuel z n root e =
    ap
      (λ (o : Option ℕ).
        let m : Run ZSet = elim o [
          | none ↦ ok (record z { tree = some n })
          | some i ↦ do
            (root', links) ← add_loop fuel z i n
            ok (record z { tree = some root'; links = links })
        ] in
        m)
      e

-- the list with the new node is sorted
new-Sorted :
    (z : ZSet) (t : Tree) (n : ℕ) (lower upper : List ℕ)
    → HasTree z t
    → ((x : ℕ) → 0 < occ x t → z.names x ≢ z.names n)
    → inorder t ≡ lower ++ upper
    → All (λ x. node_less z n x ≡ false) lower
    → All (λ y. node_less z n y ≡ true) upper
    → Sorted (node_less z) (lower ++ (n ∷ upper))
new-Sorted z t n lower upper has names split below above =
    Sorted-insert (node_less z) lower n upper (subst (Sorted (node_less z)) split has.sorted)
      (All-and lower below
        (All-occ (λ x. z.names x ≢ z.names n) lower (λ x h. names x (inside x h))))
      above
  where
    All-and :
        (xs : List ℕ)
        → All (λ x. node_less z n x ≡ false) xs
        → All (λ x. z.names x ≢ z.names n) xs
        → AllLess (node_less z) xs n
    All-and [] h k = tt
    All-and (x ∷ xs) h k = (node_less_total z has.short n x k.0 h.0, All-and xs h.1 k.1)

    inside : (x : ℕ) → 0 < count (λ y. y == x) lower → 0 < occ x t
    inside x h = omega (
      arith,
      ap (count (λ y. y == x)) split,
      count-append (λ y. y == x) lower upper,
      count-inorder x t,
    )

two : (a b n x : ℕ) → b ≡ (if n == x then 1 else 0) + a → a ≤ 1 → (n ≡ x → a ≡ 0) → b ≤ 1
two a b n x e h out = elim (Bool-cases (n == x)) [
  | inl here ↦ omega (arith, out ((==_iff n x).0 here), rw here at e)
  | inr other ↦ omega (arith, rw other at e)
]

pub tree_add-Grown :
    (fuel : ℕ) (z : ZSet) (t : Tree) (n : ℕ)
    → size t + size t < fuel
    → size t + 1 < 2 ^ 30
    → HasTree z t
    → IsNew z t n
    → Returns (tree_add fuel z n) (Grown z t n)
unfolding tree_add
tree_add-Grown fuel z leaf n enough small has (blank, out, names) =
    rw (tree_add_lem fuel z n none has.root) (
      record z { tree = some n },
      refl,
      record {
        tree = node leaf n leaf;
        has = record {
          root = refl;
          linked = (blank, tt, tt);
          distinct = λ x. ground arith;
          balanced = (tt, tt, omega arith, omega arith);
          sorted = (tt, tt);
          short = has.short;
          unique =
              λ x y h k e. grown_unique z leaf n has.unique names x y (omega arith) (omega arith) e;
        };
        nodes = λ x. omega arith;
        hmap = refl;
        scores = refl;
        names = refl;
        fresh = refl;
      },
    )
tree_add-Grown fuel z (node l i r) n enough small has (blank, out, names) =
    let t = node l i r in
    let ((root, links), run, added) =
      go z n (ap (λ m. m.left) blank, ap (λ m. m.right) blank) (node_less_trans z has.short) t []
        fuel i refl
        (
          omega arith,
          omega arith,
          (λ x. omega (arith, has.distinct x)),
          omega arith,
          has.linked,
          has.sorted,
          tt,
          tt,
        ) in
    rw (tree_add_lem fuel z n (some i) has.root, run)
      (
        record z { tree = some root; links = links },
        refl,
        record {
          tree = added.tree;
          has = record {
            root = added.root;
            linked = added.linked;
            distinct = λ x.
                two (occ x t) (occ x added.tree) n x (added.nodes x) (has.distinct x)
                  (λ e. ap (λ y. occ y t) (sym e) ∙ out);
            balanced = added.balance has.balanced;
            sorted = subst (Sorted (node_less z)) (sym added.order) (
                new-Sorted z t n added.lower added.upper has names added.split added.below
                  added.above);
            short = has.short;
            unique = λ x y h k e.
                grown_unique z t n has.unique names x y (subst (λ m. 0 < m) (added.nodes x) h)
                  (subst (λ m. 0 < m) (added.nodes y) k) e;
          };
          nodes = added.nodes;
          hmap = refl;
          scores = refl;
          names = refl;
          fresh = refl;
        },
      )
