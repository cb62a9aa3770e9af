-- ===== src/ZSet/Update.antt =====
-- `avl_delete` on the tree of a sorted set, and `zset_update`, src/zset.cpp.
use mathlib.Core.Path.{subst}
use redis_c.Base.{
  ℕ, zero, suc, ◌+◌, ◌≤◌, ◌<◌, ◌^◌, ◌≡◌, ◌≢◌, refl, sym, ◌∙◌, false, Option, none, List, [], ◌∷◌,
  ◌++◌, ◌==◌, ==_refl, ==_iff, if◌then◌else◌, arith, ap, length, Bool-cases, inl, inr, Returns,
  append_assoc, length-append,
}
use redis_c.Avl.{Store, avl_init, avl_delete}
use redis_c.Avl.Tree.{Tree, leaf, node, occ, size, inorder}
use redis_c.Avl.Link.{Linked, Linked-frame}
use redis_c.Avl.Height.{IsAvl}
use redis_c.Avl.Balanced.{size-plug, occ-plug, inorder-plug, before, after}
use redis_c.Avl.Delete.Locate.{locate}
use redis_c.Avl.Delete.Whole.{avl_delete-Deleted, count-inorder}
use redis_c.ZSet.{ZSet, node_less, zset_update, score_rank, tuple_less, write}
use redis_c.ZSet.Sorted.{Sorted, Sorted-remove, Sorted-same}
use redis_c.ZSet.Invariant.{HasTree, IsNew, tree_add-Grown, All-occ}

-- the set without a node
pub record Without (z : ZSet) (t : Tree) (n : ℕ) (out : Option ℕ × Store) : Type 0 where
  pub tree : Tree
  pub has : HasTree (record z { tree = out.0; links = out.1 }) tree
  pub nodes : (x : ℕ) → occ x tree + (if n == x then 1 else 0) ≡ occ x t
  pub fewer : size tree ≤ size t

size-count : (t : Tree) → size t ≡ length (inorder t)
size-count leaf = refl
size-count (node l i r) =
    omega (arith, size-count l, size-count r, length-append (inorder l) (i ∷ inorder r))

pub avl_delete-Without :
    (fuel : ℕ) (z : ZSet) (t : Tree) (n : ℕ)
    → size t + size t < fuel
    → size t < 2 ^ 30
    → HasTree z t
    → 0 < occ n t
    → Returns (avl_delete fuel z.links n) (Without z t n)
avl_delete-Without fuel z t n enough small has inside =
    let at = locate n t [] inside in
    let w = at.whole in
    let l = at.left in
    let r = at.right in
    let sizes = ap size w in
    let (out, run, deleted) =
      avl_delete-Deleted fuel z.links l n r at.way (omega (arith, size-plug at.way (node l n r)))
        (omega arith)
        (λ x. omega (arith, has.distinct x, ap (occ x) w, occ-plug x at.way (node l n r)))
        (subst (λ u. Linked z.links u none) (sym w) has.linked) in
    let order : inorder t ≡ (before at.way ++ inorder l) ++ (n ∷ (inorder r ++ after at.way)) =
      sym (ap inorder w)
      ∙ inorder-plug at.way (node l n r)
      ∙ regroup (before at.way) (inorder l) n (inorder r) (after at.way) in
    let kept : inorder deleted.tree ≡ (before at.way ++ inorder l) ++ (inorder r ++ after at.way) =
      deleted.order ∙ sym (append_assoc (before at.way) (inorder l) (inorder r ++ after at.way)) in
    let nodes = λ (x : ℕ). deleted.nodes x ∙ ap (occ x) w in
    let still = λ (x : ℕ) (h : 0 < occ x deleted.tree).
      more (occ x deleted.tree) (if n == x then 1 else 0) (occ x t) (nodes x) h in
    (
      out,
      run,
      record {
        tree = deleted.tree;
        has = record {
          root = deleted.root;
          linked = deleted.linked;
          distinct = λ x.
              at_most (occ x deleted.tree) (if n == x then 1 else 0) (occ x t) (nodes x)
                (has.distinct x);
          balanced = deleted.balance (subst IsAvl (sym w) has.balanced);
          sorted = subst (Sorted (node_less z)) (sym kept) (
              Sorted-remove (node_less z) (before at.way ++ inorder l) n (inorder r ++ after at.way)
                (subst (Sorted (node_less z)) order has.sorted));
          short = has.short;
          unique = λ x y h k e. has.unique x y (still x h) (still y k) e;
        };
        nodes = nodes;
        fewer =
            less_long (before at.way ++ inorder l) n (inorder r ++ after at.way) (size deleted.tree)
              (size t) (size-count deleted.tree ∙ ap length kept) (size-count t ∙ ap length order);
      },
    )
  where
    regroup :
        (a b : List ℕ) (k : ℕ) (c e : List ℕ)
        → a ++ ((b ++ (k ∷ c)) ++ e) ≡ (a ++ b) ++ (k ∷ (c ++ e))
    regroup a b k c e = simp (append_assoc)

    more : (a b c : ℕ) → a + b ≡ c → 0 < a → 0 < c
    more a b c e h = omega arith

    at_most : (a b c : ℕ) → a + b ≡ c → c ≤ 1 → a ≤ 1
    at_most a b c e h = omega arith

    less_long :
        (a : List ℕ) (k : ℕ) (b : List ℕ) (m p : ℕ)
        → m ≡ length (a ++ b)
        → p ≡ length (a ++ (k ∷ b))
        → m ≤ p
    less_long a k b m p e f = omega (arith, length-append a b, length-append a (k ∷ b))

pub record Updated (z : ZSet) (t : Tree) (n score : ℕ) (z' : ZSet) : Type 0 where
  pub tree : Tree
  pub has : HasTree z' tree
  pub nodes : (x : ℕ) → occ x tree ≡ occ x t
  pub scored : score_rank (z'.scores n) ≡ score_rank score
  pub others : (x : ℕ) → n ≢ x → z'.scores x ≡ z.scores x
  pub hmap : z'.hmap ≡ z.hmap
  pub names : z'.names ≡ z.names
  pub fresh : z'.fresh ≡ z.fresh

-- the node, out of the tree, is made anew with another score
abbrev again : ZSet → ℕ → ℕ → Option ℕ × Store → ZSet
again z n score out = record z {
  tree = out.0;
  links = avl_init out.1 n;
  scores = write z.scores n score;
}

gone : (n x : ℕ) (a b : ℕ) → a + (if n == x then 1 else 0) ≡ b → b ≤ 1 → 0 < a → n ≢ x
gone n x a b e h k f = elim (Bool-cases (n == x)) [
  | inl here ↦ omega (arith, rw here at e)
  | inr other ↦ not_same n x other f
]
  where
    not_same : (n x : ℕ) → (n == x) ≡ false → n ≢ x
    not_same n x h e = ground arith

again-HasTree :
    (z : ZSet) (t : Tree) (n score : ℕ) (out : Option ℕ × Store) (without : Without z t n out)
    → ((x : ℕ) → 0 < occ x without.tree → n ≢ x)
    → HasTree (again z n score out) without.tree
unfolding avl_init
again-HasTree z t n score out without away =
    let has = without.has in
    record {
      root = has.root;
      linked =
          Linked-frame without.tree out.1 (avl_init out.1 n) none (λ j h. other j (away j h))
            has.linked;
      distinct = has.distinct;
      balanced = has.balanced;
      sorted =
          Sorted-same (node_less z) (node_less (again z n score out)) (λ x. n ≢ x)
            (λ a b p q.
              ap (λ m. tuple_less m (z.names a) (write z.scores n score b) (z.names b)) (kept a p)
              ∙ ap (λ m. tuple_less (z.scores a) (z.names a) m (z.names b)) (kept b q))
            (inorder without.tree)
            (All-occ (λ x. n ≢ x) (inorder without.tree)
              (λ x h. away x (subst (λ m. 0 < m) (count-inorder x without.tree) h)))
            has.sorted;
      short = has.short;
      unique = has.unique;
    }
  where
    other : (j : ℕ) → n ≢ j → avl_init out.1 n j ≡ out.1 j
    other j h = ground arith

    kept : (j : ℕ) → n ≢ j → write z.scores n score j ≡ z.scores j
    kept j h = ground arith

pub zset_update-Updated :
    (fuel : ℕ) (z : ZSet) (t : Tree) (n score : ℕ)
    → size t + size t < fuel
    → size t + 1 < 2 ^ 30
    → HasTree z t
    → 0 < occ n t
    → Returns (zset_update fuel z n score) (Updated z t n score)
unfolding zset_update
zset_update-Updated fuel z t n score enough small has inside =
    elim (Bool-cases (score_rank (z.scores n) == score_rank score)) [
      | inl same ↦ rw same (
        z,
        refl,
        record {
          tree = t;
          has = has;
          nodes = λ x. refl;
          scored = (==_iff _ _).0 same;
          others = λ x ne. refl;
          hmap = refl;
          names = refl;
          fresh = refl;
        },
      )
      | inr differs ↦
          let (out, run, without) = avl_delete-Without fuel z t n enough (omega arith) has inside in
          let away = λ (x : ℕ) (h : 0 < occ x without.tree).
            gone n x (occ x without.tree) (occ x t) (without.nodes x) (has.distinct x) h in
          let z1 = again z n score out in
          let new : IsNew z1 without.tree n = (
            blank out.1,
            none_left without.tree away,
            (λ x h e. away x h (
                sym (
                  has.unique x n (still x (occ x without.tree) (occ x t) (without.nodes x) h) inside
                    e))),
          ) in
          let (z', run', grown) =
            tree_add-Grown fuel z1 without.tree n (omega (arith, without.fewer))
              (omega (arith, without.fewer)) (again-HasTree z t n score out without away) new in
          rw (differs, run, run')
            (
              z',
              refl,
              record {
                tree = grown.tree;
                has = grown.has;
                nodes = λ x.
                    back x (occ x grown.tree) (occ x without.tree) (occ x t) (grown.nodes x)
                      (without.nodes x);
                scored = ap (λ m. score_rank (m n)) grown.scores ∙ rw (==_refl n) refl;
                others = λ x ne. ap (λ m. m x) grown.scores ∙ kept x ne;
                hmap = grown.hmap;
                names = grown.names;
                fresh = grown.fresh;
              },
            )
    ]
  where
    blank :
        (s : Store)
        → avl_init s n n ≡ record { depth = 1; count = 1; left = none; right = none; parent = none }
    blank s = unfold avl_init in rw (==_refl n) refl

    zero_of : (m : ℕ) → (0 < m → ⊥) → m ≡ 0
    zero_of zero h = refl
    zero_of (suc m) h = absurd (h (omega arith))

    none_left : (u : Tree) → ((x : ℕ) → 0 < occ x u → n ≢ x) → occ n u ≡ 0
    none_left u away = zero_of (occ n u) (λ h. away n h refl)

    still : (x a b : ℕ) → a + (if n == x then 1 else 0) ≡ b → 0 < a → 0 < b
    still x a b e h = omega arith

    back :
        (x a b c : ℕ)
        → a ≡ (if n == x then 1 else 0) + b
        → b + (if n == x then 1 else 0) ≡ c
        → a ≡ c
    back x a b c e f = omega arith

    kept : (j : ℕ) → n ≢ j → write z.scores n score j ≡ z.scores j
    kept j h = ground arith
