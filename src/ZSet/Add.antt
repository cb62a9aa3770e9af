-- ===== src/ZSet/Add.antt =====
-- `zset_add` of src/zset.cpp, on the finite map from names to scores that a set stands for.
use mathlib.Core.Path.{subst}
use redis_c.Base.{
  ℕ, zero, suc, ◌+◌, ◌≤◌, ◌*◌, ◌<◌, ◌^◌, ◌≡◌, ◌≢◌, ◌⊎◌, ◌↔◌, refl, sym, ◌∙◌, Bool, true, false,
  Option, none, some, List, ◌==◌, ==_refl, ==_iff, if◌then◌else◌, arith, ap, length, Bool-cases,
  inl, inr, ok, Returns, count,
}
use redis_c.HashMap.{HMap, k_resizing_work}
use redis_c.HashMap.Growth.{buckets, Gained}
use redis_c.HashMap.Invariant.{entries}
use redis_c.HashMap.Insert.{IsCalm, hm_insert-IsCalm}
use redis_c.Keys.{str_hash}
use redis_c.Keys.Compare.{bytes_eq_refl}
use redis_c.Avl.{avl_init}
use redis_c.Avl.Tree.{Tree, occ, size}
use redis_c.ZSet.{
  ZSet, ZRef, hashed_ref, name_key, znode_new, zset_add, zset_pop, tree_add, zset_update,
  score_rank, node_less, tuple_less, write,
}
use redis_c.ZSet.Invariant.{HasTree, IsNew, Grown, tree_add-Grown}
use redis_c.ZSet.Update.{zset_update-Updated}
use redis_c.ZSet.Names.{IsZset, Named, at_ref, wrong, count_le, zset_lookup-Named}
use redis_c.ZSet.Scores.{
  HasScore, SameScores, HasTree-frame, updated-IsZset, updated-HasScore, updated-SameScores,
}

-- the set with the new node in memory and in the map
abbrev with_node : ZSet → List ℕ → ℕ → HMap ZRef → ZSet
with_node z name score hmap = record z {
  hmap = hmap;
  links = avl_init z.links z.fresh;
  scores = write z.scores z.fresh score;
  names = write z.names z.fresh name;
  fresh = z.fresh + 1;
}

abbrev new_ref : ZSet → List ℕ → ZRef
new_ref z name = record { ref = z.fresh; hcode = str_hash name; name = name }

other_write {ℓ} : {A : Type ℓ} (f : ℕ → A) (n x : ℕ) (a : A) → n ≢ x → write f n a x ≡ f x
other_write f n x a ne = ground arith

same_write {ℓ} : {A : Type ℓ} (f : ℕ → A) (n : ℕ) (a : A) → write f n a n ≡ a
same_write f n a = rw (==_refl n) refl

new_inside : (n x a b : ℕ) → b ≡ (if n == x then 1 else 0) + a → 0 < b → (n ≡ x) ⊎ (0 < a)
new_inside n x a b e h = elim (Bool-cases (n == x)) [
  | inl here ↦ inl ((==_iff n x).0 here)
  | inr other ↦ inr (omega (arith, rw other at e))
]

module _ (z : ZSet) (t : Tree) (name : List ℕ) (score : ℕ) (hmap : HMap ZRef) (is : IsZset z t)
    (short : length name < 2 ^ 32) (absent : Named z t name none)
    (gained : Gained z.hmap (new_ref z name) hmap) (calm : IsCalm hmap) where
  not_new : (x : ℕ) → 0 < occ x t → z.fresh ≢ x
  not_new x h e = omega (arith, is.old x h)

  with_node-HasTree : HasTree (with_node z name score hmap) t
  unfolding avl_init
  with_node-HasTree =
      HasTree-frame z (with_node z name score hmap) t refl
        (λ x h. (
          other_write z.links z.fresh x _ (not_new x h),
          other_write z.scores z.fresh x score (not_new x h),
          other_write z.names z.fresh x name (not_new x h),
        ))
        short_names is.has
    where
      short_names : (x : ℕ) → length (write z.names z.fresh name x) < 2 ^ 32
      short_names x = elim (Bool-cases (x == z.fresh)) [
        | inl here ↦ rw here short
        | inr other ↦ rw other (is.has.short x)
      ]

  no_fresh : occ z.fresh t ≡ 0
  no_fresh = zero_of (occ z.fresh t) (λ h. not_new z.fresh h refl)
    where
      zero_of : (m : ℕ) → (0 < m → ⊥) → m ≡ 0
      zero_of zero h = refl
      zero_of (suc m) h = absurd (h (omega arith))

  new_wrong : wrong (write z.names z.fresh name) (new_ref z name) ≡ false
  new_wrong = rw (==_refl (str_hash name), same_write z.names z.fresh name, bytes_eq_refl name) refl

  with_node-right : count (wrong (write z.names z.fresh name)) (entries hmap) ≡ 0
  with_node-right =
      let old =
        count_le (wrong (write z.names z.fresh name)) (wrong z.names) (at_ref z.fresh)
          (entries z.hmap) either in
      omega (
        arith,
        rw new_wrong at (gained.counted (wrong (write z.names z.fresh name))),
        old,
        is.right,
        is.refs z.fresh,
        no_fresh,
      )
    where
      either :
          (e : ZRef)
          → wrong (write z.names z.fresh name) e ≡ true
          → (wrong z.names e ≡ true) ⊎ (at_ref z.fresh e ≡ true)
      either e h = elim (Bool-cases (e.ref == z.fresh)) [
        | inl here ↦ inr here
        | inr other ↦ inl (rw other at h)
      ]

  module _ (z' : ZSet) (grown : Grown (with_node z name score hmap) t z.fresh z') where
    grown-IsZset : IsZset z' grown.tree
    grown-IsZset = record {
      has = grown.has;
      calm = subst IsCalm (sym grown.hmap) calm;
      refs = λ x.
          ap (λ m. count (at_ref x) (entries m)) grown.hmap
          ∙ gained.counted (at_ref x)
          ∙ ap (λ k. (if z.fresh == x then 1 else 0) + k) (is.refs x)
          ∙ sym (grown.nodes x);
      right =
          ap (λ m. count (wrong z'.names) (entries m)) grown.hmap
          ∙ ap (λ f. count (wrong f) (entries hmap)) grown.names
          ∙ with_node-right;
      old = λ x h.
          subst (λ m. x < m) (sym grown.fresh) (older x (occ x grown.tree) (grown.nodes x) h);
    }
      where
        older : (x m : ℕ) → m ≡ (if z.fresh == x then 1 else 0) + occ x t → 0 < m → x < z.fresh + 1
        older x m e h = elim (new_inside z.fresh x (occ x t) m e h) [
          | inl here ↦ omega arith
          | inr there ↦ omega (arith, is.old x there)
        ]

    grown-HasScore : HasScore z' grown.tree name (score_rank score)
    grown-HasScore = (
      z.fresh,
      here (occ z.fresh t) z.fresh (occ z.fresh grown.tree) (grown.nodes z.fresh),
      ap (λ f. f z.fresh) grown.names ∙ same_write z.names z.fresh name,
      ap score_rank (ap (λ f. f z.fresh) grown.scores ∙ same_write z.scores z.fresh score),
    )
      where
        here : (a n m : ℕ) → m ≡ (if n == n then 1 else 0) + a → 0 < m
        here a n m e = ground arith

    grown-SameScores : SameScores z t name z' grown.tree
    grown-SameScores = record {
      kept = λ name' rank ne (x, h, e, s). (
        x,
        more (occ x t) x (occ x grown.tree) (grown.nodes x) h,
        ap (λ f. f x) grown.names ∙ other_write z.names z.fresh x name (not_new x h) ∙ e,
        ap score_rank
              (ap (λ f. f x) grown.scores ∙ other_write z.scores z.fresh x score (not_new x h))
            ∙ s,
      );
      only = λ name' rank ne (x, h, e, s).
          elim (new_inside z.fresh x (occ x t) (occ x grown.tree) (grown.nodes x) h) [
            | inl here ↦ absurd (
                ne (
                  sym e
                  ∙ ap (λ f. f x) grown.names
                  ∙ ap (write z.names z.fresh name) (sym here)
                  ∙ same_write z.names z.fresh name))
            | inr there ↦ (
              x,
              there,
              sym (ap (λ f. f x) grown.names ∙ other_write z.names z.fresh x name (not_new x there))
                  ∙ e,
              ap score_rank (
                    sym (
                      ap (λ f. f x) grown.scores
                      ∙ other_write z.scores z.fresh x score (not_new x there)))
                  ∙ s,
            )
          ];
    }
      where
        more : (a x m : ℕ) → m ≡ (if z.fresh == x then 1 else 0) + a → 0 < a → 0 < m
        more a x m e h = omega arith

-- the answer of `zset_add`, and the set that it leaves
pub record Scored (z : ZSet) (t : Tree) (name : List ℕ) (score : ℕ) (out : Bool × ZSet)
    : Type 0 where
  pub tree : Tree
  pub valid : IsZset out.1 tree
  pub set : HasScore out.1 tree name (score_rank score)
  pub others : SameScores z t name out.1 tree
  pub added : (out.0 ≡ true) ↔ ((x : ℕ) → 0 < occ x t → z.names x ≢ name)
  pub few : length (entries out.1.hmap) ≤ length (entries z.hmap) + 1
  pub same : buckets out.1.hmap ≡ buckets z.hmap

-- On a well-formed set (a balanced tree in the order of score and name, with unique names, over
-- the nodes that the hash map holds) whose hash map is in no resize, `zset_add` returns, with a
-- tree below 2 ^ 30 nodes after it, a name below 2 ^ 32 bytes, one more node in the map below 2
-- ^ 64 and below the load factor, and fuel above 128 and above twice the nodes. The set stays
-- well formed; the name has the score, up to the sign of zero; every other name has the score
-- that it had, or none as before; and the result is true exactly if no node had the name. The
-- hash map has at most one node more, in as many buckets.
pub zset_add-Scored :
    (fuel : ℕ) (z : ZSet) (t : Tree) (name : List ℕ) (score : ℕ)
    → k_resizing_work < fuel
    → size t + size t < fuel
    → size t + 1 < 2 ^ 30
    → length name < 2 ^ 32
    → length (entries z.hmap) + 1 < 2 ^ 64
    → length (entries z.hmap) + 1 < 8 * buckets z.hmap
    → IsZset z t
    → Returns (zset_add fuel z name score) (Scored z t name score)
unfolding zset_add znode_new avl_init
zset_add-Scored fuel z t name score enough deep small short room few is =
    let (r, run, named) = zset_lookup-Named fuel z t name enough is in after r run named
  where
    after :
        (r : Option ℕ)
        → redis_c.ZSet.zset_lookup fuel z name ≡ ok (r, z)
        → Named z t name r
        → Returns (zset_add fuel z name score) (Scored z t name score)
    after (some n) run (inside, named) =
        let (z', run', updated) = zset_update-Updated fuel z t n score deep small is.has inside in
        (
          (false, z'),
          rw (run, run') refl,
          record {
            tree = updated.tree;
            valid = updated-IsZset z t name n score z' is inside named updated;
            set = updated-HasScore z t name n score z' is inside named updated;
            others = updated-SameScores z t name n score z' is inside named updated;
            added = ((λ e. absurd (cc)), λ none_named. absurd (none_named n inside named));
            few = omega (arith, ap (λ m. length (entries m)) updated.hmap);
            same = ap buckets updated.hmap;
          },
        )
    after none run absent =
        let (hmap, run', (gained, calm, same)) =
          hm_insert-IsCalm fuel z.hmap (new_ref z name) is.calm room few enough in
        let blank : avl_init z.links z.fresh z.fresh
            ≡ record { depth = 1; count = 1; left = none; right = none; parent = none } =
          same_write z.links z.fresh
            (record { depth = 1; count = 1; left = none; right = none; parent = none }) in
        let new : IsNew (with_node z name score hmap) t z.fresh = (
          blank,
          no_fresh z t name score hmap is short absent gained calm,
          λ (x : ℕ) (h : 0 < occ x t) e. absent x h (
              sym (
                other_write z.names z.fresh x name
                  (not_new z t name score hmap is short absent gained calm x h))
              ∙ e
              ∙ same_write z.names z.fresh name),
        ) in
        let (z', run'', grown) =
          tree_add-Grown fuel (with_node z name score hmap) t z.fresh deep small
            (with_node-HasTree z t name score hmap is short absent gained calm) new in
        (
          (true, z'),
          rw (run, run', run'') refl,
          record {
            tree = grown.tree;
            valid = grown-IsZset z t name score hmap is short absent gained calm z' grown;
            set = grown-HasScore z t name score hmap is short absent gained calm z' grown;
            others = grown-SameScores z t name score hmap is short absent gained calm z' grown;
            added = ((λ e. absent), λ h. refl);
            few = omega (arith, ap (λ m. length (entries m)) grown.hmap, gained.total);
            same = ap buckets grown.hmap ∙ same;
          },
        )
