-- ===== src/ZSet/Scores.antt =====
-- The scores of the names in a sorted set, src/zset.cpp, and what a new score changes.
use mathlib.Core.Path.{subst}
use redis_c.Base.{ℕ, ◌<◌, ◌≡◌, ◌≢◌, sym, ◌∙◌, none, List, ap, count}
use redis_c.HashMap.Invariant.{entries}
use redis_c.HashMap.Insert.{IsCalm}
use redis_c.Avl.Tree.{Tree, occ, inorder}
use redis_c.Avl.Link.{Linked-frame}
use redis_c.Avl.Delete.Whole.{count-inorder}
use redis_c.ZSet.{ZSet, hashed_ref, score_rank, node_less, tuple_less}
use redis_c.ZSet.Sorted.{Sorted-same}
use redis_c.ZSet.Invariant.{HasTree, HasShortNames, All-occ}
use redis_c.ZSet.Update.{Updated}
use redis_c.ZSet.Names.{IsZset, at_ref, wrong}

-- a name has a score, up to the sign of zero
abbrev pub HasScore : ZSet → Tree → List ℕ → ℕ → Type 0
HasScore z t name rank =
    (x : ℕ) × (0 < occ x t) × (z.names x ≡ name) × (score_rank (z.scores x) ≡ rank)

-- the names but one keep their scores
pub record SameScores (z : ZSet) (t : Tree) (name : List ℕ) (z' : ZSet) (t' : Tree) : Type 0 where
  pub kept :
      (name' : List ℕ) (rank : ℕ)
      → name' ≢ name
      → HasScore z t name' rank
      → HasScore z' t' name' rank
  pub only :
      (name' : List ℕ) (rank : ℕ)
      → name' ≢ name
      → HasScore z' t' name' rank
      → HasScore z t name' rank

-- what the tree reads of its nodes
pub HasTree-frame :
    (z z' : ZSet) (t : Tree)
    → z'.tree ≡ z.tree
    → ((x : ℕ)
        → 0 < occ x t
        → (z'.links x ≡ z.links x) × (z'.scores x ≡ z.scores x) × (z'.names x ≡ z.names x))
    → HasShortNames z'
    → HasTree z t
    → HasTree z' t
HasTree-frame z z' t root same short has = record {
  root = root ∙ has.root;
  linked = Linked-frame t z.links z'.links none (λ j h. (same j h).0) has.linked;
  distinct = has.distinct;
  balanced = has.balanced;
  sorted =
      Sorted-same (node_less z) (node_less z') (λ x. 0 < occ x t) less_same (inorder t)
        (All-occ (λ x. 0 < occ x t) (inorder t) (λ x h. subst (λ m. 0 < m) (count-inorder x t) h))
        has.sorted;
  short = short;
  unique = λ x y h k e. has.unique x y h k (sym (same x h).2 ∙ e ∙ (same y k).2);
}
  where
    less_same : (a b : ℕ) → 0 < occ a t → 0 < occ b t → node_less z' a b ≡ node_less z a b
    less_same a b h k =
        let (_, sa, na) = same a h in
        let (_, sb, nb) = same b k in
        ap (λ m. tuple_less m (z'.names a) (z'.scores b) (z'.names b)) sa
        ∙ ap (λ m. tuple_less (z.scores a) m (z'.scores b) (z'.names b)) na
        ∙ ap (λ m. tuple_less (z.scores a) (z.names a) m (z'.names b)) sb
        ∙ ap (λ m. tuple_less (z.scores a) (z.names a) (z.scores b) m) nb

-- the score of a node was replaced
module _ (z : ZSet) (t : Tree) (name : List ℕ) (n score : ℕ) (z' : ZSet) (is : IsZset z t)
    (inside : 0 < occ n t) (named : z.names n ≡ name) (updated : Updated z t n score z') where
  pub updated-IsZset : IsZset z' updated.tree
  updated-IsZset = record {
    has = updated.has;
    calm = subst IsCalm (sym updated.hmap) is.calm;
    refs = λ x.
        ap (λ m. count (at_ref x) (entries m)) updated.hmap ∙ is.refs x ∙ sym (updated.nodes x);
    right =
        ap (λ m. count (wrong z'.names) (entries m)) updated.hmap
        ∙ ap (λ f. count (wrong f) (entries z.hmap)) updated.names
        ∙ is.right;
    old = λ x h.
        subst (λ m. x < m) (sym updated.fresh) (is.old x (subst (λ m. 0 < m) (updated.nodes x) h));
  }

  pub updated-HasScore : HasScore z' updated.tree name (score_rank score)
  updated-HasScore = (
    n,
    subst (λ m. 0 < m) (sym (updated.nodes n)) inside,
    ap (λ f. f n) updated.names ∙ named,
    updated.scored,
  )

  pub updated-SameScores : SameScores z t name z' updated.tree
  updated-SameScores = record {
    kept = λ name' rank ne (x, h, e, s). (
      x,
      subst (λ m. 0 < m) (sym (updated.nodes x)) h,
      ap (λ f. f x) updated.names ∙ e,
      ap score_rank (updated.others x (λ same. ne (sym e ∙ ap z.names (sym same) ∙ named))) ∙ s,
    );
    only = λ name' rank ne (x, h, e, s).
        let e' = sym (ap (λ f. f x) updated.names) ∙ e in
        (
          x,
          subst (λ m. 0 < m) (updated.nodes x) h,
          e',
          ap score_rank
                (sym (updated.others x (λ same. ne (sym e' ∙ ap z.names (sym same) ∙ named))))
              ∙ s,
        );
  }
