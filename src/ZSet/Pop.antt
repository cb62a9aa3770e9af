-- ===== src/ZSet/Pop.antt =====
-- `zset_pop` and `tree_dispose` of src/zset.cpp.
use mathlib.Core.Path.{ap₂}
use redis_c.Base.{
  ℕ, zero, suc, ◌+◌, ◌≤◌, ◌<◌, ◌^◌, ◌≡◌, ◌≢◌, refl, sym, ◌∙◌, Bool, true, Option, none, some, List,
  [], ◌∷◌, ◌++◌, ◌==◌, ==_iff, if◌then◌else◌, arith, ap, Bool-cases, inl, inr, Run, ok, Returns,
  count, count-append, ◌>>=◌, length,
}
use redis_c.HashMap.{HMap, empty_map, hm_pop, hm_destroy, hm_size, k_resizing_work}
use redis_c.HashMap.Invariant.{entries}
use redis_c.HashMap.Growth.{buckets}
use redis_c.HashMap.Methods.{Popped, Took, hm_pop-Popped}
use redis_c.Avl.{Store, avl_delete}
use redis_c.Avl.Tree.{Tree, leaf, node, root_of, occ, size}
use redis_c.Avl.Link.{Linked}
use redis_c.ZSet.{ZSet, ZRef, hashed_ref, name_key, zset_pop, tree_dispose, zset_dispose}
use redis_c.ZSet.Update.{Without, avl_delete-Without}
use redis_c.ZSet.Invariant.{HasTree}
use redis_c.ZSet.Names.{
  IsZset, Named, at_ref, wrong, name_key-RespectsHash, missing-Named, passed-Named,
}
use redis_c.ZSet.Scores.{SameScores, HasTree-frame}

-- the answer of `zset_pop`, and the set that it leaves
pub record PoppedName (z : ZSet) (t : Tree) (name : List ℕ) (out : Option ℕ × ZSet) : Type 0 where
  pub tree : Tree
  pub valid : IsZset out.1 tree
  pub result : Named z t name out.0
  pub gone : Named out.1 tree name none
  pub others : SameScores z t name out.1 tree
  pub few : length (entries out.1.hmap) ≤ length (entries z.hmap)
  pub same : buckets out.1.hmap ≡ buckets z.hmap

abbrev rest : ℕ → ZSet → HMap ZRef → Option ZRef → Run (Option ℕ × ZSet)
rest fuel z hmap none = ok (none, record z { hmap = hmap })
rest fuel z hmap (some e) = do
  (root', links) ← avl_delete fuel z.links e.ref
  ok (some e.ref, record z { tree = root'; hmap = hmap; links = links })

zset_pop_lem :
    (fuel : ℕ) (z : ZSet) (name : List ℕ) (root : Option ℕ)
    → z.tree ≡ root
    → zset_pop fuel z name ≡ (elim root [
      | none ↦ ok (none, z)
      | some i ↦ do (found, hmap) ← hm_pop fuel z.hmap (name_key name); rest fuel z hmap found
    ])
unfolding zset_pop
zset_pop_lem fuel z name root e =
    ap
      (λ (o : Option ℕ).
        let m : Run (Option ℕ × ZSet) = elim o [
          | none ↦ ok (none, z)
          | some i ↦ do (found, hmap) ← hm_pop fuel z.hmap (name_key name); rest fuel z hmap found
        ] in
        m)
      e

same-SameScores : (z : ZSet) (t : Tree) (name : List ℕ) → SameScores z t name z t
same-SameScores z t name = record { kept = λ name' rank ne h. h; only = λ name' rank ne h. h }

twice : (k x a b : ℕ) → a + (if k == x then 1 else 0) ≡ b → b ≤ 1 → x ≡ k → 0 < a → ⊥
twice k x a b f p here q = ground arith

-- a node was taken out of the map and of the tree
module _ (z : ZSet) (t : Tree) (name : List ℕ) (e : ZRef) (hmap : HMap ZRef)
    (out : Option ℕ × Store) (is : IsZset z t) (named : Named z t name (some e.ref))
    (took : Took z.hmap e hmap) (without : Without z t e.ref out) where
  abbrev left_over : ZSet
  left_over = record z { tree = out.0; hmap = hmap; links = out.1 }

  was_there : (x : ℕ) → 0 < occ x without.tree → 0 < occ x t
  was_there x h = omega (arith, without.nodes x)

  left-Named : Named left_over without.tree name none
  left-Named x h same =
      let here : x ≡ e.ref = is.has.unique x e.ref (was_there x h) named.0 (same ∙ sym named.1) in
      twice e.ref x (occ x without.tree) (occ x t) (without.nodes x) (is.has.distinct x) here h

  left-IsZset : IsZset left_over without.tree
  left-IsZset = record {
    has =
        HasTree-frame (record z { tree = out.0; links = out.1 }) left_over without.tree refl
          (λ x h. (refl, refl, refl)) is.has.short without.has;
    calm = record { valid = took.valid; idle = took.stays_idle is.calm.idle };
    refs = λ x.
        cancel x (count (at_ref x) (entries hmap)) (occ x without.tree) (took.counted (at_ref x))
          (is.refs x) (without.nodes x);
    right = none_wrong (if wrong z.names e then 1 else 0) (took.counted (wrong z.names)) is.right;
    old = λ x h. is.old x (was_there x h);
  }
    where
      cancel :
          (x a b : ℕ) {c d : ℕ}
          → (if e.ref == x then 1 else 0) + a ≡ c
          → c ≡ d
          → b + (if e.ref == x then 1 else 0) ≡ d
          → a ≡ b
      cancel x a b f g h = omega arith

      none_wrong : (k : ℕ) {a b : ℕ} → k + a ≡ b → b ≡ 0 → a ≡ 0
      none_wrong k f g = omega arith

  left-SameScores : SameScores z t name left_over without.tree
  left-SameScores = record {
    kept = λ name' rank ne (x, h, same, s). (
      x,
      stays x (occ x without.tree) (occ x t) (without.nodes x) h
          (λ here. ne (sym same ∙ ap z.names (sym here) ∙ named.1)),
      same,
      s,
    );
    only = λ name' rank ne (x, h, same, s). (x, was_there x h, same, s);
  }
    where
      stays : (x a b : ℕ) → a + (if e.ref == x then 1 else 0) ≡ b → 0 < b → e.ref ≢ x → 0 < a
      stays x a b f p ne = elim (Bool-cases (e.ref == x)) [
        | inl here ↦ absurd (ne ((==_iff e.ref x).0 here))
        | inr other ↦ omega (arith, rw other at f)
      ]

taken : (b : Bool) (m k : ℕ) → (if b then 1 else 0) + m ≡ k → b ≡ true → 0 < k
taken b m k f h = ground arith

-- On a well-formed set whose hash map is in no resize, of fewer than 2 ^ 30 nodes, with fuel
-- above 128 and above twice the nodes, `zset_pop` returns. A node that it returns has the name,
-- and a null result means that no node had it. The set stays well formed, no node has the name
-- any more, and every other name keeps its score, or has none as before. The hash map has no
-- more nodes, in as many buckets.
pub zset_pop-PoppedName :
    (fuel : ℕ) (z : ZSet) (t : Tree) (name : List ℕ)
    → k_resizing_work < fuel
    → size t + size t < fuel
    → size t < 2 ^ 30
    → IsZset z t
    → Returns (zset_pop fuel z name) (PoppedName z t name)
zset_pop-PoppedName fuel z leaf name enough deep small is = (
  (none, z),
  zset_pop_lem fuel z name none is.has.root,
  record {
    tree = leaf;
    valid = is;
    result = λ x inside e. omega arith;
    gone = λ x inside e. omega arith;
    others = same-SameScores z leaf name;
    few = omega arith;
    same = refl;
  },
)
zset_pop-PoppedName fuel z (node l i r) name enough deep small is =
    let ((found, hmap), run, popped) =
      hm_pop-Popped fuel z.hmap (name_key name) is.calm.valid (inl is.calm.idle) enough
        (name_key-RespectsHash name) in
    let (out, run', done) = after found hmap popped in
    (
      out,
      zset_pop_lem fuel z name (some i) is.has.root
          ∙ ap (λ m. m >>= λ (found, hmap). rest fuel z hmap found) run
          ∙ run',
      done,
    )
  where
    after :
        (found : Option ZRef) (hmap : HMap ZRef)
        → Popped (name_key name) z.hmap (found, hmap)
        → Returns (rest fuel z hmap found) (PoppedName z (node l i r) name)
    after none hmap untouched =
        let absent = missing-Named z (node l i r) name is untouched.missing in
        (
          (none, z),
          ap (λ h. ok (none, record z { hmap = h })) (untouched.idle is.calm.idle),
          record {
            tree = node l i r;
            valid = is;
            result = absent;
            gone = absent;
            others = same-SameScores z (node l i r) name;
            few = omega arith;
            same = refl;
          },
        )
    after (some e) hmap (took, pass) =
        let named =
          passed-Named z (node l i r) name e is
            (λ p h.
              taken (p e) (count p (entries hmap)) (count p (entries z.hmap)) (took.counted p) h)
            pass in
        let (out, run, without) =
          avl_delete-Without fuel z (node l i r) e.ref deep small is.has named.0 in
        (
          (some e.ref, left_over z (node l i r) name e hmap out is named took without),
          rw run refl,
          record {
            tree = without.tree;
            valid = left-IsZset z (node l i r) name e hmap out is named took without;
            result = named;
            gone = left-Named z (node l i r) name e hmap out is named took without;
            others = left-SameScores z (node l i r) name e hmap out is named took without;
            few = omega (arith, took.total);
            same = ap₂ (λ n m. if n then 4 else m + 1) took.to_null took.to_mask;
          },
        )

-- Every node is freed, and none twice.
pub tree_dispose-occ :
    (t : Tree) (fuel : ℕ) (s : Store) (parent : Option ℕ)
    → size t < fuel
    → Linked s t parent
    → Returns
        (tree_dispose fuel s (root_of t))
        (λ freed. (x : ℕ) → count (λ y. y == x) freed ≡ occ x t)
unfolding tree_dispose
tree_dispose-occ t zero s parent enough h = absurd (omega arith)
tree_dispose-occ leaf (suc fuel) s parent enough h = ([], refl, λ x. refl)
tree_dispose-occ (node l i r) (suc fuel) s parent enough (e, hl, hr) =
    let (lower, run, freed) = tree_dispose-occ l fuel s (some i) (omega arith) hl in
    let (upper, run', freed') = tree_dispose-occ r fuel s (some i) (omega arith) hr in
    (
      lower ++ (upper ++ (i ∷ [])),
      rw (ap (λ n. n.left) e, ap (λ n. n.right) e, run, run') refl,
      λ x. omega (
        arith,
        count-append (λ y. y == x) lower (upper ++ (i ∷ [])),
        count-append (λ y. y == x) upper (i ∷ []),
        freed x,
        freed' x,
      ),
    )

-- On a set with a well-formed tree, with fuel above its nodes, `zset_dispose` returns, frees
-- every node of the tree exactly once and nothing else, and leaves an empty hash map.
pub zset_dispose-freed :
    (fuel : ℕ) (z : ZSet) (t : Tree)
    → size t < fuel
    → HasTree z t
    → Returns
        (zset_dispose fuel z)
        (λ out. ((x : ℕ) → count (λ y. y == x) out.0 ≡ occ x t) × (hm_size out.1.hmap ≡ 0))
unfolding zset_dispose hm_destroy hm_size
zset_dispose-freed fuel z t enough has =
    let (freed, run, each) = tree_dispose-occ t fuel z.links none enough has.linked in
    ((freed, record z { hmap = empty_map }), rw (has.root, run) refl, (each, refl))
