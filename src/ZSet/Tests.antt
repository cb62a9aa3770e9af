-- ===== src/ZSet/Tests.antt =====
-- The theorems at a set of two tuples, and runs of the code, from src/zset.cpp.
use mathlib.Core.List.{flatten}
use redis_c.Base.{
  ℕ, ap, zero, suc, ◌+◌, ◌-◌, ◌^◌, ◌<◌, ◌≤◌, ◌≡◌, refl, List, [], ◌∷◌, none, some, get_or, length,
  ◌==◌, if◌then◌else◌, ok, ◌>>=◌, Returns, All, bit_and, arith, inl, inr, count,
}
use redis_c.HashTable.{null_table, h_lookup, load_link, h_insert}
use redis_c.HashTable.Table.{chains}
use redis_c.HashMap.{hm_size, hm_help_resizing, insert_and_grow}
use redis_c.HashMap.Invariant.{entries}
use redis_c.HashMap.Insert.{IsCalm}
use redis_c.Keys.{str_hash, hash_from, bytes_eq}
use redis_c.Avl.Tree.{Tree, leaf, node, occ}
use redis_c.ZSet.{
  ZRef, ZSet, memcmp, tuple_less, zset_add, zset_query, zset_pop, zset_lookup, zset_dispose,
  hashed_ref,
}
use redis_c.ZSet.Order.{less, tuple_less-less}
use redis_c.ZSet.Invariant.{HasTree}
use redis_c.ZSet.Query.{Cut, query_answer, zset_query-Cut}
use redis_c.ZSet.Names.{at_ref, IsZset}
use redis_c.ZSet.Add.{Scored, zset_add-Scored}
use redis_c.ZSet.Pop.{PoppedName, zset_pop-PoppedName, zset_dispose-freed}

code : Unit {0}
unfolding memcmp tuple_less str_hash hash_from bytes_eq zset_add zset_query zset_pop zset_lookup
    zset_dispose hm_help_resizing h_lookup load_link insert_and_grow h_insert
code = tt

abbrev ref_of : ℕ → List ℕ → ZRef
ref_of i name = record { ref = i; hcode = str_hash name; name = name }

-- the scores of "a" and "b" are the patterns 5 and 3
abbrev pair_names : ℕ → List ℕ
pair_names = λ i. if i == 0 then 97 ∷ [] else if i == 1 then 98 ∷ [] else []

abbrev pub pair : ZSet
pair = record {
  tree = some 0;
  hmap = record {
    ht_to = record {
      table = some ([] ∷ [] ∷ (ref_of 0 (97 ∷ []) ∷ []) ∷ (ref_of 1 (98 ∷ []) ∷ []) ∷ []);
      mask = 3;
      size = 2;
    };
    ht_from = null_table;
    resizing_pos = 0;
  };
  links = λ i.
      if i == 0
      then record { depth = 2; count = 2; left = some 1; right = none; parent = none }
      else record { depth = 1; count = 1; left = none; right = none; parent = some 0 };
  scores = λ i. if i == 0 then 5 else if i == 1 then 3 else 0;
  names = pair_names;
  fresh = 2;
}

abbrev pub pair_tree : Tree
pair_tree = node (node leaf 1 leaf) 0 leaf

pair-Distinct : (x : ℕ) → occ x pair_tree ≤ 1
pair-Distinct zero = omega arith
pair-Distinct (suc zero) = omega arith
pair-Distinct (suc (suc x)) = ground arith

pair-outside : (x : ℕ) → occ (suc (suc x)) pair_tree ≡ 0
pair-outside x = ground arith

pair-short : (x : ℕ) → length (pair_names x) < 2 ^ 32
pair-short zero = omega arith
pair-short (suc zero) = omega arith
pair-short (suc (suc x)) = ground arith

pair_unique :
    (x y : ℕ) → 0 < occ x pair_tree → 0 < occ y pair_tree → pair_names x ≡ pair_names y → x ≡ y
pair_unique zero zero h k e = refl
pair_unique (suc zero) (suc zero) h k e = refl
pair_unique zero (suc zero) h k e = absurd (omega (arith, ap (λ xs. get_or xs 0 0) e))
pair_unique (suc zero) zero h k e = absurd (omega (arith, ap (λ xs. get_or xs 0 0) e))
pair_unique x (suc (suc y)) h k e = absurd (omega (arith, pair-outside y))
pair_unique (suc (suc x)) y h k e = absurd (omega (arith, pair-outside x))

pub pair-HasTree : HasTree pair pair_tree
unfolding code
pair-HasTree = record {
  root = refl;
  linked = (refl, (refl, tt, tt), tt);
  distinct = pair-Distinct;
  balanced = ((tt, tt, omega arith, omega arith), tt, omega arith, omega arith);
  sorted = ((refl, tt), (tt, tt));
  short = pair-short;
  unique = pair_unique;
}

pair-placed : (i : ℕ) → All (λ e. bit_and e.hcode 3 ≡ i) (get_or (chains pair.hmap.ht_to) i [])
unfolding code
pair-placed zero = tt
pair-placed (suc zero) = tt
pair-placed (suc (suc zero)) = (refl, tt)
pair-placed (suc (suc (suc zero))) = (refl, tt)
pair-placed (suc (suc (suc (suc i)))) = tt

pair-IsCalm : IsCalm pair.hmap
unfolding flatten
pair-IsCalm = record {
  valid = record {
    to_valid = inr (record {
      allocated = refl;
      width = refl;
      sized = refl;
      small = omega arith;
      placed = pair-placed;
      power = refl;
    });
    from_valid = inl refl;
    fits = omega arith;
    moving = λ e. absurd (cc);
  };
  idle = refl;
}

pair-refs : (x : ℕ) → count (at_ref x) (entries pair.hmap) ≡ occ x pair_tree
unfolding flatten
pair-refs x = omega arith

pair-IsZset : IsZset pair pair_tree
unfolding code flatten
pair-IsZset = record {
  has = pair-HasTree;
  calm = pair-IsCalm;
  refs = pair-refs;
  right = refl;
  old = pair-old;
}
  where
    pair-old : (x : ℕ) → 0 < occ x pair_tree → x < 2
    pair-old zero h = omega arith
    pair-old (suc zero) h = omega arith
    pair-old (suc (suc x)) h = omega (arith, pair-outside x)

-- runs

add_third :
    (zset_add 200 pair (99 ∷ []) 4 >>= λ (added, z). zset_query 20 z 4 [] (2 ^ 63)) ≡ ok (some 2)
unfolding code
add_third = refl

change_score :
    (zset_add 200 pair (98 ∷ []) 9 >>= λ (added, z). zset_query 20 z 0 [] (2 ^ 63)) ≡ ok (some 0)
unfolding code
change_score = refl

tuple_less-less_example :
    tuple_less 5 (97 ∷ []) 5 (97 ∷ 98 ∷ [])
    ≡ less (2 ^ 63 + 5) (97 ∷ []) (2 ^ 63 + 5) (97 ∷ 98 ∷ [])
tuple_less-less_example = tuple_less-less 5 (97 ∷ []) 5 (97 ∷ 98 ∷ []) (omega arith)

zset_query-Cut_example :
    (cut : Cut pair pair_tree 4 []) × (zset_query 10 pair 4 [] (2 ^ 63 - 1)
      ≡ ok (query_answer pair_tree cut.lower cut.upper (2 ^ 63 - 1)))
zset_query-Cut_example =
    zset_query-Cut 10 pair pair_tree 4 [] (2 ^ 63 - 1) (omega arith) (omega arith) (omega arith)
      pair-HasTree

zset_add-Scored_example :
    Returns (zset_add 129 pair (99 ∷ []) 4) (Scored pair pair_tree (99 ∷ []) 4)
unfolding flatten
zset_add-Scored_example =
    zset_add-Scored 129 pair pair_tree (99 ∷ []) 4 (omega arith) (omega arith) (omega arith)
      (omega arith) (omega arith) (omega arith) pair-IsZset

zset_pop-PoppedName_example :
    Returns (zset_pop 129 pair (97 ∷ [])) (PoppedName pair pair_tree (97 ∷ []))
zset_pop-PoppedName_example =
    zset_pop-PoppedName 129 pair pair_tree (97 ∷ []) (omega arith) (omega arith) (omega arith)
      pair-IsZset

zset_dispose-freed_example :
    Returns
      (zset_dispose 3 pair)
      (λ out. ((x : ℕ) → count (λ y. y == x) out.0 ≡ occ x pair_tree) × (hm_size out.1.hmap ≡ 0))
zset_dispose-freed_example = zset_dispose-freed 3 pair pair_tree (omega arith) pair-HasTree
