-- ===== src/ZSet.antt =====
-- src/zset.h and src/zset.cpp, the sorted set: an AVL tree ordered by score and name and a hash map
-- by name over the same nodes. `ZSet` holds the struct and the memory of its nodes: the links of the
-- tree, and the score and name of the node at an address. Addresses are given out in order and none
-- twice; `malloc` succeeds, and `free` leaves no trace. A score is the bit pattern of a `double`
-- that is not NaN. The fuel is that of the tree and of the hash map.
pub mod Order
pub mod Sorted
pub mod Hang
pub mod Insert
pub mod Invariant
pub mod Update
pub mod Query
pub mod Names
pub mod Size
pub mod Scores
pub mod Add
pub mod Pop
pub mod Tests
use Prim.Native.Nat.{compare, Ordering}
use redis_c.Base.{
  ℕ, zero, suc, ◌+◌, ◌-◌, ◌^◌, Bool, true, false, ◌&&◌, not, Option, none, some, List, [], ◌∷◌,
  ◌++◌, ltb, ◌==◌, if◌then◌else◌, length, min, u32, Run, ok, out_of_fuel, deref, ◌>>=◌,
}
use redis_c.HashTable.{Hashed, Key}
use redis_c.HashMap.{HMap, empty_map, load_place, hm_lookup, hm_insert, hm_pop, hm_destroy}
use redis_c.Keys.{bytes_eq, str_hash}
use redis_c.Avl.{
  AvlNode, Store, set_left, set_right, set_parent, avl_init, avl_rebalance, avl_delete, avl_offset,
}

-- the fields of a `ZNode` that the hash map reads, and its address
pub record ZRef : Type 0 where
  pub ref : ℕ
  pub hcode : ℕ
  pub name : List ℕ

instance abbrev pub hashed_ref : Hashed ZRef
hashed_ref = record { hcode = λ e. e.hcode }

pub record ZSet : Type 0 where
  pub tree : Option ℕ
  pub hmap : HMap ZRef
  pub links : Store
  pub scores : ℕ → ℕ
  pub names : ℕ → List ℕ
  pub fresh : ℕ

-- a place in the order of the doubles, in which both zeros are one
abbrev pub score_rank : ℕ → ℕ
score_rank bits = if ltb bits (2 ^ 63) then 2 ^ 63 + bits else 2 ^ 64 - bits

-- `memcmp` on that many bytes
unfoldable pub memcmp : ℕ → List ℕ → List ℕ → Ordering
memcmp zero xs ys = Ordering.eq
memcmp (suc n) [] ys = Ordering.eq
memcmp (suc n) (x ∷ xs) [] = Ordering.eq
memcmp (suc n) (x ∷ xs) (y ∷ ys) = elim (compare x y) [
  | Ordering.lt ↦ Ordering.lt
  | Ordering.eq ↦ memcmp n xs ys
  | Ordering.gt ↦ Ordering.gt
]

-- both functions `zless`: whether one tuple stands before another, and one node before a tuple
unfoldable pub tuple_less : ℕ → List ℕ → ℕ → List ℕ → Bool
unfolding memcmp
tuple_less score' name' score name =
    if not (score_rank score' == score_rank score)
    then ltb (score_rank score') (score_rank score)
    else elim (memcmp (u32 (min (length name') (length name))) name' name) [
      | Ordering.lt ↦ true
      | Ordering.gt ↦ false
      | Ordering.eq ↦ ltb (length name') (length name)
    ]

abbrev pub zless : ZSet → ℕ → ℕ → List ℕ → Bool
zless z node score name = tuple_less (z.scores node) (z.names node) score name

abbrev pub node_less : ZSet → ℕ → ℕ → Bool
node_less z lhs rhs = zless z lhs (z.scores rhs) (z.names rhs)

abbrev pub write {ℓ} : {A : Type ℓ} → (ℕ → A) → ℕ → A → ℕ → A
write memory i value = λ j. if j == i then value else memory j

-- the new node, and the set with it in memory
unfoldable pub znode_new : ZSet → List ℕ → ℕ → ZRef × ZSet
unfolding avl_init
znode_new z name score = (
  record { ref = z.fresh; hcode = str_hash name; name = name },
  record z {
    links = avl_init z.links z.fresh;
    scores = write z.scores z.fresh score;
    names = write z.names z.fresh name;
    fresh = z.fresh + 1;
  },
)

-- `*from`, and what is written there with the new node's parent
unfoldable pub child_link : Store → ℕ → Bool → Option ℕ
child_link s curr less = if less then (s curr).left else (s curr).right

unfoldable pub hang : Store → ℕ → ℕ → Bool → Store
hang s curr node less =
    set_parent (if less then set_left s curr (some node) else set_right s curr (some node))
      (some node) (some curr)

-- the loop of `tree_add`, at a node `curr`: the links, with the new node in them
unfoldable pub add_loop : ℕ → ZSet → ℕ → ℕ → Run (ℕ × Store)
unfolding child_link hang avl_rebalance
add_loop zero z curr node = out_of_fuel
add_loop (suc fuel) z curr node =
    let less = node_less z node curr in
    elim (child_link z.links curr less) [
      | none ↦ avl_rebalance (suc fuel) (hang z.links curr node less) node
      | some next ↦ add_loop fuel z next node
    ]

unfoldable pub tree_add : ℕ → ZSet → ℕ → Run ZSet
unfolding add_loop
tree_add fuel z node = elim z.tree [
  | none ↦ ok (record z { tree = some node })
  | some root ↦ do
    (root', links) ← add_loop fuel z root node
    ok (record z { tree = some root'; links = links })
]

unfoldable pub zset_update : ℕ → ZSet → ℕ → ℕ → Run ZSet
unfolding avl_delete avl_init tree_add
zset_update fuel z node score = if score_rank (z.scores node) == score_rank score then ok z else do
  (root, links) ← avl_delete fuel z.links node
  tree_add fuel
      (record z { tree = root; links = avl_init links node; scores = write z.scores node score })
      node

-- `hcmp` with the key of a lookup
abbrev pub name_key : List ℕ → Key ZRef
name_key name = record {
  code = str_hash name;
  cmp = λ e. e.hcode == str_hash name && bytes_eq e.name name;
}

unfoldable pub zset_lookup : ℕ → ZSet → List ℕ → Run (Option ℕ × ZSet)
unfolding hm_lookup load_place
zset_lookup fuel z name = elim z.tree [
  | none ↦ ok (none, z)
  | some root ↦ do
    (found, hmap) ← hm_lookup fuel z.hmap (name_key name)
    elim found [
      | none ↦ ok (none, record z { hmap = hmap })
      | some place ↦ do node ← load_place hmap place; ok (some node.ref, record z { hmap = hmap })
    ]
]

unfoldable pub zset_add : ℕ → ZSet → List ℕ → ℕ → Run (Bool × ZSet)
unfolding zset_lookup zset_update znode_new hm_insert tree_add
zset_add fuel z name score = do
  (found, z') ← zset_lookup fuel z name
  elim found [
    | some node ↦ do z'' ← zset_update fuel z' node score; ok (false, z'')
    | none ↦ do
      let (node, made) = znode_new z' name score
      hmap ← hm_insert fuel made.hmap node
      z'' ← tree_add fuel (record made { hmap = hmap }) node.ref
      ok (true, z'')
  ]

-- the loop of `zset_query`
unfoldable pub query_loop : ℕ → ZSet → ℕ → List ℕ → Option ℕ → Option ℕ → Run (Option ℕ)
query_loop zero z score name curr found = out_of_fuel
query_loop (suc fuel) z score name curr found = elim curr [
  | none ↦ ok found
  | some node ↦
      let less = zless z node score name in
      query_loop fuel z score name (if less then (z.links node).right else (z.links node).left)
        (if less then found else some node)
]

unfoldable pub zset_query : ℕ → ZSet → ℕ → List ℕ → ℕ → Run (Option ℕ)
unfolding query_loop avl_offset
zset_query fuel z score name offset = do
  found ← query_loop fuel z score name z.tree none
  elim found [ none ↦ ok none | some node ↦ avl_offset fuel z.links node offset ]

unfoldable pub zset_pop : ℕ → ZSet → List ℕ → Run (Option ℕ × ZSet)
unfolding hm_pop avl_delete
zset_pop fuel z name = elim z.tree [
  | none ↦ ok (none, z)
  | some root ↦ do
    (found, hmap) ← hm_pop fuel z.hmap (name_key name)
    elim found [
      | none ↦ ok (none, record z { hmap = hmap })
      | some node ↦ do
        (root', links) ← avl_delete fuel z.links node.ref
        ok (some node.ref, record z { tree = root'; hmap = hmap; links = links })
    ]
]

-- the nodes that are freed, in order
unfoldable pub tree_dispose : ℕ → Store → Option ℕ → Run (List ℕ)
tree_dispose zero s start = out_of_fuel
tree_dispose (suc fuel) s start = elim start [
  | none ↦ ok []
  | some i ↦ do
    lower ← tree_dispose fuel s (s i).left
    upper ← tree_dispose fuel s (s i).right
    ok (lower ++ (upper ++ (i ∷ [])))
]

unfoldable pub zset_dispose : ℕ → ZSet → Run (List ℕ × ZSet)
unfolding tree_dispose
zset_dispose fuel z = do
  freed ← tree_dispose fuel z.links z.tree
  ok (freed, record z { hmap = hm_destroy z.hmap })

-- `ZSet{}`, before any node is allocated
abbrev pub empty_zset : ZSet
empty_zset = record {
  tree = none;
  hmap = empty_map;
  links = λ i. record { depth = 0; count = 0; left = none; right = none; parent = none };
  scores = λ i. 0;
  names = λ i. [];
  fresh = 0;
}
