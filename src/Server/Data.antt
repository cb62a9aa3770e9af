-- ===== src/Server/Data.antt =====
-- The server's data, src/server.cpp: a small key space, and small sorted sets.
use mathlib.Core.List.{flatten}
use redis_c.Base.{ℕ, suc, ◌+◌, ◌<◌, ◌≤◌, refl, List, length, arith, Bool-cases, inl, inr}
use redis_c.HashMap.Invariant.{entries, empty_map-IsMap}
use redis_c.HashMap.Growth.{buckets}
use redis_c.Avl.Tree.{Tree, leaf, size}
use redis_c.Keys.{hashed_entry, Db, bytes_eq}
use redis_c.Keys.Refine.{Values, Represents, Grows}
use redis_c.ZSet.{ZSet, hashed_ref, empty_zset}
use redis_c.ZSet.Names.{IsZset}
use redis_c.ZSet.Size.{size-entries}
use redis_c.Sets.{State, store_set}

-- room for `n` more tuples before the hash map of a set grows
pub record IsSmallSet (n : ℕ) (z : ZSet) : Type 0 where
  pub tree : Tree
  pub valid : IsZset z tree
  pub roomy : 4 ≤ buckets z.hmap
  pub few : length (entries z.hmap) + n < 32

pub IsSmallSet-size : (n : ℕ) (z : ZSet) (r : IsSmallSet n z) → size r.tree + n < 32
IsSmallSet-size n z r = omega (arith, r.few, size-entries z r.tree r.valid)

empty_zset-IsZset : IsZset empty_zset leaf
unfolding flatten
empty_zset-IsZset = record {
  has = record {
    root = refl;
    linked = tt;
    distinct = λ x. omega arith;
    balanced = tt;
    sorted = tt;
    short = λ x. omega arith;
    unique = λ x y h k e. absurd (omega arith);
  };
  calm = record { valid = empty_map-IsMap; idle = refl };
  refs = λ x. refl;
  right = refl;
  old = λ x h. absurd (omega arith);
}

pub empty_zset-IsSmallSet : (n : ℕ) → n < 32 → IsSmallSet n empty_zset
unfolding flatten
empty_zset-IsSmallSet n h = record {
  tree = leaf;
  valid = empty_zset-IsZset;
  roomy = omega arith;
  few = omega arith;
}

-- room for `n` more keys and tuples before a hash map grows
pub record Ready (n : ℕ) (d : State) : Type 0 where
  pub values : Values
  pub holds : Represents d.db values
  pub roomy : 4 ≤ buckets d.db
  pub few : length (entries d.db) + n < 32
  pub sets : (key : List ℕ) → IsSmallSet n (d.sets key)

pub fewer_IsSmallSet : (n m : ℕ) (z : ZSet) → n ≤ m → IsSmallSet m z → IsSmallSet n z
fewer_IsSmallSet n m z h r = record {
  tree = r.tree;
  valid = r.valid;
  roomy = r.roomy;
  few = omega (arith, r.few, h);
}

pub fewer_Ready : (n m : ℕ) (d : State) → n ≤ m → Ready m d → Ready n d
fewer_Ready n m d h r = record {
  values = r.values;
  holds = r.holds;
  roomy = r.roomy;
  few = omega (arith, r.few, h);
  sets = λ key. fewer_IsSmallSet n m (d.sets key) h (r.sets key);
}

pub after_Ready :
    (n : ℕ) (d : State) (db' : Db) (f : Values)
    → Ready (suc n) d
    → Represents db' f
    → Grows d.db db'
    → Ready n (record d { db = db' })
after_Ready n d db' f r rep grows = record {
  values = f;
  holds = rep;
  roomy = omega (arith, r.roomy, grows.same);
  few = omega (arith, r.few, grows.few);
  sets = λ key. fewer_IsSmallSet n (suc n) (d.sets key) (omega arith) (r.sets key);
}

-- the set of one key is another one
pub store_set-Ready :
    (n : ℕ) (d : State) (key : List ℕ) (z : ZSet)
    → Ready n d
    → IsSmallSet n z
    → Ready n (store_set d key z)
store_set-Ready n d key z r small = record {
  values = r.values;
  holds = r.holds;
  roomy = r.roomy;
  few = r.few;
  sets = λ key'. elim (Bool-cases (bytes_eq key' key)) [
    | inl same ↦ rw same small
    | inr other ↦ rw other (r.sets key')
  ];
}
