-- ===== src/HashTable.antt =====
-- src/hashtable.h and src/hashtable.cpp, one table: `struct HTable` and the `h_` functions.
-- A chain of `HNode`s linked by `next` is a list; the address of a link, `HNode **`, is the bucket's
-- position with the index in its chain. The nodes are intrusive in the source, so their type is a
-- parameter that has a hash code. `calloc` is taken to succeed.
pub mod Chain
pub mod Table
pub mod Scan
mod Tests
use redis_c.Base.{
  ℕ, zero, suc, ◌+◌, ◌-◌, ◌<◌, Bool, true, false, ◌&&◌, Option, none, some, List, [], ◌∷◌, bit_and,
  ltb, ◌==◌, if◌then◌else◌, get_elem?, set, replicate, erase_idx, u64, dec64, Run, ok, deref,
  assert, ◌>>=◌, ◌>>◌, ◌≡◌,
}

-- what is intrusive: a type of nodes with the field `hcode`
pub record Hashed {ℓ} (N : Type ℓ) : Type ℓ where
  pub hcode : N → ℕ

-- the argument `key` of a lookup: its `hcode`, and `cmp(_, key)`
pub record Key {ℓ} (N : Type ℓ) : Type ℓ where
  pub code : ℕ
  pub cmp : N → Bool

-- a comparison accepts a node only if the hash codes agree, as `hcmp` and `entry_eq` test first
abbrev pub RespectsHash {ℓ} : {N : Type ℓ} ⦃hashed : Hashed N⦄ → Key N → Type ℓ
RespectsHash {N} ⦃hashed⦄ k = (n : N) → k.cmp n ≡ true → hashed.hcode n ≡ k.code

pub record HTable {ℓ} (N : Type ℓ) : Type ℓ where
  pub table : Option (List (List N))
  pub mask : ℕ
  pub size : ℕ

-- `HTable{}`
abbrev pub null_table {ℓ} : {N : Type ℓ} → HTable N
null_table = record { table = none; mask = 0; size = 0 }

-- the address of a link
abbrev pub Link : Type 0
Link = ℕ × ℕ

module _ {ℓ} {N : Type ℓ} where
  unfoldable pub h_init : ℕ → Run (HTable N)
  h_init n = do
    assert (ltb 0 n && bit_and (n - 1) n == 0)
    ok (record { table = some (replicate n []); mask = n - 1; size = 0 })

  -- the loop of `h_lookup` over one chain
  unfoldable pub find_link : (N → Bool) → List N → Option ℕ
  find_link cmp [] = none
  find_link cmp (n ∷ c) =
      let rest : Option ℕ = elim (find_link cmp c) [ none ↦ none | some i ↦ some (suc i) ] in
      if cmp n then some 0 else rest

  unfoldable pub h_lookup : HTable N → Key N → Run (Option Link)
  unfolding find_link
  h_lookup t k = elim t.table [
    | none ↦ ok none
    | some b ↦ do
      let pos = bit_and k.code t.mask
      chain ← deref (get_elem? b pos)
      ok (elim (find_link k.cmp chain) [ none ↦ none | some i ↦ some (pos, i) ])
  ]

  -- `*from`
  unfoldable pub load_link : HTable N → Link → Run N
  load_link t (pos, i) = do
    b ← deref t.table
    chain ← deref (get_elem? b pos)
    deref (get_elem? chain i)

  unfoldable pub h_detach : HTable N → Link → Run (N × HTable N)
  h_detach t (pos, i) = do
    b ← deref t.table
    chain ← deref (get_elem? b pos)
    node ← deref (get_elem? chain i)
    ok (node, record t { table = some (set b pos (erase_idx chain i)); size = dec64 t.size })

  -- the callback `f` acts on what `arg` points to, a state of any type
  module _ {κ} {S : Type κ} (f : N → S → S) where
    unfoldable pub scan_chain : List N → S → S
    scan_chain [] s = s
    scan_chain (n ∷ c) s = scan_chain c (f n s)

    -- the rounds of the `for` loop from `i` on, as many as are left
    unfoldable pub scan_loop : List (List N) → ℕ → ℕ → S → Run S
    scan_loop b zero i s = ok s
    scan_loop b (suc left) i s = do
      chain ← deref (get_elem? b i)
      scan_loop b left (suc i) (scan_chain chain s)

    unfoldable pub h_scan : HTable N → S → Run S
    h_scan t s = if t.size == 0 then ok s else do b ← deref t.table; scan_loop b (t.mask + 1) 0 s

module _ {ℓ} {N : Type ℓ} ⦃hashed : Hashed N⦄ where
  unfoldable pub h_insert : HTable N → N → Run (HTable N)
  h_insert t node = do
    let pos = bit_and (hashed.hcode node) t.mask
    b ← deref t.table
    next ← deref (get_elem? b pos)
    ok (record t { table = some (set b pos (node ∷ next)); size = u64 (t.size + 1) })
