-- ===== src/ZSet/Names.antt =====
-- The hash map of a sorted set beside its tree, and `zset_lookup`, src/zset.cpp.
use mathlib.Core.Path.{subst}
use redis_c.Base.{
  ℕ, ◌+◌, ◌≤◌, ◌<◌, ◌≡◌, ◌≢◌, ◌⊎◌, refl, sym, ◌∙◌, Bool, true, false, ◌&&◌, not, Option, none, some,
  List, [], ◌∷◌, ◌==◌, ==_refl, ==_iff, arith, ap, Bool-cases, inl, inr, Run, ok, count, ◌>>=◌,
}
use redis_c.HashTable.{RespectsHash}
use redis_c.HashMap.{HMap, Place, load_place, hm_lookup, k_resizing_work}
use redis_c.HashMap.Invariant.{entries, IsMap}
use redis_c.HashMap.Methods.{FoundIn, hm_lookup-FoundIn, detach_place-Took}
use redis_c.HashMap.Insert.{IsCalm}
use redis_c.Keys.{bytes_eq, str_hash}
use redis_c.Keys.Compare.{bytes_eq_refl, eq_of_bytes_eq}
use redis_c.Avl.Tree.{Tree, leaf, node, occ}
use redis_c.ZSet.{ZSet, ZRef, hashed_ref, name_key, zset_lookup}
use redis_c.ZSet.Invariant.{HasTree}

abbrev pub at_ref : ℕ → ZRef → Bool
at_ref x = λ e. e.ref == x

-- what the map reads of a node is not what is in memory
abbrev pub wrong : (ℕ → List ℕ) → ZRef → Bool
wrong names e = not (e.hcode == str_hash e.name && bytes_eq e.name (names e.ref))

-- One tree and one map over the same nodes.
pub record IsZset (z : ZSet) (t : Tree) : Type 0 where
  pub has : HasTree z t
  pub calm : IsCalm z.hmap
  pub refs : (x : ℕ) → count (at_ref x) (entries z.hmap) ≡ occ x t
  pub right : count (wrong z.names) (entries z.hmap) ≡ 0
  pub old : (x : ℕ) → 0 < occ x t → x < z.fresh

-- the node of a name, or none if no node has it
abbrev pub Named : ZSet → Tree → List ℕ → Option ℕ → Type 0
Named z t name none = (x : ℕ) → 0 < occ x t → z.names x ≢ name
Named z t name (some x) = (0 < occ x t) × (z.names x ≡ name)

pub count_le :
    (p q r : ZRef → Bool) (es : List ZRef)
    → ((e : ZRef) → p e ≡ true → (q e ≡ true) ⊎ (r e ≡ true))
    → count p es ≤ count q es + count r es
count_le p q r [] either = omega arith
count_le p q r (e ∷ es) either = ground (arith, count_le p q r es either, either e)

and_parts : (a b : Bool) → (a && b) ≡ true → (a ≡ true) × (b ≡ true)
and_parts true b h = (refl, h)
and_parts false b h = absurd (cc)

pub name_key-RespectsHash : (name : List ℕ) → RespectsHash (name_key name)
name_key-RespectsHash name e pass =
    (==_iff e.hcode (str_hash name)).0
      (and_parts (e.hcode == str_hash name) (bytes_eq e.name name) pass).0

pub name_of_pass : (name : List ℕ) (e : ZRef) → (name_key name).cmp e ≡ true → e.name ≡ name
name_of_pass name e pass =
    eq_of_bytes_eq e.name name (and_parts (e.hcode == str_hash name) (bytes_eq e.name name) pass).1

-- what a pointer reads is counted
loaded-counted :
    (m : HMap ZRef) (place : Place) (e : ZRef) (p : ZRef → Bool)
    → IsMap m
    → load_place m place ≡ ok e
    → p e ≡ true
    → 0 < count p (entries m)
loaded-counted m place e p v at pass =
    let (m', run, took) = detach_place-Took m place e v at in ground (arith, took.counted p, pass)

right_name :
    (names : ℕ → List ℕ) (e : ZRef)
    → wrong names e ≡ false
    → (e.hcode ≡ str_hash e.name) × (e.name ≡ names e.ref)
right_name names e h =
    let (a, b) =
      and_parts (e.hcode == str_hash e.name) (bytes_eq e.name (names e.ref)) (not_false _ h) in
    ((==_iff e.hcode (str_hash e.name)).0 a, eq_of_bytes_eq e.name (names e.ref) b)
  where
    not_false : (b : Bool) → not b ≡ false → b ≡ true
    not_false true h = refl
    not_false false h = absurd (cc)

-- an entry that is counted
pub entry_name :
    (names : ℕ → List ℕ) (es : List ZRef) (e : ZRef)
    → count (wrong names) es ≡ 0
    → ((p : ZRef → Bool) → p e ≡ true → 0 < count p es)
    → (e.hcode ≡ str_hash e.name) × (e.name ≡ names e.ref)
entry_name names es e right counted = elim (Bool-cases (wrong names e)) [
  | inl bad ↦ absurd (omega (arith, counted (wrong names) bad))
  | inr good ↦ right_name names e good
]

-- a map without the name is a tree without it
pub missing-Named :
    (z : ZSet) (t : Tree) (name : List ℕ)
    → IsZset z t
    → count (name_key name).cmp (entries z.hmap) ≡ 0
    → Named z t name none
missing-Named z t name is missing x inside e =
    let some_there =
      count_le (at_ref x) (wrong z.names) (name_key name).cmp (entries z.hmap)
        (λ r h. accepted r h) in
    omega (arith, some_there, is.refs x, is.right)
  where
    both : (a b : Bool) → a ≡ true → b ≡ true → (a && b) ≡ true
    both a b h k = rw (h, k) refl

    accepted :
        (r : ZRef) → at_ref x r ≡ true → (wrong z.names r ≡ true) ⊎ ((name_key name).cmp r ≡ true)
    accepted r h = elim (Bool-cases (wrong z.names r)) [
      | inl bad ↦ inl bad
      | inr good ↦
          let (code, same) = right_name z.names r good in
          let named : r.name ≡ name = same ∙ ap z.names ((==_iff r.ref x).0 h) ∙ e in
          inr (
            both (r.hcode == str_hash name) (bytes_eq r.name name)
              ((==_iff r.hcode (str_hash name)).1 (code ∙ ap str_hash named))
              (ap (λ n. bytes_eq n name) named ∙ bytes_eq_refl name))
    ]

-- an entry that the name accepts is a node of the tree
pub passed-Named :
    (z : ZSet) (t : Tree) (name : List ℕ) (e : ZRef)
    → IsZset z t
    → ((p : ZRef → Bool) → p e ≡ true → 0 < count p (entries z.hmap))
    → (name_key name).cmp e ≡ true
    → Named z t name (some e.ref)
passed-Named z t name e is counted pass = (
  subst (λ m. 0 < m) (is.refs e.ref) (counted (at_ref e.ref) (==_refl e.ref)),
  sym (entry_name z.names (entries z.hmap) e is.right counted).1 ∙ name_of_pass name e pass,
)

-- the rest of `zset_lookup`
abbrev reply : ZSet → HMap ZRef → Option Place → Run (Option ℕ × ZSet)
reply z hmap none = ok (none, record z { hmap = hmap })
reply z hmap (some place) = do e ← load_place hmap place; ok (some e.ref, record z { hmap = hmap })

zset_lookup_lem :
    (fuel : ℕ) (z : ZSet) (name : List ℕ) (root : Option ℕ)
    → z.tree ≡ root
    → zset_lookup fuel z name ≡ (elim root [
      | none ↦ ok (none, z)
      | some i ↦ do
        (found, hmap) ← hm_lookup fuel z.hmap (name_key name)
        elim found [
          | none ↦ ok (none, record z { hmap = hmap })
          | some place ↦ do e ← load_place hmap place; ok (some e.ref, record z { hmap = hmap })
        ]
    ])
unfolding zset_lookup
zset_lookup_lem fuel z name root e =
    ap
      (λ (o : Option ℕ).
        let m : Run (Option ℕ × ZSet) = elim o [
          | none ↦ ok (none, z)
          | some i ↦ do
            (found, hmap) ← hm_lookup fuel z.hmap (name_key name)
            elim found [
              | none ↦ ok (none, record z { hmap = hmap })
              | some place ↦ do e ← load_place hmap place; ok (some e.ref, record z { hmap = hmap })
            ]
        ] in
        m)
      e

-- The node of the name, in a set that stays as it is.
pub zset_lookup-Named :
    (fuel : ℕ) (z : ZSet) (t : Tree) (name : List ℕ)
    → k_resizing_work < fuel
    → IsZset z t
    → (r : Option ℕ) × (zset_lookup fuel z name ≡ ok (r, z)) × Named z t name r
zset_lookup-Named fuel z leaf name enough is =
    (none, zset_lookup_lem fuel z name none is.has.root, λ x inside e. omega arith)
zset_lookup-Named fuel z (node l i r) name enough is =
    let ((found, hmap), run, (helps, at)) =
      hm_lookup-FoundIn fuel z.hmap (name_key name) is.calm.valid (inl is.calm.idle) enough
        (name_key-RespectsHash name) in
    let same : hmap ≡ z.hmap = helps.idle is.calm.idle in
    let (o, run', named) = read found hmap same at in
    (
      o,
      zset_lookup_lem fuel z name (some i) is.has.root
          ∙ ap (λ m. m >>= λ (found, hmap). reply z hmap found) run
          ∙ run',
      named,
    )
  where
    read :
        (found : Option Place) (hmap : HMap ZRef)
        → hmap ≡ z.hmap
        → FoundIn (name_key name) hmap found
        → (o : Option ℕ) × (reply z hmap found ≡ ok (o, z)) × Named z (node l i r) name o
    read none hmap same gone = (
      none,
      ap (λ h. ok (none, record z { hmap = h })) same,
      missing-Named z (node l i r) name is
          (ap (λ h. count (name_key name).cmp (entries h)) (sym same) ∙ gone.missing),
    )
    read (some place) hmap same (e, at, pass) =
        let at' : load_place z.hmap place ≡ ok e = ap (λ h. load_place h place) (sym same) ∙ at in
        (
          some e.ref,
          rw at (ap (λ h. ok (some e.ref, record z { hmap = h })) same),
          passed-Named z (node l i r) name e is
              (λ p h. loaded-counted z.hmap place e p is.calm.valid at' h) pass,
        )
