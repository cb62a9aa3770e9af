-- ===== src/Server/SortedSets.antt =====
-- The commands on sorted sets of src/server.cpp return, on small data.
use redis_c.Base.{
  ℕ, suc, ◌^◌, ◌<◌, ◌≡◌, ◌⊎◌, refl, true, false, not, Option, none, some, List, [], ◌∷◌, length,
  drop, Run, ok, Returns, ◌>>=◌, arith, inl, inr, Bool-cases, ◌==◌, if◌then◌else◌,
}
use redis_c.HashMap.{k_resizing_work, load_place, Place, hm_lookup, hm_insert}
use redis_c.HashMap.Methods.{FoundIn}
use redis_c.Reply.{out_nil, out_int, out_err, out_double}
use redis_c.Keys.{Entry, hashed_entry, entry_key, Db}
use redis_c.Keys.Compare.{bytes_eq_refl}
use redis_c.Keys.Refine.{put, calm_lookup}
use redis_c.Keys.Update.{fresh_entry, hm_insert-Represents}
use redis_c.ZSet.{empty_zset}
use redis_c.ZSet.Names.{zset_lookup-Named}
use redis_c.ZSet.Add.{zset_add-Scored}
use redis_c.ZSet.Pop.{zset_pop-PoppedName}
use redis_c.Sets.{
  State, store_set, t_zset, err_type, err_arg, expecting_zset, str2double, expect_zset, add_tuple,
  do_zadd, do_zrem, do_zscore, expected_fp,
}
use redis_c.Server.Data.{
  IsSmallSet, IsSmallSet-size, empty_zset-IsSmallSet, Ready, fewer_Ready, fewer_IsSmallSet,
  after_Ready, store_set-Ready,
}

-- `expect_zset` finds a set, or replies and leaves the data
abbrev pub Expects : State → List ℕ → Type 0
Expects d key =
    (expect_zset 129 d key [] ≡ ok (true, [], d))
    ⊎ ((first : ℕ) × (rest : List ℕ) × (expect_zset 129 d key [] ≡ ok (false, first ∷ rest, d)))

fuel_enough : k_resizing_work < 129
fuel_enough = omega arith

pub expect_zset-Expects : (n : ℕ) (d : State) (key : List ℕ) → Ready n d → Expects d key
unfolding expect_zset out_nil out_err
expect_zset-Expects n d key r =
    let (found, run, at) = calm_lookup 129 fuel_enough d.db key r.holds.calm in
    by_place found run at
  where
    by_type :
        (place : Place) (e : Entry)
        → hm_lookup 129 d.db (entry_key key) ≡ ok (some place, d.db)
        → load_place d.db place ≡ ok e
        → Expects d key
    by_type place e run at = elim (Bool-cases (e.type == t_zset)) [
      | inl is_set ↦ inl (rw (run, at, is_set))
      | inr other ↦ inr (1, drop 1 (out_err [] err_type expecting_zset), rw (run, at, other))
    ]

    by_place :
        (found : Option Place)
        → hm_lookup 129 d.db (entry_key key) ≡ ok (found, d.db)
        → FoundIn (entry_key key) d.db found
        → Expects d key
    by_place none run at = inr (0, [], rw run)
    by_place (some place) run (e, at, pass) = by_type place e run at

module _ (n : ℕ) (d : State) (r : Ready (suc n) d) (key : List ℕ) where
  abbrev pub Answers : Run (List ℕ × State) → Type 0
  Answers call = Returns call (λ (out, d'). Ready n d')

  pub still : Ready n d
  still = fewer_Ready n (suc n) d (omega arith) r

  pub do_zrem-Ready : (name : List ℕ) → Answers (do_zrem 129 d key name [])
  unfolding do_zrem
  do_zrem-Ready name = by_set (expect_zset-Expects (suc n) d key r)
    where
      by_set : Expects d key → Answers (do_zrem 129 d key name [])
      by_set (inr (b, rest, run)) = ((b ∷ rest, d), rw run, still)
      by_set (inl run) =
          let small = r.sets key in
          let few = IsSmallSet-size (suc n) (d.sets key) small in
          let ((o, z), run', popped) =
            zset_pop-PoppedName 129 (d.sets key) small.tree name fuel_enough (omega (arith, few))
              (omega (arith, few)) small.valid in
          (
            (out_int [] (elim o [ none ↦ 0 | some node ↦ 1 ]), store_set d key z),
            rw (run, run') refl,
            store_set-Ready n d key z still (record {
              tree = popped.tree;
              valid = popped.valid;
              roomy = omega (arith, small.roomy, popped.same);
              few = omega (arith, small.few, popped.few);
            }),
          )

  pub do_zscore-Ready : (name : List ℕ) → Answers (do_zscore 129 d key name [])
  unfolding do_zscore
  do_zscore-Ready name = by_set (expect_zset-Expects (suc n) d key r)
    where
      by_set : Expects d key → Answers (do_zscore 129 d key name [])
      by_set (inr (b, rest, run)) = ((b ∷ rest, d), rw run, still)
      by_set (inl run) =
          let small = r.sets key in
          let (o, run', named) =
            zset_lookup-Named 129 (d.sets key) small.tree name fuel_enough small.valid in
          (
            (
              elim o [ none ↦ out_nil [] | some node ↦ out_double [] ((d.sets key).scores node) ],
              store_set d key (d.sets key),
            ),
            rw (run, run') refl,
            store_set-Ready n d key (d.sets key) still
                (fewer_IsSmallSet n (suc n) (d.sets key) (omega arith) small),
          )

  -- the end of `do_zadd`, on other data of the same sets but one
  add_tuple-Ready :
      (d' : State) (name : List ℕ) (score : ℕ)
      → length name < 2 ^ 32
      → Ready n d'
      → IsSmallSet (suc n) (d'.sets key)
      → Answers (add_tuple 129 d' key name score [])
  unfolding add_tuple
  add_tuple-Ready d' name score short ready small =
      let few = IsSmallSet-size (suc n) (d'.sets key) small in
      let ((added, z), run, scored) =
        zset_add-Scored 129 (d'.sets key) small.tree name score fuel_enough (omega (arith, few))
          (omega (arith, few)) short (omega (arith, small.few))
          (omega (arith, small.few, small.roomy)) small.valid in
      (
        (out_int [] (if added then 1 else 0), store_set d' key z),
        rw run refl,
        store_set-Ready n d' key z ready (record {
          tree = scored.tree;
          valid = scored.valid;
          roomy = omega (arith, small.roomy, scored.same);
          few = omega (arith, small.few, scored.few);
        }),
      )

  -- `do_zadd` from the lookup on
  abbrev place_of : List ℕ → ℕ → Option Place → Run (List ℕ × State)
  place_of name bits none = do
    db' ← hm_insert 129 d.db (fresh_entry t_zset key [])
    add_tuple 129 (store_set (record d { db = db' }) key empty_zset) key name bits []
  place_of name bits (some place) = do
    e ← load_place d.db place
    if not (e.type == t_zset)
        then ok (out_err [] err_type expecting_zset, d)
        else add_tuple 129 d key name bits []

  pub do_zadd-Ready :
      (strtod : List ℕ → ℕ × ℕ) (score name : List ℕ)
      → length name < 2 ^ 32
      → Answers (do_zadd strtod 129 d key score name [])
  unfolding do_zadd
  do_zadd-Ready strtod score name short = by_score (str2double strtod score)
    where
      new_set :
          (bits : ℕ) (db' : Db)
          → Ready n (record d { db = db' })
          → Answers
              (add_tuple 129 (store_set (record d { db = db' }) key empty_zset) key name bits [])
      new_set bits db' ready =
          let small : IsSmallSet (suc n) empty_zset =
            empty_zset-IsSmallSet (suc n) (omega (arith, r.few)) in
          add_tuple-Ready (store_set (record d { db = db' }) key empty_zset) name bits short
            (store_set-Ready n (record d { db = db' }) key empty_zset ready
              (fewer_IsSmallSet n (suc n) empty_zset (omega arith) small))
            (rw (bytes_eq_refl key) small)

      by_place :
          (bits : ℕ) (found : Option Place)
          → FoundIn (entry_key key) d.db found
          → Answers (place_of name bits found)
      by_place bits none at =
          let (db', run, done) =
            hm_insert-Represents 129 fuel_enough d.db r.values t_zset key [] r.holds at.missing
              (omega arith) (omega (arith, r.few)) (omega (arith, r.few, r.roomy)) in
          let (result, run', ready) =
            new_set bits db' (after_Ready n d db' (put r.values key []) r done.0 done.1) in
          (result, rw run run', ready)
      by_place bits (some place) (e, at, pass) = elim (Bool-cases (e.type == t_zset)) [
        | inr other ↦ ((out_err [] err_type expecting_zset, d), rw (at, other) refl, still)
        | inl is_set ↦
            let (result, run, ready) = add_tuple-Ready d name bits short still (r.sets key) in
            (result, rw (at, is_set) run, ready)
      ]

      by_score :
          (bits : Option ℕ)
          → Answers (elim bits [
            | none ↦ ok (out_err [] err_arg expected_fp, d)
            | some bits ↦ do
              (hnode, db) ← hm_lookup 129 d.db (entry_key key)
              elim hnode [
                | none ↦ do
                  db' ← hm_insert 129 db (fresh_entry t_zset key [])
                  add_tuple 129 (store_set (record d { db = db' }) key empty_zset) key name bits []
                | some place ↦ do
                  e ← load_place db place
                  if not (e.type == t_zset)
                      then ok (out_err [] err_type expecting_zset, record d { db = db })
                      else add_tuple 129 (record d { db = db }) key name bits []
              ]
          ])
      by_score none = ((out_err [] err_arg expected_fp, d), refl, still)
      by_score (some bits) =
          let (found, run, at) = calm_lookup 129 fuel_enough d.db key r.holds.calm in
          let (result, run', done) = by_place bits found at in (result, rw run run', done)
