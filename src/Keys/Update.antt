-- ===== src/Keys/Update.antt =====
-- `do_set` and `do_del` on the finite map that the key space stands for.
use mathlib.Core.Path.{subst, ap₂}
use redis_c.Base.{
  if◌then◌else◌, ℕ, ◌+◌, ◌*◌, ◌^◌, ◌<◌, ◌≤◌, ◌≡◌, refl, sym, ap, ◌∙◌, Bool, true, false, not, ◌&&◌,
  Option, none, some, List, length, count, Run, ok, Returns, ◌>>=◌, arith, Bool-cases, inl, inr,
  ==_refl,
}
use redis_c.HashMap.{is_null, Place, load_place, hm_insert, k_resizing_work}
use redis_c.HashMap.Invariant.{entries}
use redis_c.HashMap.Growth.{Gained, buckets}
use redis_c.HashMap.Methods.{FoundIn, Popped, Took, hm_pop-Popped}
use redis_c.HashMap.Insert.{IsCalm, hm_insert-IsCalm}
use redis_c.Request.{k_max_msg}
use redis_c.Reply.{out_nil, out_int}
use redis_c.Keys.{
  Entry, bytes_eq, str_hash, entry_key, store_place, Db, do_set, do_del, hashed_entry, t_str,
}
use redis_c.Keys.Compare.{
  bytes_eq_refl, eq_of_bytes_eq, entry_key-RespectsHash, key_of_pass, count_split, count_loaded,
}
use redis_c.Keys.Replace.{Swapped, store_place-Swapped}
use redis_c.Keys.Refine.{Grows, Values, put, without, has, other, Holds, Represents, calm_lookup}

kept-Holds :
    (db db' : Db) (key : List ℕ) (o : Option (List ℕ))
    → count (has key) (entries db') ≡ count (has key) (entries db)
    → ((v : List ℕ) → count (other key v) (entries db') ≡ count (other key v) (entries db))
    → Holds db key o
    → Holds db' key o
kept-Holds db db' key none same others held = same ∙ held
kept-Holds db db' key (some v) same others held = (same ∙ held.0, others v ∙ held.1, held.2)

-- an entry of one key is none of another key
pub elsewhere :
    (key key' : List ℕ) (e : Entry) → e.key ≡ key → bytes_eq key key' ≡ false → has key' e ≡ false
elsewhere key key' e here apart = elim (Bool-cases (has key' e)) [
  | inr fails ↦ fails
  | inl passes ↦
      let same : key ≡ key' = sym here ∙ key_of_pass key' e passes in
      let equal : bytes_eq key key' ≡ true = ap (λ k. bytes_eq k key') same ∙ bytes_eq_refl key' in
      absurd (cc)
]

one_entry :
    (db : Db) (key : List ℕ) (o : Option (List ℕ))
    → Holds db key o
    → 0 < count (has key) (entries db)
    → count (has key) (entries db) ≡ 1
one_entry db key none held some_there = absurd (omega (arith, held))
one_entry db key (some v) held some_there = held.0

-- The value of an entry was replaced.
module _ (db : Db) (f : Values) (rep : Represents db f) (key v : List ℕ) (place : Place) (e : Entry)
    (at : load_place db place ≡ ok e) (pass : has key e ≡ true) (short : length v ≤ k_max_msg)
    (db' : Db) (swapped : Swapped db e (record e { val = v }) db') where
  one : count (has key) (entries db) ≡ 1
  one =
      one_entry db key (f key) (rep.holds key)
        (count_loaded db place e (has key) rep.calm.valid at pass)

  one_after : count (has key) (entries db') ≡ 1
  one_after = let counted = swapped.counted (has key) in ground (arith, counted, one)

  new_value : other key v (record e { val = v }) ≡ false
  new_value = rw (pass, bytes_eq_refl v)

  no_other : count (other key v) (entries db') ≡ 0
  no_other =
      let counted = swapped.counted (other key v) in
      let split = count_split (has key) (λ x. bytes_eq x.val v) (entries db) in
      elim (Bool-cases (bytes_eq e.val v)) [
        | inl same ↦
            let both : (has key e && bytes_eq e.val v) ≡ true = rw (pass, same) in
            let there =
              count_loaded db place e (λ x. has key x && bytes_eq x.val v) rep.calm.valid at both in
            let old : other key v e ≡ false = rw (pass, same) in
            omega (arith, there, split, one, rw (old, new_value) at counted)
        | inr differs ↦
            let old : other key v e ≡ true = rw (pass, differs) in
            let there = count_loaded db place e (other key v) rep.calm.valid at old in
            omega (arith, there, split, one, rw (old, new_value) at counted)
      ]

  unaffected :
      (key' : List ℕ) (p : Entry → Bool)
      → p e ≡ false
      → p (record e { val = v }) ≡ false
      → count p (entries db') ≡ count p (entries db)
  unaffected key' p old new =
      let counted = swapped.counted p in omega (arith, rw (old, new) at counted)

  swapped-Represents : Represents db' (put f key v)
  swapped-Represents = record {
    calm = record { valid = swapped.valid; idle = swapped.idle rep.calm.idle };
    holds = λ key'. elim (Bool-cases (bytes_eq key key')) [
      | inl same ↦ rw same (
          subst (λ k. Holds db' k (some v)) (eq_of_bytes_eq key key' same)
            (one_after, no_other, short))
      | inr apart ↦
          let not_here = elsewhere key key' e (key_of_pass key e pass) apart in
          rw apart (
            kept-Holds db db' key' (f key') (unaffected key' (has key') not_here not_here)
              (λ w. unaffected key' (other key' w) (rw not_here) (rw not_here)) (rep.holds key'))
    ];
  }

abbrev pub fresh_entry : ℕ → List ℕ → List ℕ → Entry
fresh_entry type key v = record { key = key; hcode = str_hash key; val = v; type = type }

-- A new entry was inserted.
module _ (db : Db) (f : Values) (rep : Represents db f) (type : ℕ) (key v : List ℕ)
    (missing : count (has key) (entries db) ≡ 0) (short : length v ≤ k_max_msg) (db' : Db) where
  abbrev fresh : Entry
  fresh = fresh_entry type key v

  inserted-Represents : Gained db fresh db' → IsCalm db' → Represents db' (put f key v)
  inserted-Represents gained calm =
      let pass : has key fresh ≡ true = rw (==_refl, bytes_eq_refl key) in
      let right : other key v fresh ≡ false = rw (pass, bytes_eq_refl v) in
      let split = count_split (has key) (λ x. bytes_eq x.val v) (entries db) in
      record {
        calm = calm;
        holds = λ key'. elim (Bool-cases (bytes_eq key key')) [
          | inl same ↦ rw same (
              subst (λ k. Holds db' k (some v)) (eq_of_bytes_eq key key' same)
                (
                  omega (arith, rw pass at (gained.counted (has key)), missing),
                  omega (arith, rw right at (gained.counted (other key v)), missing, split),
                  short,
                ))
          | inr apart ↦
              let not_here = elsewhere key key' fresh refl apart in
              let not_other = λ (w : List ℕ). (ap (λ b. b && not (bytes_eq v w)) not_here) in
              rw apart (
                kept-Holds db db' key' (f key')
                  (omega (arith, rw not_here at (gained.counted (has key'))))
                  (λ w. omega (arith, rw (not_other w) at (gained.counted (other key' w))))
                  (rep.holds key'))
        ];
      }

-- An entry was taken out.
taken-Represents :
    (db : Db) (f : Values) (key : List ℕ) (e : Entry) (db' : Db)
    → Represents db f
    → has key e ≡ true
    → Took db e db'
    → Represents db' (without f key)
taken-Represents db f key e db' rep pass took =
    let counted = took.counted (has key) in
    let one = one_entry db key (f key) (rep.holds key) (ground (arith, counted, pass)) in
    record {
      calm = record { valid = took.valid; idle = took.stays_idle rep.calm.idle };
      holds = λ key'. elim (Bool-cases (bytes_eq key key')) [
        | inl same ↦ rw same (
            subst (λ k. Holds db' k none) (eq_of_bytes_eq key key' same)
              (ground (arith, counted, pass, one)))
        | inr apart ↦
            let not_here = elsewhere key key' e (key_of_pass key e pass) apart in
            let not_other = λ (w : List ℕ). (ap (λ b. b && not (bytes_eq e.val w)) not_here) in
            rw apart (
              kept-Holds db db' key' (f key')
                (omega (arith, rw not_here at (took.counted (has key'))))
                (λ w. omega (arith, rw (not_other w) at (took.counted (other key' w))))
                (rep.holds key'))
      ];
    }

-- The key that is not there was taken out.
absent-Represents :
    (db : Db) (f : Values) (key : List ℕ)
    → Represents db f
    → count (has key) (entries db) ≡ 0
    → Represents db (without f key)
absent-Represents db f key rep missing = record {
  calm = rep.calm;
  holds = λ key'. elim (Bool-cases (bytes_eq key key')) [
    | inl same ↦ rw same (subst (λ k. Holds db k none) (eq_of_bytes_eq key key' same) missing)
    | inr apart ↦ rw apart (rep.holds key')
  ];
}

same_buckets :
    (db db' : Db)
    → is_null db'.ht_to ≡ is_null db.ht_to
    → db'.ht_to.mask ≡ db.ht_to.mask
    → buckets db' ≡ buckets db
same_buckets db db' to_null to_mask = ap₂ (λ n m. if n then 4 else m + 1) to_null to_mask

-- the reply to `del`
abbrev pub was_there : Option (List ℕ) → ℕ
was_there none = 0
was_there (some v) = 1

not_there :
    (db : Db) (key : List ℕ) (o : Option (List ℕ))
    → Holds db key o
    → count (has key) (entries db) ≡ 0
    → was_there o ≡ 0
not_there db key none held missing = refl
not_there db key (some v) held missing = absurd (omega (arith, held.0))

there :
    (db : Db) (key : List ℕ) (o : Option (List ℕ))
    → Holds db key o
    → 0 < count (has key) (entries db)
    → was_there o ≡ 1
there db key none held some_there = absurd (omega (arith, held))
there db key (some v) held some_there = refl

abbrev deleted : List ℕ → Option Entry → Db → List ℕ × Db
deleted out o db' = elim o [ none ↦ (out_int out 0, db') | some e ↦ (out_int out 1, db') ]

module _ (fuel : ℕ) (enough : k_resizing_work < fuel) where
  -- an entry for a key that is not there
  pub hm_insert-Represents :
      (db : Db) (f : Values) (type : ℕ) (key v : List ℕ)
      → Represents db f
      → count (has key) (entries db) ≡ 0
      → length v ≤ k_max_msg
      → length (entries db) + 1 < 2 ^ 64
      → length (entries db) + 1 < 8 * buckets db
      → Returns
          (hm_insert fuel db (fresh_entry type key v))
          (λ db'. Represents db' (put f key v) × Grows db db')
  hm_insert-Represents db f type key v rep missing short room few =
      let (db', run, (gained, calm, wide)) =
        hm_insert-IsCalm fuel db (fresh_entry type key v) rep.calm room few enough in
      (
        db',
        run,
        (
          inserted-Represents db f rep type key v missing short db' gained calm,
          record { few = omega (arith, gained.total); same = wide },
        ),
      )

  abbrev assign : Db → List ℕ → List ℕ → List ℕ → Option Place → Run (List ℕ × Db)
  assign db key val out none = do
    db'' ← hm_insert fuel db (fresh_entry t_str key val)
    ok (out_nil out, db'')
  assign db key val out (some place) = do
    e ← load_place db place
    db'' ← store_place db place (record e { val = val })
    ok (out_nil out, db'')

  -- If the key space stands for a finite map in which every value fits a message, no resize
  -- goes on, the value given fits a message, one more entry stays below 2 ^ 64 and below the
  -- load factor of the hash map, and the fuel is above 128, then `do_set` returns, replies nil,
  -- and leaves a key space that stands for the map with the key put to the value, whether the
  -- key was there or not, with at most one entry more in as many buckets.
  pub do_set-Represents :
      (db : Db) (f : Values) (key v out : List ℕ)
      → Represents db f
      → length v ≤ k_max_msg
      → length (entries db) + 1 < 2 ^ 64
      → length (entries db) + 1 < 8 * buckets db
      → Returns
          (do_set fuel db key v out)
          (λ (out', db'). (out' ≡ out_nil out) × Represents db' (put f key v) × Grows db db')
  unfolding do_set
  do_set-Represents db f key v out rep short room few =
      let (r, run, found) = calm_lookup fuel enough db key rep.calm in
      let (result, run', done) = write r found in (result, rw run run', done)
    where
      write :
          (r : Option Place)
          → FoundIn (entry_key key) db r
          → Returns
              (assign db key v out r)
              (λ (out', db'). (out' ≡ out_nil out) × Represents db' (put f key v) × Grows db db')
      write none found =
          let (db', run, done) =
            hm_insert-Represents db f t_str key v rep found.missing short room few in
          ((out_nil out, db'), rw run, (refl, done.0, done.1))
      write (some place) (e, at, pass) =
          let (db', run, swapped) =
            store_place-Swapped db place e (record e { val = v }) rep.calm.valid at refl in
          (
            (out_nil out, db'),
            rw (at, run),
            (
              refl,
              swapped-Represents db f rep key v place e at pass short db' swapped,
              record {
                few = omega (arith, swapped.total);
                same = same_buckets db db' swapped.to_null swapped.to_mask;
              },
            ),
          )

  -- If the key space stands for a finite map in which every value fits a message, and no resize
  -- goes on, then `do_del` with fuel above 128 returns, replies 1 if the map has the key and 0
  -- if not, and leaves a key space that stands for the map without the key, in as many buckets.
  pub do_del-Represents :
      (db : Db) (f : Values) (key out : List ℕ)
      → Represents db f
      → Returns (do_del fuel db key out) (λ (out', db').
        (out' ≡ out_int out (was_there (f key))) × Represents db' (without f key) × Grows db db')
  unfolding do_del
  do_del-Represents db f key out rep =
      let ((o, db'), run, popped) =
        hm_pop-Popped fuel db (entry_key key) rep.calm.valid (inl rep.calm.idle) enough
          (entry_key-RespectsHash key) in
      (deleted out o db', rw run, reply o db' popped)
    where
      reply :
          (o : Option Entry) (db' : Db)
          → Popped (entry_key key) db (o, db')
          → ((deleted out o db').0 ≡ out_int out (was_there (f key)))
            × Represents (deleted out o db').1 (without f key)
            × Grows db (deleted out o db').1
      reply none db' untouched =
          let same : db ≡ db' = sym (untouched.idle rep.calm.idle) in
          (
            ap (out_int out) (sym (not_there db key (f key) (rep.holds key) untouched.missing)),
            subst (λ d. Represents d (without f key)) same
                (absent-Represents db f key rep untouched.missing),
            subst (Grows db) same (record { few = omega arith; same = refl }),
          )
      reply (some e) db' (took, pass) =
          let counted = took.counted (has key) in
          (
            ap (out_int out)
                (sym (there db key (f key) (rep.holds key) (ground (arith, counted, pass)))),
            taken-Represents db f key e db' rep pass took,
            record {
              few = omega (arith, took.total);
              same = same_buckets db db' took.to_null took.to_mask;
            },
          )
