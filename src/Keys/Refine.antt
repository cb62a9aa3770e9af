-- ===== src/Keys/Refine.antt =====
-- The finite map that the key space stands for, and `do_get`.
use mathlib.Core.Path.{subst}
use redis_c.Base.{
  ◌+◌, ℕ, ◌<◌, ◌≤◌, ◌≡◌, refl, ap, ◌∙◌, Bool, true, not, ◌&&◌, Option, none, some, List, leb,
  if◌then◌else◌, length, count, Run, ok, ◌>>=◌, ◌>>◌, arith, Bool-cases, inl, inr, assert,
}
use redis_c.HashMap.{Place, load_place, hm_lookup, k_resizing_work}
use redis_c.HashMap.Growth.{buckets}
use redis_c.HashMap.Invariant.{entries, IsMap}
use redis_c.HashMap.Methods.{FoundIn, hm_lookup-FoundIn}
use redis_c.HashMap.Insert.{IsCalm}
use redis_c.Request.{k_max_msg}
use redis_c.Reply.{out_nil, out_str}
use redis_c.Keys.{Entry, bytes_eq, entry_key, Db, do_get, hashed_entry}
use redis_c.Keys.Compare.{eq_of_bytes_eq, entry_key-RespectsHash, count_loaded}

-- the abstract view
abbrev pub Values : Type 0
Values = List ℕ → Option (List ℕ)

abbrev pub put : Values → List ℕ → List ℕ → Values
put f key v = λ key'. if bytes_eq key key' then some v else f key'

abbrev pub without : Values → List ℕ → Values
without f key = λ key'. if bytes_eq key key' then none else f key'

abbrev pub has : List ℕ → Entry → Bool
has key = (entry_key key).cmp

-- entries of the key with another value
abbrev pub other : List ℕ → List ℕ → Entry → Bool
other key v e = has key e && not (bytes_eq e.val v)

-- one entry of the key, with that value, which fits a message; or none
abbrev pub Holds : Db → List ℕ → Option (List ℕ) → Type 0
Holds db key none = count (has key) (entries db) ≡ 0
Holds db key (some v) =
    (count (has key) (entries db) ≡ 1)
    × (count (other key v) (entries db) ≡ 0)
    × (length v ≤ k_max_msg)

pub record Represents (db : Db) (f : Values) : Type 0 where
  pub calm : IsCalm db
  pub holds : (key : List ℕ) → Holds db key (f key)

-- a command leaves at most one entry more, in as many buckets
pub record Grows (db db' : Db) : Type 0 where
  pub few : length (entries db') ≤ length (entries db) + 1
  pub same : buckets db' ≡ buckets db

-- the entry of a key has the value that is held
loaded_val :
    (db : Db) (key v : List ℕ) (place : Place) (e : Entry)
    → IsMap db
    → Holds db key (some v)
    → load_place db place ≡ ok e
    → has key e ≡ true
    → e.val ≡ v
loaded_val db key v place e valid held at pass = elim (Bool-cases (bytes_eq e.val v)) [
  | inl same ↦ eq_of_bytes_eq e.val v same
  | inr differs ↦
      let wrong : other key v e ≡ true = rw (pass, differs) in
      let counted = count_loaded db place e (other key v) valid at wrong in
      absurd (omega (arith, counted, held.1))
]

-- The reply to `get`.
abbrev pub answer : List ℕ → Option (List ℕ) → List ℕ
answer out none = out_nil out
answer out (some v) = out_str out v

abbrev fetch : Db → List ℕ → Option Place → Run (List ℕ × Db)
fetch db out none = ok (out_nil out, db)
fetch db out (some place) = do
  e ← load_place db place
  assert (leb (length e.val) k_max_msg)
  ok (out_str out e.val, db)

module _ (fuel : ℕ) (enough : k_resizing_work < fuel) where
  -- In a calm map the lookup changes nothing.
  pub calm_lookup :
      (db : Db) (key : List ℕ)
      → IsCalm db
      → (r : Option Place) × (hm_lookup fuel db (entry_key key) ≡ ok (r, db))
        × FoundIn (entry_key key) db r
  calm_lookup db key calm =
      let ((r, db'), run, (helps, found)) =
        hm_lookup-FoundIn fuel db (entry_key key) calm.valid (inl calm.idle) enough
          (entry_key-RespectsHash key) in
      let same : db' ≡ db = helps.idle calm.idle in
      (r, run ∙ ap (λ d. ok (r, d)) same, subst (λ d. FoundIn (entry_key key) d r) same found)

  -- If the key space stands for a finite map in which every value fits a message, and no resize
  -- goes on, then `do_get` with fuel above 128 returns and its assertion holds: it replies the
  -- value of the key as a string, or nil if the map has none, and changes nothing.
  pub do_get-Represents :
      (db : Db) (f : Values) (key out : List ℕ)
      → Represents db f
      → do_get fuel db key out ≡ ok (answer out (f key), db)
  unfolding do_get
  do_get-Represents db f key out rep =
      let (r, run, found) = calm_lookup db key rep.calm in
      rw run (reply (f key) (rep.holds key) r found)
    where
      reply :
          (o : Option (List ℕ))
          → Holds db key o
          → (r : Option Place) → FoundIn (entry_key key) db r
          → fetch db out r ≡ ok (answer out o, db)
      reply none held none found = refl
      reply none held (some place) (e, at, pass) =
          absurd (omega (arith, held, count_loaded db place e (has key) rep.calm.valid at pass))
      reply (some v) held none found = absurd (omega (arith, held.0, found.missing))
      reply (some v) held (some place) (e, at, pass) =
          let val : e.val ≡ v = loaded_val db key v place e rep.calm.valid held at pass in
          let short : leb (length v) k_max_msg ≡ true = ground (arith, held.2) in
          rw (at, val, short)
