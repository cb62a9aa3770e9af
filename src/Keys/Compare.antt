-- ===== src/Keys/Compare.antt =====
-- `entry_eq`, and counting the entries that it accepts.
use redis_c.Base.{
  ℕ, ◌+◌, ◌<◌, ◌≡◌, refl, Bool, true, false, not, ◌&&◌, List, [], ◌∷◌, ◌==◌, ==_iff, ==_refl, count,
  arith, ok,
}
use redis_c.HashTable.{RespectsHash}
use redis_c.HashMap.{Place, load_place}
use redis_c.HashMap.Invariant.{entries, IsMap}
use redis_c.HashMap.Methods.{detach_place-Took}
use redis_c.Keys.{Entry, bytes_eq, entry_key, str_hash, Db, hashed_entry}

pub bytes_eq_refl : (xs : List ℕ) → bytes_eq xs xs ≡ true
unfolding bytes_eq
bytes_eq_refl [] = refl
bytes_eq_refl (x ∷ xs) = rw (==_refl, bytes_eq_refl xs)

and_parts : (a b : Bool) → (a && b) ≡ true → (a ≡ true) × (b ≡ true)
and_parts true true h = (refl, refl)
and_parts true false h = absurd (cc)
and_parts false b h = absurd (cc)

pub eq_of_bytes_eq : (xs ys : List ℕ) → bytes_eq xs ys ≡ true → xs ≡ ys
unfolding bytes_eq
eq_of_bytes_eq [] [] h = refl
eq_of_bytes_eq [] (y ∷ ys) h = absurd (cc)
eq_of_bytes_eq (x ∷ xs) [] h = absurd (cc)
eq_of_bytes_eq (x ∷ xs) (y ∷ ys) h =
    let (head, tail) = and_parts (x == y) (bytes_eq xs ys) h in
    let same : x ≡ y = (==_iff x y).0 head in rw (same, eq_of_bytes_eq xs ys tail)

pub entry_key-RespectsHash : (key : List ℕ) → RespectsHash (entry_key key)
entry_key-RespectsHash key e pass =
    (==_iff e.hcode (str_hash key)).0
      (and_parts (e.hcode == str_hash key) (bytes_eq e.key key) pass).0

-- an entry that a key accepts has that key
pub key_of_pass : (key : List ℕ) (e : Entry) → (entry_key key).cmp e ≡ true → e.key ≡ key
key_of_pass key e pass =
    eq_of_bytes_eq e.key key (and_parts (e.hcode == str_hash key) (bytes_eq e.key key) pass).1

pub count_split :
    (p q : Entry → Bool) (es : List Entry)
    → count (λ e. p e && q e) es + count (λ e. p e && not (q e)) es ≡ count p es
count_split p q [] = refl
count_split p q (e ∷ es) = ground (arith, count_split p q es)

-- what a pointer reads is counted
pub count_loaded :
    (db : Db) (place : Place) (e : Entry) (p : Entry → Bool)
    → IsMap db
    → load_place db place ≡ ok e
    → p e ≡ true
    → 0 < count p (entries db)
count_loaded db place e p v at pass =
    let (db', run, took) = detach_place-Took db place e v at in ground (arith, took.counted p, pass)
