-- ===== src/Keys/Tests.antt =====
-- The theorems on the commands at a key space with one entry, `a` with the value `b`.
use mathlib.Core.Path.{subst}
use mathlib.Core.List.{flatten}
use redis_c.Base.{
  ℕ, zero, suc, ◌≡◌, refl, List, [], ◌∷◌, none, some, ok, Returns, arith, All, bit_and, get_or,
  Bool-cases, inl, inr,
}
use redis_c.HashTable.{null_table}
use redis_c.HashTable.Table.{chains}
use redis_c.HashMap.Insert.{IsCalm}
use redis_c.Reply.{out_nil, out_int}
use redis_c.Reply.Value.{arr, write_value}
use redis_c.Keys.Listing.{key_items, do_keys-write_value}
use redis_c.HashMap.Invariant.{entries}
use redis_c.Keys.{
  do_keys, Entry, hashed_entry, bytes_eq, hash_from, str_hash, Db, do_get, do_set, do_del, t_str,
}
use redis_c.Keys.Compare.{eq_of_bytes_eq}
use redis_c.Keys.Refine.{Grows, Values, put, without, Holds, Represents, answer, do_get-Represents}
use redis_c.Keys.Update.{elsewhere, was_there, do_set-Represents, do_del-Represents}

abbrev a : List ℕ
a = 97 ∷ []

abbrev b : List ℕ
b = 98 ∷ []

abbrev a_entry : Entry
a_entry = record { key = a; hcode = 1512767806; val = b; type = t_str }

a-hashed : str_hash a ≡ 1512767806
unfolding str_hash hash_from
a-hashed = refl

abbrev one : Db
one = record {
  ht_to = record { table = some ([] ∷ [] ∷ (a_entry ∷ []) ∷ [] ∷ []); mask = 3; size = 1 };
  ht_from = null_table;
  resizing_pos = 0;
}

one-placed : (i : ℕ) → All (λ e. bit_and e.hcode 3 ≡ i) (get_or (chains one.ht_to) i [])
one-placed zero = tt
one-placed (suc zero) = tt
one-placed (suc (suc zero)) = (refl, tt)
one-placed (suc (suc (suc zero))) = tt
one-placed (suc (suc (suc (suc i)))) = tt

one-IsCalm : IsCalm one
unfolding flatten
one-IsCalm = record {
  valid = record {
    to_valid = inr (record {
      allocated = refl;
      width = refl;
      sized = refl;
      small = omega arith;
      placed = one-placed;
      power = refl;
    });
    from_valid = inl refl;
    fits = omega arith;
    moving = λ e. absurd (cc);
  };
  idle = refl;
}

abbrev only_a : Values
only_a = put (λ key. none) a b

one-Represents : Represents one only_a
unfolding flatten str_hash hash_from bytes_eq
one-Represents = record {
  calm = one-IsCalm;
  holds = λ key. elim (Bool-cases (bytes_eq a key)) [
    | inl same ↦
        rw same
          (subst (λ k. Holds one k (some b)) (eq_of_bytes_eq a key same) (refl, refl, omega arith))
    | inr apart ↦ rw apart (rw (elsewhere a key a_entry refl apart) refl)
  ];
}

do_get-Represents_example : do_get 129 one a [] ≡ ok (answer [] (only_a a), one)
do_get-Represents_example = do_get-Represents 129 (omega arith) one only_a a [] one-Represents

do_set-Represents_example :
    Returns
      (do_set 129 one b a [])
      (λ (out', db'). (out' ≡ out_nil []) × Represents db' (put only_a b a) × Grows one db')
unfolding flatten
do_set-Represents_example =
    do_set-Represents 129 (omega arith) one only_a b a [] one-Represents (omega arith) (omega arith)
      (omega arith)

do_del-Represents_example : Returns (do_del 129 one a []) (λ (out', db').
    (out' ≡ out_int [] (was_there (only_a a))) × Represents db' (without only_a a) × Grows one db')
do_del-Represents_example = do_del-Represents 129 (omega arith) one only_a a [] one-Represents

do_keys-write_value_example : do_keys one [] ≡ ok (write_value [] (arr (key_items (entries one))))
unfolding flatten
do_keys-write_value_example = do_keys-write_value one one-IsCalm.valid (omega arith)
