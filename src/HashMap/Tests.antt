-- ===== src/HashMap/Tests.antt =====
-- The theorems at maps of numbers, hashed by themselves, and runs of the code.
use mathlib.Core.List.{flatten}
use redis_c.Base.{
  get_or, ◌<◌, ℕ, suc, ◌≡◌, refl, List, [], ◌∷◌, none, some, ◌==◌, ==_iff, replicate, arith, ok,
  out_of_fuel, Returns, inl, inr, ◌>>=◌, bit_and, All, zero,
}
use redis_c.HashTable.{
  Hashed, Key, RespectsHash, null_table, h_init, find_link, h_lookup, load_link, h_detach, h_insert,
}
use redis_c.HashTable.Table.{chains}
use redis_c.HashMap.{
  HMap, empty_map, resize_loop, hm_help_resizing, find_place, hm_lookup, hm_insert, insert_and_grow,
  hm_start_resizing, hm_pop, detach_place, hm_size,
}
use redis_c.HashMap.Invariant.{IsMap}
use redis_c.HashMap.Resize.{CanHelp, Helps, hm_help_resizing-Helps, hm_help_resizing-never_ends}
use redis_c.HashMap.Methods.{FoundIn, hm_lookup-FoundIn, Popped, hm_pop-Popped}
use redis_c.HashMap.Insert.{IsCalm, hm_insert-hangs}
use redis_c.HashMap.Session.{Call, insert, lookup, pop, IsSmall, run, run-returns, inserts}
use redis_c.HashMap.RoundTrip.{Finds, lookup-insert, lookup-pop}

instance abbrev self_hashed : Hashed ℕ
self_hashed = record { hcode = λ n. n }

abbrev key_of : ℕ → Key ℕ
key_of n = record { code = n; cmp = λ m. m == n }

key_of-RespectsHash : (n : ℕ) → RespectsHash (key_of n)
key_of-RespectsHash n m e = (==_iff m n).0 e

code : Unit {0}
unfolding h_init find_link h_lookup load_link h_detach h_insert resize_loop hm_help_resizing
    find_place hm_lookup hm_insert insert_and_grow hm_start_resizing hm_pop detach_place hm_size
code = tt

-- five and one share a bucket
abbrev two : HMap ℕ
two = record {
  ht_to = record { table = some ([] ∷ (5 ∷ 1 ∷ []) ∷ [] ∷ [] ∷ []); mask = 3; size = 2 };
  ht_from = null_table;
  resizing_pos = 0;
}

two_built : (hm_insert 129 empty_map 1 >>= λ m. hm_insert 129 m 5) ≡ ok two
unfolding code
two_built = refl

two-placed : (i : ℕ) → All (λ n. bit_and n 3 ≡ i) (get_or (chains two.ht_to) i [])
two-placed zero = tt
two-placed (suc zero) = (refl, (refl, tt))
two-placed (suc (suc zero)) = tt
two-placed (suc (suc (suc zero))) = tt
two-placed (suc (suc (suc (suc i)))) = tt

two-IsCalm : IsCalm two
unfolding flatten
two-IsCalm = record {
  valid = record {
    to_valid = inr (record {
      allocated = refl;
      width = refl;
      sized = refl;
      small = omega arith;
      placed = two-placed;
      power = refl;
    });
    from_valid = inl refl;
    fits = omega arith;
    moving = λ e. absurd (cc);
  };
  idle = refl;
}

-- thirty-one nodes in the second bucket
abbrev full : HMap ℕ
full = record {
  ht_to = record { table = some ([] ∷ replicate 31 1 ∷ [] ∷ [] ∷ []); mask = 3; size = 31 };
  ht_from = null_table;
  resizing_pos = 0;
}

All-replicate : (P : ℕ → Type 0) (n a : ℕ) → P a → All P (replicate n a)
All-replicate P zero a h = tt
All-replicate P (suc n) a h = (h, All-replicate P n a h)

full-placed : (i : ℕ) → All (λ n. bit_and n 3 ≡ i) (get_or (chains full.ht_to) i [])
full-placed zero = tt
full-placed (suc zero) = All-replicate (λ n. bit_and n 3 ≡ 1) 31 1 refl
full-placed (suc (suc zero)) = tt
full-placed (suc (suc (suc zero))) = tt
full-placed (suc (suc (suc (suc i)))) = tt

full-IsCalm : IsCalm full
unfolding flatten
full-IsCalm = record {
  valid = record {
    to_valid = inr (record {
      allocated = refl;
      width = refl;
      sized = refl;
      small = omega arith;
      placed = full-placed;
      power = refl;
    });
    from_valid = inl refl;
    fits = omega arith;
    moving = λ e. absurd (cc);
  };
  idle = refl;
}

-- one node is left to move, and it is where the resize stands
abbrev moving : ℕ → HMap ℕ
moving pos = record {
  ht_to = record { table = some ([] ∷ [] ∷ []); mask = 1; size = 0 };
  ht_from = record { table = some ((4 ∷ []) ∷ [] ∷ []); mask = 1; size = 1 };
  resizing_pos = pos;
}

to-placed : (i : ℕ) → All (λ n. bit_and n 1 ≡ i) (get_or {A = List ℕ} ([] ∷ [] ∷ []) i [])
to-placed zero = tt
to-placed (suc zero) = tt
to-placed (suc (suc i)) = tt

from-placed : (i : ℕ) → All (λ n. bit_and n 1 ≡ i) (get_or ((4 ∷ []) ∷ [] ∷ []) i [])
from-placed zero = (refl, tt)
from-placed (suc zero) = tt
from-placed (suc (suc i)) = tt

moving-IsMap : (pos : ℕ) → pos < 2 → IsMap (moving pos)
unfolding flatten
moving-IsMap pos h = record {
  to_valid = inr (record {
    allocated = refl;
    width = refl;
    sized = refl;
    small = omega arith;
    placed = to-placed;
    power = refl;
  });
  from_valid = inr (record {
    allocated = refl;
    width = refl;
    sized = refl;
    small = omega arith;
    placed = from-placed;
    power = refl;
  });
  fits = omega arith;
  moving = λ e. (h, refl);
}

hm_insert-hangs_example : hm_insert 1000 full 2 ≡ out_of_fuel
unfolding flatten
hm_insert-hangs_example =
    hm_insert-hangs full 2 full-IsCalm refl (omega arith) (omega arith) (omega arith) 1000

hm_help_resizing-Helps_example : Returns (hm_help_resizing 129 (moving 0)) (Helps (moving 0))
hm_help_resizing-Helps_example =
    hm_help_resizing-Helps 129 (moving 0) (moving-IsMap 0 (omega arith)) (inr (omega arith))
      (omega arith)

stuck : CanHelp (moving 1) → ⊥
stuck (inl e) = absurd (cc)
stuck (inr h) = omega arith

hm_help_resizing-never_ends_example : hm_help_resizing 5 (moving 1) ≡ out_of_fuel
hm_help_resizing-never_ends_example =
    hm_help_resizing-never_ends (moving 1) (moving-IsMap 1 (omega arith)) stuck 5

hm_lookup-FoundIn_example :
    Returns (hm_lookup 129 two (key_of 1)) (λ r. Helps two r.1 × FoundIn (key_of 1) r.1 r.0)
hm_lookup-FoundIn_example =
    hm_lookup-FoundIn 129 two (key_of 1) two-IsCalm.valid (inl refl) (omega arith)
      (key_of-RespectsHash 1)

hm_pop-Popped_example : Returns (hm_pop 129 two (key_of 1)) (Popped (key_of 1) two)
hm_pop-Popped_example =
    hm_pop-Popped 129 two (key_of 1) two-IsCalm.valid (inl refl) (omega arith)
      (key_of-RespectsHash 1)

lookup-insert_example :
    Returns (hm_insert 129 two 9 >>= λ m. hm_lookup 129 m (key_of 9)) (Finds (key_of 9))
unfolding flatten
lookup-insert_example =
    lookup-insert 129 two 9 (key_of 9) two-IsCalm (omega arith) (omega arith) (omega arith)
      (key_of-RespectsHash 9) refl

lookup-pop_example :
    Returns (hm_pop 129 two (key_of 5) >>= λ r. hm_lookup 129 r.1 (key_of 5)) (λ r. r.0 ≡ none)
unfolding flatten
lookup-pop_example =
    lookup-pop 129 two (key_of 5) two-IsCalm (omega arith) (omega arith) (key_of-RespectsHash 5)

abbrev calls : List (Call ℕ)
calls = insert 7 ∷ lookup (key_of 1) ∷ pop (key_of 5) ∷ insert 8 ∷ []

run-returns_example : Returns (run 129 calls two) (IsSmall 0)
unfolding flatten inserts
run-returns_example =
    run-returns calls two (record { calm = two-IsCalm; roomy = omega arith; few = omega arith })
      (key_of-RespectsHash 1, (key_of-RespectsHash 5, tt))
