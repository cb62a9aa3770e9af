-- ===== src/HashTable/Tests.antt =====
-- The theorems on one table at a table of four buckets with two numbers in it.
use mathlib.Core.List.{flatten}
use redis_c.Base.{
  [], ◌∷◌, some, ok, arith, ℕ, ◌≡◌, ◌==◌, ==_iff, refl, bit_and, All, get_or, zero, suc,
}
use redis_c.HashTable.{Hashed, Key, RespectsHash, HTable, find_link, h_lookup, load_link}
use redis_c.HashTable.Table.{IsTable, chains}

instance abbrev self_hashed : Hashed ℕ
self_hashed = record { hcode = λ n. n }

abbrev two : HTable ℕ
two = record { table = some ([] ∷ (5 ∷ 1 ∷ []) ∷ [] ∷ [] ∷ []); mask = 3; size = 2 }

two-placed : (i : ℕ) → All (λ n. bit_and n 3 ≡ i) (get_or (chains two) i [])
two-placed zero = tt
two-placed (suc zero) = (refl, (refl, tt))
two-placed (suc (suc zero)) = tt
two-placed (suc (suc (suc zero))) = tt
two-placed (suc (suc (suc (suc i)))) = tt

two-IsTable : IsTable two
unfolding flatten
two-IsTable = record {
  allocated = refl;
  width = refl;
  sized = refl;
  small = omega arith;
  placed = two-placed;
  power = refl;
}

abbrev five : Key ℕ
five = record { code = 5; cmp = λ m. m == 5 }

five-RespectsHash : RespectsHash five
five-RespectsHash n e = (==_iff n 5).0 e

one_at : load_link two (1, 1) ≡ ok 1
unfolding load_link
one_at = refl

found_five : h_lookup two five ≡ ok (some (1, 0))
unfolding h_lookup find_link
found_five = refl
