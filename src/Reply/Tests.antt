-- ===== src/Reply/Tests.antt =====
-- The theorems on replies at an array of a string and nil.
use redis_c.Base.{[], ◌∷◌, arith, refl, ◌≡◌}
use redis_c.Wire.{le_bytes}
use redis_c.Reply.Value.{
  Value, nil, str, arr, item, end, Fits, value_bytes, items_bytes, item_count,
}

abbrev pair_of : Value
pair_of = arr (item (str (97 ∷ [])) (item nil end))

pair_of-bytes : value_bytes pair_of ≡ 5 ∷ 2 ∷ 0 ∷ 0 ∷ 0 ∷ 2 ∷ 1 ∷ 0 ∷ 0 ∷ 0 ∷ 97 ∷ 0 ∷ []
unfolding value_bytes items_bytes item_count le_bytes
pair_of-bytes = refl

pair_of-Fits : Fits pair_of
unfolding item_count
pair_of-Fits = ((omega arith, (tt, tt)), omega arith)
