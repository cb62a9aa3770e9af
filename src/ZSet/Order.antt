-- ===== src/ZSet/Order.antt =====
-- The order of the tuples, `zless` of src/zset.cpp.
use Prim.Native.Nat.{Ordering}
use redis_c.Base.{
  ℕ, zero, suc, ◌<◌, ◌^◌, ◌≡◌, refl, Bool, true, false, not, List, [], ◌∷◌, ltb, ◌==◌,
  if◌then◌else◌, length, min, u32, arith,
}
use redis_c.ZSet.{tuple_less, memcmp, score_rank}

-- the order of the byte strings
abbrev pub name_less : List ℕ → List ℕ → Bool
name_less [] [] = false
name_less [] (y ∷ ys) = true
name_less (x ∷ xs) [] = false
name_less (x ∷ xs) (y ∷ ys) = let rest = name_less xs ys in if x == y then rest else ltb x y

-- scores first, then names
abbrev pub less : ℕ → List ℕ → ℕ → List ℕ → Bool
less rank name rank' name' = if rank == rank' then name_less name name' else ltb rank rank'

memcmp_lem :
    (n : ℕ) (xs ys : List ℕ)
    → n ≡ min (length xs) (length ys)
    → (elim (memcmp n xs ys) [
      | Ordering.lt ↦ true
      | Ordering.gt ↦ false
      | Ordering.eq ↦ ltb (length xs) (length ys)
    ])
      ≡ name_less xs ys
unfolding memcmp
memcmp_lem zero [] [] e = refl
memcmp_lem zero [] (y ∷ ys) e = ground arith
memcmp_lem zero (x ∷ xs) [] e = ground arith
memcmp_lem zero (x ∷ xs) (y ∷ ys) e = absurd (omega arith)
memcmp_lem (suc n) [] ys e = absurd (omega arith)
memcmp_lem (suc n) (x ∷ xs) [] e = absurd (omega arith)
memcmp_lem (suc n) (x ∷ xs) (y ∷ ys) e = ground (arith, memcmp_lem n xs ys (omega arith))

-- Where the first name has fewer than 2 ^ 32 bytes, `zless` is the order of scores and then of
-- names, byte by byte, a first part of a name before the whole.
pub tuple_less-less :
    (score' : ℕ) (name' : List ℕ) (score : ℕ) (name : List ℕ)
    → length name' < 2 ^ 32
    → tuple_less score' name' score name ≡ less (score_rank score') name' (score_rank score) name
unfolding tuple_less
tuple_less-less score' name' score name short =
    choose (score_rank score' == score_rank score) _ _ _
      (memcmp_lem (u32 (min (length name') (length name))) name' name (omega arith))
  where
    choose : (b : Bool) (x x' y : Bool) → x' ≡ x → (if not b then y else x') ≡ (if b then x else y)
    choose true x x' y e = e
    choose false x x' y e = refl

pub name_less_irrefl : (xs : List ℕ) → name_less xs xs ≡ false
name_less_irrefl [] = refl
name_less_irrefl (x ∷ xs) = ground (arith, name_less_irrefl xs)

pub name_less_trans :
    (xs ys zs : List ℕ) → name_less xs ys ≡ true → name_less ys zs ≡ true → name_less xs zs ≡ true
name_less_trans [] [] zs h k = absurd (cc)
name_less_trans [] (y ∷ ys) [] h k = absurd (cc)
name_less_trans [] (y ∷ ys) (z ∷ zs) h k = refl
name_less_trans (x ∷ xs) [] zs h k = absurd (cc)
name_less_trans (x ∷ xs) (y ∷ ys) [] h k = absurd (cc)
name_less_trans (x ∷ xs) (y ∷ ys) (z ∷ zs) h k = ground (arith, name_less_trans xs ys zs)

name_less_total : (xs ys : List ℕ) → name_less xs ys ≡ false → name_less ys xs ≡ false → xs ≡ ys
name_less_total [] [] h k = refl
name_less_total [] (y ∷ ys) h k = absurd (cc)
name_less_total (x ∷ xs) [] h k = absurd (cc)
name_less_total (x ∷ xs) (y ∷ ys) h k = ground (arith, name_less_total xs ys)

module _ (r : ℕ) (n : List ℕ) where
  pub less_irrefl : less r n r n ≡ false
  less_irrefl = ground (arith, name_less_irrefl n)

  pub less_trans :
      (r' : ℕ) (n' : List ℕ) (r'' : ℕ) (n'' : List ℕ)
      → less r n r' n' ≡ true
      → less r' n' r'' n'' ≡ true
      → less r n r'' n'' ≡ true
  less_trans r' n' r'' n'' h k = ground (arith, name_less_trans n n' n'')

  pub less_total :
      (r' : ℕ) (n' : List ℕ) → less r n r' n' ≡ false → less r' n' r n ≡ false → (r ≡ r') × (n ≡ n')
  less_total r' n' h k = ground (arith, name_less_total n n')
