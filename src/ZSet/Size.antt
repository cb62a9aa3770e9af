-- ===== src/ZSet/Size.antt =====
-- The tree and the hash map of a sorted set, src/zset.cpp, have as many nodes.
use redis_c.Base.{
  ℕ, suc, ◌+◌, ◌<◌, ◌≡◌, refl, sym, ◌∙◌, true, List, [], ◌∷◌, ◌==◌, if◌then◌else◌, length, count,
  Bool-cases, inl, inr, arith,
}
use redis_c.HashMap.Invariant.{entries}
use redis_c.Avl.Tree.{Tree, size, inorder}
use redis_c.Avl.Place.{length-inorder}
use redis_c.Avl.Delete.Whole.{count-inorder}
use redis_c.ZSet.{ZSet, ZRef, hashed_ref}
use redis_c.ZSet.Names.{IsZset, at_ref}

-- a list without the first place of a number
remove : ℕ → List ℕ → List ℕ
remove x [] = []
remove x (y ∷ ys) = let rest = remove x ys in if y == x then ys else y ∷ rest

length-remove :
    (x : ℕ) (ys : List ℕ) → 0 < count (λ y. y == x) ys → length ys ≡ suc (length (remove x ys))
unfolding remove
length-remove x [] h = absurd (omega arith)
length-remove x (y ∷ ys) h = elim (Bool-cases (y == x)) [
  | inl here ↦ rw here refl
  | inr other ↦
      let later = length-remove x ys (omega (arith, rw other at h)) in
      rw other (omega (arith, later))
]

count-remove :
    (x z : ℕ) (ys : List ℕ)
    → 0 < count (λ y. y == x) ys
    → count (λ y. y == z) ys ≡ (if x == z then 1 else 0) + count (λ y. y == z) (remove x ys)
unfolding remove
count-remove x z [] h = absurd (omega arith)
count-remove x z (y ∷ ys) h = elim (Bool-cases (y == x)) [
  | inl here ↦ rw here (same y here)
  | inr other ↦
      let later = count-remove x z ys (omega (arith, rw other at h)) in
      rw other (omega (arith, later))
]
  where
    same :
        (y : ℕ)
        → (y == x) ≡ true
        → (if y == z then 1 else 0) + count (λ y'. y' == z) ys
          ≡ (if x == z then 1 else 0) + count (λ y'. y' == z) ys
    same y here = ground arith

length_of_counts :
    (es : List ZRef) (ys : List ℕ)
    → ((x : ℕ) → count (at_ref x) es ≡ count (λ y. y == x) ys)
    → length es ≡ length ys
length_of_counts [] [] same = refl
length_of_counts [] (y ∷ ys) same = absurd (none_there y (same y))
  where
    none_there : (y : ℕ) → 0 ≡ (if y == y then 1 else 0) + count (λ y'. y' == y) ys → ⊥
    none_there y e = ground arith
length_of_counts (e ∷ es) ys same =
    let some_there : 0 < count (λ y. y == e.ref) ys = positive e.ref _ (same e.ref) in
    omega (
      arith,
      length-remove e.ref ys some_there,
      length_of_counts es (remove e.ref ys)
          (λ x. omega (arith, same x, count-remove e.ref x ys some_there)),
    )
  where
    positive : (x a : ℕ) {b : ℕ} → (if x == x then 1 else 0) + a ≡ b → 0 < b
    positive x a f = ground arith

pub size-entries : (z : ZSet) (t : Tree) → IsZset z t → size t ≡ length (entries z.hmap)
size-entries z t is =
    sym (length-inorder t)
    ∙ sym (length_of_counts (entries z.hmap) (inorder t) (λ x. is.refs x ∙ sym (count-inorder x t)))
