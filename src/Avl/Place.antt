-- ===== src/Avl/Place.antt =====
-- Places in the order of a tree, and the ways that the loop of `avl_offset` in src/avl.cpp goes.
use redis_c.Base.{
  ℕ, zero, suc, ◌+◌, ◌-◌, ◌≤◌, ◌<◌, ◌^◌, ◌≡◌, refl, ◌∙◌, false, Option, none, some, List, [], ◌∷◌,
  ◌++◌, if◌then◌else◌, arith, ltb, ok, length, length-append, get_elem?, get_elem?-middle,
  append_assoc, inl, inr, ◌⊎◌,
}
use redis_c.Avl.{Store, avl_count, direction, to_right, to_left, to_parent}
use redis_c.Avl.Tree.{
  Tree, leaf, node, size, size_up, count_of, Crumb, in_left, in_right, plug, inorder,
}
use redis_c.Avl.Balanced.{inorder-plug, before, after}

-- how many nodes stand before a subtree
abbrev pub skipped : List Crumb → ℕ
skipped [] = 0
skipped (in_left i r ∷ up) = skipped up
skipped (in_right l i ∷ up) = skipped up + size l + 1

-- the node at a place in the order, places being `int64_t` values
abbrev pub nth : Tree → ℕ → Option ℕ
nth t place = if ltb place (2 ^ 63) then none else get_elem? (inorder t) (place - 2 ^ 63)

pub length-inorder : (t : Tree) → length (inorder t) ≡ size t
length-inorder leaf = refl
length-inorder (node l i r) =
    omega (arith, length-append (inorder l) (i ∷ inorder r), length-inorder l, length-inorder r)

pub length-before : (up : List Crumb) → length (before up) ≡ skipped up
length-before [] = refl
length-before (in_left i r ∷ up) = length-before up
length-before (in_right l i ∷ up) = omega (
  arith,
  length-append (before up) (inorder l ++ (i ∷ [])),
  length-append (inorder l) (i ∷ []),
  length-before up,
  length-inorder l,
)

pub skipped-le : (up : List Crumb) → skipped up ≤ size_up up
skipped-le [] = omega arith
skipped-le (in_left i r ∷ up) = omega (arith, skipped-le up)
skipped-le (in_right l i ∷ up) = omega (arith, skipped-le up)

get_elem?-none : (xs : List ℕ) (k : ℕ) → length xs ≤ k → get_elem? xs k ≡ none
get_elem?-none [] k h = refl
get_elem?-none (x ∷ xs) zero h = absurd (omega arith)
get_elem?-none (x ∷ xs) (suc k) h = get_elem?-none xs k (omega arith)

pub count_of-size : (t : Tree) → size t < 2 ^ 32 → count_of t ≡ size t
count_of-size leaf h = refl
count_of-size (node l i r) h =
    omega (arith, count_of-size l (omega arith), count_of-size r (omega arith))

pub nth-here :
    (l : Tree) (i : ℕ) (r : Tree) (up : List Crumb)
    → nth (plug (node l i r) up) (2 ^ 63 + (skipped up + size l)) ≡ some i
nth-here l i r up =
    let xs = before up ++ inorder l in
    let e : inorder (plug (node l i r) up) ≡ xs ++ (i ∷ (inorder r ++ after up)) =
      inorder-plug up (node l i r) ∙ simp (append_assoc) in
    let n : length xs ≡ skipped up + size l =
      omega (arith, length-append (before up) (inorder l), length-before up, length-inorder l) in
    rw (not_below (skipped up + size l), minus (skipped up + size l), e, ← n)
      (get_elem?-middle xs i (inorder r ++ after up))
  where
    not_below : (k : ℕ) → ltb (2 ^ 63 + k) (2 ^ 63) ≡ false
    not_below k = ground arith

    minus : (k : ℕ) → 2 ^ 63 + k - 2 ^ 63 ≡ k
    minus k = omega arith

pub nth-out :
    (t : Tree) (place : ℕ) → (place < 2 ^ 63) ⊎ (2 ^ 63 + size t ≤ place) → nth t place ≡ none
nth-out t place (inl h) = ground arith
nth-out t place (inr h) =
    rw (not_below place h)
      (get_elem?-none (inorder t) (place - 2 ^ 63) (omega (arith, length-inorder t)))
  where
    not_below : (k : ℕ) → 2 ^ 63 + size t ≤ k → ltb k (2 ^ 63) ≡ false
    not_below k h = ground arith

-- the ways of the loop, at a node with `a` nodes on its left and `c` on its right
module _ (s : Store) (i a c offset pos : ℕ) (left : avl_count s (s i).left ≡ a)
    (right : avl_count s (s i).right ≡ c) where
  pub goes_right :
      pos < offset → offset ≤ pos + c → pos + c < 2 ^ 64 → direction s i offset pos ≡ ok to_right
  unfolding direction
  goes_right p q small = rw right (ground arith)

  pub goes_left : offset < pos → pos ≤ offset + a → a ≤ pos → direction s i offset pos ≡ ok to_left
  unfolding direction
  goes_left p q small = rw left (ground arith)

  pub goes_up :
      (pos + c < offset) ⊎ (offset + a < pos)
      → pos + c < 2 ^ 64
      → a ≤ pos
      → direction s i offset pos ≡ ok to_parent
  unfolding direction
  goes_up out small small' = rw (left, right) (ground arith)
