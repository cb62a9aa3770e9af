-- ===== src/Sets/Listing.antt =====
-- The rows that `do_zquery` of src/server.cpp writes.
use mathlib.Core.Path.{subst}
use redis_c.Base.{
  ℕ, zero, suc, ◌+◌, ◌-◌, ◌*◌, ◌/◌, ◌≤◌, ◌<◌, ◌^◌, ◌≡◌, refl, sym, ◌∙◌, true, false, none, some,
  List, [], ◌∷◌, ◌++◌, ◌==◌, if◌then◌else◌, arith, ap, ltb, length, get_elem?, drop, length-drop,
  u32, min, Run, ok, Bool-cases, Option-cases, inl, inr, ◌>>=◌, count, count-append,
}
use redis_c.Reply.{out_str, out_double}
use redis_c.Avl.{avl_offset}
use redis_c.Avl.Tree.{Tree, node, occ, size, inorder}
use redis_c.Avl.Link.{Linked}
use redis_c.Avl.Balanced.{size-plug, occ-plug}
use redis_c.Avl.Delete.Locate.{locate}
use redis_c.Avl.Delete.Unlink.{length-size_up}
use redis_c.Avl.Delete.Whole.{count-inorder}
use redis_c.Avl.Place.{nth, skipped, length-inorder}
use redis_c.Avl.Offset.{avl_offset-nth}
use redis_c.ZSet.{ZSet, zset_query}
use redis_c.ZSet.Invariant.{HasTree}
use redis_c.ZSet.Query.{Cut, query_answer, zset_query-Cut, found_place}
use redis_c.Sets.{query_rows}

ltb→lt : (a b : ℕ) → ltb a b ≡ true → a < b
ltb→lt a b h = ground arith

ltb→ge : (a b : ℕ) → ltb a b ≡ false → b ≤ a
ltb→ge a b h = ground arith

-- a name and a score for each node, as long as the count is below the limit
abbrev pub listed : ZSet → List ℕ → ℕ → ℕ → List ℕ → ℕ × List ℕ
listed z [] limit n out = (n, out)
listed z (x ∷ xs) limit n out =
    let rest =
      listed z xs limit (u32 (n + 2)) (out_double (out_str out (z.names x)) (z.scores x)) in
    if ltb (2 ^ 63 + n) limit then rest else (n, out)

-- a list around one of its places
record Around (xs : List ℕ) (k x : ℕ) : Type 0 where
  lower : List ℕ
  upper : List ℕ
  split : xs ≡ lower ++ (x ∷ upper)
  place : length lower ≡ k

around : (xs : List ℕ) (k x : ℕ) → get_elem? xs k ≡ some x → Around xs k x
around [] k x h = absurd (cc)
around (y ∷ xs) zero x h =
    let e : y ≡ x = cc in
    record { lower = []; upper = xs; split = ap (λ w. w ∷ xs) e; place = refl }
around (y ∷ xs) (suc k) x h =
    let m = around xs k x h in
    record {
      lower = y ∷ m.lower;
      upper = m.upper;
      split = ap (◌∷◌ y) m.split;
      place = ap suc m.place;
    }

drop-get : (xs : List ℕ) (k x : ℕ) → get_elem? xs k ≡ some x → drop k xs ≡ x ∷ drop (suc k) xs
drop-get [] k x h = absurd (cc)
drop-get (y ∷ xs) zero x h = let e : y ≡ x = cc in ap (λ w. w ∷ xs) e
drop-get (y ∷ xs) (suc k) x h = drop-get xs k x h

drop-end : (xs : List ℕ) (k : ℕ) → get_elem? xs k ≡ none → drop k xs ≡ []
drop-end [] zero h = refl
drop-end [] (suc k) h = refl
drop-end (y ∷ xs) zero h = absurd (cc)
drop-end (y ∷ xs) (suc k) h = drop-end xs k h

holds : (a b x m : ℕ) → m ≡ a + ((if x == x then 1 else 0) + b) → 0 < m
holds a b x m e = ground arith

after_base : (k : ℕ) → ltb (2 ^ 63 + 1 + k) (2 ^ 63) ≡ false
after_base k = ground arith

nth_next : (t : Tree) (k : ℕ) → nth t (2 ^ 63 + 1 + k) ≡ get_elem? (inorder t) (suc k)
nth_next t k = let e : 2 ^ 63 + 1 + k - 2 ^ 63 ≡ suc k = omega arith in rw (after_base k, e) refl

no_rows :
    (z : ZSet) (fuel limit : ℕ) (out : List ℕ)
    → 0 < fuel
    → query_rows fuel z none limit 0 out ≡ ok (0, out)
unfolding query_rows
no_rows z zero limit out h = absurd (omega arith)
no_rows z (suc fuel) limit out h = refl

module _ (z : ZSet) (t : Tree) (small : size t < 2 ^ 31) (has : HasTree z t) where
  next_node :
      (fuel k x : ℕ)
      → size t + size t < fuel
      → get_elem? (inorder t) k ≡ some x
      → avl_offset fuel z.links x (2 ^ 63 + 1) ≡ ok (get_elem? (inorder t) (suc k))
  next_node fuel k x enough h =
      let m = around (inorder t) k x h in
      let inside = holds (count (λ y. y == x) m.lower) (count (λ y. y == x) m.upper) x (occ x t) (
        sym (count-inorder x t)
        ∙ ap (count (λ y. y == x)) m.split
        ∙ count-append (λ y. y == x) m.lower (x ∷ m.upper)) in
      let at = locate x t [] inside in
      let w = at.whole in
      let place : skipped at.way + size at.left ≡ k =
        found_place t at.left x at.right at.way m.lower m.upper w has.distinct m.split ∙ m.place in
      avl_offset-nth fuel z.links at.left x at.right at.way (2 ^ 63 + 1) (omega arith)
        (omega
          (arith, ap size w, size-plug at.way (node at.left x at.right), length-size_up at.way))
        (omega (arith, ap size w))
        (λ y.
          omega (arith, has.distinct y, ap (occ y) w, occ-plug y at.way (node at.left x at.right)))
        (subst (λ u. Linked z.links u none) (sym w) has.linked)
      ∙ ap (λ u. ok (nth u (2 ^ 63 + 1 + (skipped at.way + size at.left)))) w
      ∙ ap (λ p. ok (nth t (2 ^ 63 + 1 + p))) place
      ∙ ap ok (nth_next t k)

  query_rows-listed :
      (fuel k limit n : ℕ) (out : List ℕ)
      → length (drop k (inorder t)) + size t + size t < fuel
      → query_rows fuel z (get_elem? (inorder t) k) limit n out
        ≡ ok (listed z (drop k (inorder t)) limit n out)
  unfolding query_rows
  query_rows-listed zero k limit n out enough = absurd (omega arith)
  query_rows-listed (suc fuel) k limit n out enough =
      elim (Option-cases (get_elem? (inorder t) k)) [
        | inl beyond ↦ rw (beyond, drop-end (inorder t) k beyond) refl
        | inr (x, here) ↦
            let tail = drop-get (inorder t) k x here in
            let rest =
              query_rows-listed fuel (suc k) limit (u32 (n + 2))
                (out_double (out_str out (z.names x)) (z.scores x))
                (omega (arith, ap length tail)) in
            rw (here, tail)
              (elim (Bool-cases (ltb (2 ^ 63 + n) limit)) [
                | inl more ↦ rw (more, next_node (suc fuel) k x (omega arith) here) rest
                | inr full ↦ rw full refl
              ])
      ]

-- the nodes from the one that is offset from the first not less than the tuple
abbrev pub from_place : List ℕ → ℕ → List ℕ
from_place xs place = if ltb place (2 ^ 63) then [] else drop (place - 2 ^ 63) xs

abbrev pub found_rows : Tree → List ℕ → List ℕ → ℕ → List ℕ
found_rows t lower [] offset = []
found_rows t lower (x ∷ upper) offset = from_place (inorder t) (offset + length lower)

length-drop-le : (k : ℕ) (xs : List ℕ) → length (drop k xs) ≤ length xs
length-drop-le k xs = omega (arith, length-drop k xs)

module _ (z : ZSet) (t : Tree) (small : size t < 2 ^ 31) (has : HasTree z t) where
  rows_from :
      (fuel place limit : ℕ) (out : List ℕ)
      → size t + size t + size t < fuel
      → query_rows fuel z (nth t place) limit 0 out
        ≡ ok (listed z (from_place (inorder t) place) limit 0 out)
  rows_from fuel place limit out enough = elim (Bool-cases (ltb place (2 ^ 63))) [
    | inl under ↦ rw under (no_rows z fuel limit out (omega arith))
    | inr fine ↦ rw fine (
        query_rows-listed z t small has fuel (place - 2 ^ 63) limit 0 out
          (omega (arith, length-drop-le (place - 2 ^ 63) (inorder t), length-inorder t)))
  ]

  pub query_rows-zset_query :
      (fuel score : ℕ) (name : List ℕ) (offset limit : ℕ) (out : List ℕ)
      → size t + size t + size t < fuel
      → offset < 2 ^ 64
      → (cut : Cut z t score name) × ((do
        znode ← zset_query fuel z score name offset
        query_rows fuel z znode limit 0 out)
          ≡ ok (listed z (found_rows t cut.lower cut.upper offset) limit 0 out))
  query_rows-zset_query fuel score name offset limit out enough small_offset =
      let (cut, run) =
        zset_query-Cut fuel z t score name offset (omega arith) small small_offset has in
      (
        cut,
        ap (λ m. m >>= λ znode. query_rows fuel z znode limit 0 out) run
            ∙ answer cut.lower cut.upper,
      )
    where
      answer :
          (lower upper : List ℕ)
          → query_rows fuel z (query_answer t lower upper offset) limit 0 out
            ≡ ok (listed z (found_rows t lower upper offset) limit 0 out)
      answer lower (x ∷ upper) = rows_from fuel (offset + length lower) limit out enough
      answer lower [] = no_rows z fuel limit out (omega arith)

-- The count is of both elements of a row, so the limit is one of elements too, rounded up.
listed_from :
    (z : ZSet) (xs : List ℕ) (most n : ℕ) (out : List ℕ)
    → n + 2 * length xs < 2 ^ 32
    → (listed z xs (2 ^ 63 + most) n out).0 ≡ n + 2 * min ((most - n + 1) / 2) (length xs)
listed_from z [] most n out small = omega arith
listed_from z (x ∷ xs) most n out small = elim (Bool-cases (ltb (2 ^ 63 + n) (2 ^ 63 + most))) [
  | inl more ↦
      rw more (listed_from z xs most (u32 (n + 2)) _ (omega arith) ∙ omega (arith, ltb→lt _ _ more))
  | inr full ↦ rw full (omega (arith, ltb→ge _ _ full))
]

pub listed-limit :
    (z : ZSet) (xs : List ℕ) (most : ℕ) (out : List ℕ)
    → 2 * length xs < 2 ^ 32
    → (listed z xs (2 ^ 63 + most) 0 out).0 ≡ 2 * min ((most + 1) / 2) (length xs)
listed-limit z xs most out small = listed_from z xs most 0 out (omega arith) ∙ omega arith

-- The run of `zset_query` and of the loop after it.
pub record Rows (z : ZSet) (t : Tree) (score : ℕ) (name : List ℕ) (offset limit : ℕ) (out : List ℕ)
    (run : Run (ℕ × List ℕ)) : Type 0 where
  pub cut : Cut z t score name
  pub rows : run ≡ ok (listed z (found_rows t cut.lower cut.upper offset) limit 0 out)
  pub number :
      (listed z (found_rows t cut.lower cut.upper offset) limit 0 out).0
      ≡ 2 * min ((limit - 2 ^ 63 + 1) / 2) (length (found_rows t cut.lower cut.upper offset))

found_rows-le :
    (t : Tree) (lower upper : List ℕ) (offset : ℕ)
    → length (found_rows t lower upper offset) ≤ size t
found_rows-le t lower [] offset = omega arith
found_rows-le t lower (x ∷ upper) offset =
    elim (Bool-cases (ltb (offset + length lower) (2 ^ 63))) [
      | inl under ↦ rw under (omega arith)
      | inr fine ↦ rw fine (
          omega
            (arith, length-drop-le (offset + length lower - 2 ^ 63) (inorder t), length-inorder t))
    ]

-- On a balanced tree of fewer than 2 ^ 31 - 1 nodes in the order of score and name, with fuel
-- above three times the nodes, an `int64_t` as offset and a limit that is not negative, the
-- query and the loop of `do_zquery` return. They append name and score of one node after the
-- other, from the one that `zset_query` finds on; the number of elements is twice the least of
-- half of the limit, rounded up, and the number of nodes from there on: the limit counts
-- elements and not tuples.
pub query_rows-Rows :
    (fuel : ℕ) (z : ZSet) (t : Tree) (score : ℕ) (name : List ℕ) (offset limit : ℕ) (out : List ℕ)
    → size t + size t + size t < fuel
    → size t < 2 ^ 31 - 1
    → offset < 2 ^ 64
    → 2 ^ 63 ≤ limit
    → HasTree z t
    → Rows z t score name offset limit out
        (do znode ← zset_query fuel z score name offset; query_rows fuel z znode limit 0 out)
query_rows-Rows fuel z t score name offset limit out enough small small_offset positive has =
    let (cut, rows) =
      query_rows-zset_query z t (omega arith) has fuel score name offset limit out enough
        small_offset in
    let xs = found_rows t cut.lower cut.upper offset in
    record {
      cut = cut;
      rows = rows;
      number =
          ap (λ m. (listed z xs m 0 out).0) (back limit positive)
          ∙ listed-limit z xs (limit - 2 ^ 63) out
              (omega (arith, found_rows-le t cut.lower cut.upper offset));
    }
  where
    back : (n : ℕ) → 2 ^ 63 ≤ n → n ≡ 2 ^ 63 + (n - 2 ^ 63)
    back n h = omega arith
