-- ===== src/Avl/Descend.antt =====
-- The loop of `avl_offset`, src/avl.cpp, on its way down to a node.
use redis_c.Base.{
  ℕ, zero, suc, ◌+◌, ◌-◌, ◌≤◌, ◌<◌, ◌^◌, ◌≡◌, sym, ◌∙◌, true, false, Option, none, some, List, ◌∷◌,
  ◌==◌, arith, ap, ltb, u32, Run, ok, ◌>>=◌, deref, ==_iff, Bool-cases, inl, inr,
}
use redis_c.Avl.{Store, avl_count, offset_loop, add_int64, sub_int64}
use redis_c.Avl.Tree.{Tree, leaf, node, root_of, size, Crumb, in_left, in_right, parent_of, plug}
use redis_c.Avl.Link.{Linked, avl_count-Linked}
use redis_c.Avl.Balanced.{plug-Linked, size-plug}
use redis_c.Avl.Place.{skipped, nth, nth-here, count_of-size, skipped-le, goes_right, goes_left}

lt_of_ltb : (a b : ℕ) → ltb a b ≡ true → a < b
lt_of_ltb a b h = ground arith

lt_of_not_ltb : (a b : ℕ) → (a == b) ≡ false → ltb b a ≡ false → a < b
lt_of_not_ltb a b h e = ground arith

-- the loop, from a pointer
abbrev loop_from : ℕ → Store → Option ℕ → ℕ → ℕ → Run (Option ℕ)
loop_from fuel s start offset pos = deref start >>= λ i. offset_loop fuel s i offset pos

abbrev left_size : Tree → ℕ
left_size leaf = 0
left_size (node l i r) = size l

abbrev right_size : Tree → ℕ
right_size leaf = 0
right_size (node l i r) = size r

pub add_small :
    (pos n : ℕ)
    → n < 2 ^ 31
    → pos + n + 1 < 2 ^ 64
    → add_int64 pos (u32 (n + 1)) ≡ ok (pos + (n + 1))
add_small pos n small room = ground arith

pub sub_small :
    (pos n : ℕ) → n < 2 ^ 31 → n + 1 ≤ pos → sub_int64 pos (u32 (n + 1)) ≡ ok (pos - (n + 1))
sub_small pos n small room = ground arith

pub count_of_left :
    (s : Store) (l : Tree) (i : ℕ) (r : Tree) (parent : Option ℕ)
    → size l < 2 ^ 31
    → Linked s (node l i r) parent
    → avl_count s (s i).left ≡ size l
count_of_left s l i r parent small h =
    ap (λ n. avl_count s n.left) h.0
    ∙ avl_count-Linked l s (some i) h.1
    ∙ count_of-size l (omega arith)

pub count_of_right :
    (s : Store) (l : Tree) (i : ℕ) (r : Tree) (parent : Option ℕ)
    → size r < 2 ^ 31
    → Linked s (node l i r) parent
    → avl_count s (s i).right ≡ size r
count_of_right s l i r parent small h =
    ap (λ n. avl_count s n.right) h.0
    ∙ avl_count-Linked r s (some i) h.2
    ∙ count_of-size r (omega arith)

-- the rest of a round that goes down to the right, or to the left
step_right :
    (r : Tree) (fuel : ℕ) (s : Store) (offset pos : ℕ) (parent out : Option ℕ)
    → 0 < size r
    → size r < 2 ^ 31
    → pos + left_size r + 1 < 2 ^ 64
    → Linked s r parent
    → loop_from fuel s (root_of r) offset (pos + (left_size r + 1)) ≡ ok out
    → (do
      right ← deref (root_of r)
      pos' ← add_int64 pos (u32 (avl_count s (s right).left + 1))
      offset_loop fuel s right offset pos')
      ≡ ok out
step_right leaf fuel s offset pos parent out there small room h run = absurd (omega arith)
step_right (node a k b) fuel s offset pos parent out there small room h run =
    rw (count_of_left s a k b parent (omega arith) h, add_small pos (size a) (omega arith) room) run

step_left :
    (l : Tree) (fuel : ℕ) (s : Store) (offset pos : ℕ) (parent out : Option ℕ)
    → 0 < size l
    → size l < 2 ^ 31
    → right_size l + 1 ≤ pos
    → Linked s l parent
    → loop_from fuel s (root_of l) offset (pos - (right_size l + 1)) ≡ ok out
    → (do
      left ← deref (root_of l)
      pos' ← sub_int64 pos (u32 (avl_count s (s left).right + 1))
      offset_loop fuel s left offset pos')
      ≡ ok out
step_left leaf fuel s offset pos parent out there small room h run = absurd (omega arith)
step_left (node a k b) fuel s offset pos parent out there small room h run =
    rw (count_of_right s a k b parent (omega arith) h, sub_small pos (size b) (omega arith) room)
      run

left_size-lt : (t : Tree) → 0 < size t → left_size t + right_size t + 1 ≡ size t
left_size-lt leaf h = absurd (omega arith)
left_size-lt (node l i r) h = omega arith

-- The target is in the subtree.
module _ (s : Store) (base offset : ℕ) (small_base : base < 2 ^ 31)
    (small_offset : offset < 2 ^ 64) where
  pub down :
      (t : Tree) (up : List Crumb) (fuel pos : ℕ)
      → 0 < size t
      → size t ≤ fuel
      → size (plug t up) < 2 ^ 31
      → Linked s (plug t up) none
      → pos + base ≡ 2 ^ 63 + (skipped up + left_size t)
      → 2 ^ 63 + skipped up ≤ offset + base
      → offset + base < 2 ^ 63 + skipped up + size t
      → loop_from fuel s (root_of t) offset pos ≡ ok (nth (plug t up) (offset + base))
  unfolding offset_loop
  down leaf up fuel pos there enough small h at lo hi = absurd (omega arith)
  down (node l i r) up zero pos there enough small h at lo hi = absurd (omega arith)
  down (node l i r) up (suc fuel) pos there enough small h at lo hi =
      let (low, above) = plug-Linked up s (node l i r) h in
      let bound = size-plug up (node l i r) in
      let left = count_of_left s l i r (parent_of up) (omega arith) low in
      let right = count_of_right s l i r (parent_of up) (omega arith) low in
      let skip = skipped-le up in
      elim (Bool-cases (offset == pos)) [
        | inl here ↦ rw here (
            ap ok (
              sym (nth-here l i r up)
              ∙ ap (nth (plug (node l i r) up)) (omega (arith, (==_iff offset pos).0 here))))
        | inr away ↦ elim (Bool-cases (ltb pos offset)) [
          | inl more ↦
              let after = lt_of_ltb pos offset more in
              let there' : 0 < size r = omega arith in
              let inner = left_size-lt r there' in
              rw
                (
                  away,
                  goes_right s i (size l) (size r) offset pos left right after (omega arith)
                      (omega arith),
                  ap (λ n. n.right) low.0,
                )
                (step_right r fuel s offset pos (some i) _ there' (omega arith) (omega arith) low.2
                  (down r (in_right l i ∷ up) fuel (pos + (left_size r + 1)) there' (omega arith)
                    small h (omega arith) (omega arith) (omega arith)))
          | inr less ↦
              let before = lt_of_not_ltb offset pos away less in
              let there' : 0 < size l = omega arith in
              let inner = left_size-lt l there' in
              rw
                (
                  away,
                  goes_left s i (size l) (size r) offset pos left right before (omega arith)
                      (omega arith),
                  ap (λ n. n.left) low.0,
                )
                (step_left l fuel s offset pos (some i) _ there' (omega arith) (omega arith) low.1 (
                  down l (in_left i r ∷ up) fuel (pos - (right_size l + 1)) there' (omega arith)
                    small h (omega arith) (omega arith) (omega arith)))
        ]
      ]
