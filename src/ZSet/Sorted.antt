-- ===== src/ZSet/Sorted.antt =====
-- Lists of nodes in the order of src/zset.cpp, with any transitive test as the order.
use redis_c.Base.{◌∙◌, ℕ, ◌≡◌, Bool, true, List, [], ◌∷◌, ◌++◌, All, All-append}

module _ (lt : ℕ → ℕ → Bool) where
  abbrev pub Sorted : List ℕ → Type 0
  Sorted [] = Unit
  Sorted (x ∷ xs) = All (λ y. lt x y ≡ true) xs × Sorted xs

  abbrev pub AllLess : List ℕ → ℕ → Type 0
  AllLess xs y = All (λ x. lt x y ≡ true) xs

module _ (P Q : ℕ → Type 0) where
  pub All-map : (xs : List ℕ) → ((x : ℕ) → P x → Q x) → All P xs → All Q xs
  All-map [] f h = tt
  All-map (x ∷ xs) f h = (f x h.0, All-map xs f h.1)

module _ (P : ℕ → Type 0) where
  pub All-split : (xs ys : List ℕ) → All P (xs ++ ys) → All P xs × All P ys
  All-split [] ys h = (tt, h)
  All-split (x ∷ xs) ys h = let (a, b) = All-split xs ys h.1 in ((h.0, a), b)

module _ (lt : ℕ → ℕ → Bool) where
  pub Sorted-split : (xs ys : List ℕ) → Sorted lt (xs ++ ys) → Sorted lt xs × Sorted lt ys
  Sorted-split [] ys h = (tt, h)
  Sorted-split (x ∷ xs) ys h =
      let (a, b) = Sorted-split xs ys h.1 in (((All-split _ xs ys h.0).0, a), b)

  -- what stands before an entry is less than it
  pub Sorted-before :
      (xs : List ℕ) (y : ℕ) (ys : List ℕ) → Sorted lt (xs ++ (y ∷ ys)) → AllLess lt xs y
  Sorted-before [] y ys h = tt
  Sorted-before (x ∷ xs) y ys h = ((All-split _ xs (y ∷ ys) h.0).1.0, Sorted-before xs y ys h.1)

  pub Sorted-insert :
      (xs : List ℕ) (n : ℕ) (ys : List ℕ)
      → Sorted lt (xs ++ ys)
      → AllLess lt xs n
      → All (λ y. lt n y ≡ true) ys
      → Sorted lt (xs ++ (n ∷ ys))
  Sorted-insert [] n ys h below above = (above, h)
  Sorted-insert (x ∷ xs) n ys h below above =
      let (a, b) = All-split _ xs ys h.0 in
      (
        All-append (λ y. lt x y ≡ true) xs (n ∷ ys) a (below.0, b),
        Sorted-insert xs n ys h.1 below.1 above,
      )

  pub Sorted-remove :
      (xs : List ℕ) (n : ℕ) (ys : List ℕ) → Sorted lt (xs ++ (n ∷ ys)) → Sorted lt (xs ++ ys)
  Sorted-remove [] n ys h = h.1
  Sorted-remove (x ∷ xs) n ys h =
      let (a, b) = All-split _ xs (n ∷ ys) h.0 in
      (All-append (λ y. lt x y ≡ true) xs ys a b.1, Sorted-remove xs n ys h.1)

-- two tests that agree on the entries
module _ (lt lt' : ℕ → ℕ → Bool) (P : ℕ → Type 0)
    (same : (a b : ℕ) → P a → P b → lt' a b ≡ lt a b) where
  All-same :
      (x : ℕ) (xs : List ℕ)
      → P x
      → All P xs
      → All (λ y. lt x y ≡ true) xs
      → All (λ y. lt' x y ≡ true) xs
  All-same x [] p ps h = tt
  All-same x (y ∷ xs) p ps h = (same x y p ps.0 ∙ h.0, All-same x xs p ps.1 h.1)

  pub Sorted-same : (xs : List ℕ) → All P xs → Sorted lt xs → Sorted lt' xs
  Sorted-same [] ps h = tt
  Sorted-same (x ∷ xs) ps h = (All-same x xs ps.0 ps.1 h.0, Sorted-same xs ps.1 h.1)
