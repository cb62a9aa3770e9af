-- ===== src/HashTable/Chain.antt =====
-- Lemmas on chains and on the bucket array: where an entry that passes a test can stand.
use mathlib.Core.List.{flatten}
use redis_c.Base.{
  All, Bool-cases, Option-cases, inl, inr, ℕ, zero, suc, ◌+◌, ◌<◌, ◌≡◌, ◌≢◌, refl, Bool, true,
  false, none, some, List, [], ◌∷◌, arith, length, count, get_or, set, get_elem?, count-append,
  length-append, replicate, erase_idx, ◌≤◌,
}
use redis_c.HashTable.{find_link}

module _ {ℓ} {A : Type ℓ} where
  pub All-erase_idx {κ} : (P : A → Type κ) (xs : List A) (i : ℕ) → All P xs → All P (erase_idx xs i)
  All-erase_idx P [] i h = h
  All-erase_idx P (x ∷ xs) zero h = h.1
  All-erase_idx P (x ∷ xs) (suc i) h = (h.0, All-erase_idx P xs i h.1)

  pub count-eq-zero {κ} :
      (P : A → Type κ) (p : A → Bool) (xs : List A)
      → ((x : A) → P x → p x ≡ false)
      → All P xs
      → count p xs ≡ 0
  count-eq-zero P p [] h all = refl
  count-eq-zero P p (x ∷ xs) h all = rw (h x all.0) (omega (arith, count-eq-zero P p xs h all.1))

  pub find_link-none : (p : A → Bool) (c : List A) → find_link p c ≡ none → count p c ≡ 0
  unfolding find_link
  find_link-none p [] h = refl
  find_link-none p (x ∷ c) h = ground (arith, find_link-none p c)

  pub find_link-some :
      (p : A → Bool) (c : List A) (i : ℕ)
      → find_link p c ≡ some i
      → (x : A) × (get_elem? c i ≡ some x) × (p x ≡ true)
  unfolding find_link
  find_link-some p [] i h = absurd (cc)
  find_link-some p (x ∷ c) i h = elim (Bool-cases (p x)) [
    | inl yes_x ↦ (x, ground arith, yes_x)
    | inr no_x ↦ elim (Option-cases (find_link p c)) [
      | inl gone ↦ absurd (ground arith)
      | inr (j, found) ↦ let (y, here, pass) = find_link-some p c j found in (y, ground arith, pass)
    ]
  ]

  pub flatten-replicate : (n : ℕ) → flatten {A = A} (replicate n []) ≡ []
  unfolding flatten
  flatten-replicate zero = refl
  flatten-replicate (suc n) = flatten-replicate n

  -- every write changes one bucket
  pub count-flatten-set :
      (p : A → Bool) (bs : List (List A)) (i : ℕ) (c : List A)
      → i < length bs
      → count p (flatten (set bs i c)) + count p (get_or bs i []) ≡ count p (flatten bs) + count p c
  unfolding flatten
  count-flatten-set p [] i c h = absurd (omega arith)
  count-flatten-set p (x ∷ bs) zero c h = simp count-append (omega arith)
  count-flatten-set p (x ∷ bs) (suc i) c h =
      simp count-append (omega (arith, count-flatten-set p bs i c (omega arith)))

  count_each : (xs : List A) → count (λ _. true) xs ≡ length xs
  count_each [] = refl
  count_each (x ∷ xs) = omega (arith, count_each xs)

  -- the length is what the test that always passes counts
  pub length-flatten-set :
      (buckets : List (List A)) (pos : ℕ) (chain : List A)
      → pos < length buckets
      → length (flatten (set buckets pos chain)) + length (get_or buckets pos [])
        ≡ length (flatten buckets) + length chain
  length-flatten-set buckets pos chain inside =
      let counted = count-flatten-set (λ _. true) buckets pos chain inside in
      omega (
        arith,
        counted,
        count_each (flatten (set buckets pos chain)),
        count_each (get_or buckets pos []),
        count_each (flatten buckets),
        count_each chain,
      )

  count-flatten_nowhere :
      (p : A → Bool) (bs : List (List A))
      → ((i : ℕ) → count p (get_or bs i []) ≡ 0)
      → count p (flatten bs) ≡ 0
  unfolding flatten
  count-flatten_nowhere p [] h = refl
  count-flatten_nowhere p (c ∷ bs) h =
      rw (count-append, h 0, count-flatten_nowhere p bs (λ i. h (suc i)))

  -- what can stand in one bucket only is counted there
  pub count-flatten_only :
      (p : A → Bool) (bs : List (List A)) (j : ℕ)
      → ((i : ℕ) → i ≢ j → count p (get_or bs i []) ≡ 0)
      → count p (flatten bs) ≡ count p (get_or bs j [])
  unfolding flatten
  count-flatten_only p [] j h = refl
  count-flatten_only p (c ∷ bs) zero h =
      rw (count-append, count-flatten_nowhere p bs (λ i. h (suc i) (omega arith))) (omega arith)
  count-flatten_only p (c ∷ bs) (suc j) h =
      rw count-append (
        omega
          (arith, h 0 (omega arith), count-flatten_only p bs j (λ i n. h (suc i) (omega arith))))

  pub length-get_or-le :
      (bs : List (List A)) (i : ℕ) → length (get_or bs i []) ≤ length (flatten bs)
  unfolding flatten
  length-get_or-le [] i = omega arith
  length-get_or-le (c ∷ bs) zero = rw length-append (omega arith)
  length-get_or-le (c ∷ bs) (suc i) = rw length-append (omega (arith, length-get_or-le bs i))
