-- ===== src/HashMap/Session.antt =====
-- Calls of the hash map in sequence.
use mathlib.Core.Path.{subst}
use redis_c.Base.{
  ℕ, ◌+◌, ◌<◌, ◌≤◌, refl, sym, List, [], ◌∷◌, arith, length, none, some, Run, ok, Returns, ◌>>=◌,
  inl,
}
use redis_c.HashTable.{Hashed, Key, RespectsHash}
use redis_c.HashMap.{HMap, hm_insert, hm_lookup, hm_pop, k_resizing_work}
use redis_c.HashMap.Invariant.{entries}
use redis_c.HashMap.Growth.{buckets}
use redis_c.HashMap.Methods.{hm_lookup-FoundIn, Popped, hm_pop-Popped}
use redis_c.HashMap.Insert.{IsCalm, hm_insert-IsCalm}

-- the calls that the server makes of its key space
pub data Call {ℓ} (N : Type ℓ) : Type ℓ where
  insert : N → Call N
  lookup pop : Key N → Call N

module _ {ℓ} {N : Type ℓ} where
  unfoldable pub inserts : List (Call N) → ℕ
  inserts [] = 0
  inserts (insert n ∷ calls) = inserts calls + 1
  inserts (lookup k ∷ calls) = inserts calls
  inserts (pop k ∷ calls) = inserts calls

module _ {ℓ} {N : Type ℓ} ⦃hashed : Hashed N⦄ where
  unfoldable pub call : ℕ → Call N → HMap N → Run (HMap N)
  call fuel (insert n) m = hm_insert fuel m n
  call fuel (lookup k) m = do (_, m') ← hm_lookup fuel m k; ok m'
  call fuel (pop k) m = do (_, m') ← hm_pop fuel m k; ok m'

  unfoldable pub run : ℕ → List (Call N) → HMap N → Run (HMap N)
  unfolding call
  run fuel [] m = ok m
  run fuel (c ∷ calls) m = call fuel c m >>= run fuel calls

  -- the keys of a session compare hash codes first
  abbrev pub AllRespect : List (Call N) → Type ℓ
  AllRespect [] = Unit
  AllRespect (insert n ∷ calls) = AllRespect calls
  AllRespect (lookup k ∷ calls) = RespectsHash k × AllRespect calls
  AllRespect (pop k ∷ calls) = RespectsHash k × AllRespect calls

  -- a calm map with at least the first four buckets
  pub record IsSmall (room : ℕ) (m : HMap N) : Type ℓ where
    pub calm : IsCalm m
    pub roomy : 4 ≤ buckets m
    pub few : length (entries m) + room < 32

  insert-IsSmall :
      (room : ℕ) (m : HMap N) (n : N)
      → IsSmall (room + 1) m
      → Returns (hm_insert (k_resizing_work + 1) m n) (IsSmall room)
  insert-IsSmall room m n s =
      let (m', run, (gained, calm, wide)) =
        hm_insert-IsCalm (k_resizing_work + 1) m n s.calm (omega (arith, s.few))
          (omega (arith, s.few, s.roomy)) (omega arith) in
      (
        m',
        run,
        record {
          calm = calm;
          roomy = omega (arith, wide, s.roomy);
          few = omega (arith, gained.total, s.few);
        },
      )

  lookup-IsSmall :
      (room : ℕ) (m : HMap N) (k : Key N)
      → IsSmall room m
      → RespectsHash k
      → Returns (call (k_resizing_work + 1) (lookup k) m) (IsSmall room)
  unfolding call
  lookup-IsSmall room m k s respects =
      let ((r, m'), run, (helps, found)) =
        hm_lookup-FoundIn (k_resizing_work + 1) m k s.calm.valid (inl s.calm.idle) (omega arith)
          respects in
      let same = helps.idle s.calm.idle in (m, rw (run, same), s)

  pop-IsSmall :
      (room : ℕ) (m : HMap N) (k : Key N)
      → IsSmall room m
      → RespectsHash k
      → Returns (call (k_resizing_work + 1) (pop k) m) (IsSmall room)
  unfolding call
  pop-IsSmall room m k s respects = after (
      hm_pop-Popped (k_resizing_work + 1) m k s.calm.valid (inl s.calm.idle) (omega arith) respects)
    where
      after :
          Returns (hm_pop (k_resizing_work + 1) m k) (Popped k m)
          → Returns (call (k_resizing_work + 1) (pop k) m) (IsSmall room)
      after ((none, m'), run, same) =
          (m', rw run, subst (IsSmall room) (sym (same.idle s.calm.idle)) s)
      after ((some n, m'), run, (took, pass)) = (
        m',
        rw run,
        record {
          calm = record { valid = took.valid; idle = took.stays_idle s.calm.idle };
          roomy = rw (took.to_null, took.to_mask) s.roomy;
          few = omega (arith, took.total, s.few);
        },
      )

  -- A sequence of insertions, lookups and pops, whose comparisons accept a node only if the
  -- hash codes agree, returns with 129 rounds of fuel a call if the map is well formed, no
  -- resize goes on, it has at least 4 buckets (or none yet), and its nodes and the insertions
  -- together stay below 32. The map that is left is of that kind.
  pub run-returns :
      (calls : List (Call N)) (m : HMap N)
      → IsSmall (inserts calls) m
      → AllRespect calls
      → Returns (run (k_resizing_work + 1) calls m) (IsSmall 0)
  unfolding run inserts
  run-returns [] m s respects = (m, refl, s)
  run-returns (insert n ∷ calls) m s respects =
      let (m', done, s') = insert-IsSmall (inserts calls) m n s in
      let (m'', rest, s'') = run-returns calls m' s' respects in (m'', rw done rest, s'')
  run-returns (lookup k ∷ calls) m s respects =
      let (m', done, s') = lookup-IsSmall (inserts calls) m k s respects.0 in
      let (m'', rest, s'') = run-returns calls m' s' respects.1 in (m'', rw done rest, s'')
  run-returns (pop k ∷ calls) m s respects =
      let (m', done, s') = pop-IsSmall (inserts calls) m k s respects.0 in
      let (m'', rest, s'') = run-returns calls m' s' respects.1 in (m'', rw done rest, s'')
