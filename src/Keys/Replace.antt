-- ===== src/Keys/Replace.antt =====
-- A write through the pointer to a node, as `do_set` makes it.
use mathlib.Core.Bool.{false≢true}
use redis_c.Base.{
  ℕ, zero, suc, ◌+◌, ◌≡◌, refl, sym, ap, ◌∙◌, Bool, true, some, List, [], ◌∷◌, ◌++◌, if◌then◌else◌,
  length, get_elem?, get_or, set, count, All, ok, Returns, arith, inr, length-set, length-append,
  count-append, bit_and,
}
use redis_c.HashTable.{HTable, load_link}
use redis_c.HashTable.Chain.{count-flatten-set, length-flatten-set}
use redis_c.HashTable.Table.{chains, nodes, IsTable, placed-set, load_link-inv}
use redis_c.HashMap.{Place, in_to, in_from, load_place, is_null}
use redis_c.HashMap.Invariant.{entries, IsMap, is_null-IsTable}
use redis_c.HashMap.Methods.{loaded-IsTable}
use redis_c.Keys.{Entry, hashed_entry, store_link, store_place, Db}

count-set :
    (p : Entry → Bool) (es : List Entry) (i : ℕ) (e e' : Entry)
    → get_elem? es i ≡ some e
    → count p (set es i e') + (if p e then 1 else 0) ≡ count p es + (if p e' then 1 else 0)
count-set p [] i e e' h = absurd (cc)
count-set p (x ∷ es) zero e e' h = let same : x ≡ e = cc in rw same (omega arith)
count-set p (x ∷ es) (suc i) e e' h = omega (arith, count-set p es i e e' h)

All-set :
    (P : Entry → Type 0) (es : List Entry) (i : ℕ) (e' : Entry)
    → All P es
    → P e'
    → All P (set es i e')
All-set P [] i e' h k = tt
All-set P (x ∷ es) zero e' h k = (k, h.1)
All-set P (x ∷ es) (suc i) e' h k = (h.0, All-set P es i e' h.1 k)

All-get :
    (P : Entry → Type 0) (es : List Entry) (i : ℕ) (e : Entry)
    → All P es
    → get_elem? es i ≡ some e
    → P e
All-get P [] i e h k = absurd (cc)
All-get P (x ∷ es) zero e h k = let same : x ≡ e = cc in rw (← same) h.0
All-get P (x ∷ es) (suc i) e h k = All-get P es i e h.1 k

-- `e'` stands where `e` stood
record Replaces (t : HTable Entry) (e e' : Entry) (t' : HTable Entry) : Type 0 where
  valid : IsTable t'
  mask : t'.mask ≡ t.mask
  width : length (chains t') ≡ length (chains t)
  total : length (nodes t') ≡ length (nodes t)
  counted :
      (p : Entry → Bool)
      → count p (nodes t') + (if p e then 1 else 0) ≡ count p (nodes t) + (if p e' then 1 else 0)

store_link-Replaces :
    (t : HTable Entry) (pos i : ℕ) (e e' : Entry)
    → IsTable t
    → load_link t (pos, i) ≡ ok e
    → e'.hcode ≡ e.hcode
    → Returns (store_link t (pos, i) e') (Replaces t e e')
unfolding store_link
store_link-Replaces t pos i e e' v at same =
    let (h, chain_at, node_at) = load_link-inv t pos i e v at in
    let chain = get_or (chains t) pos [] in
    let total = length-flatten-set (chains t) pos (set chain i e') h in
    let kept = length-set chain i e' in
    let here : bit_and e'.hcode t.mask ≡ pos =
      ap (λ c. bit_and c t.mask) same
      ∙ All-get (λ n. bit_and n.hcode t.mask ≡ pos) chain i e (v.placed pos) node_at in
    (
      record t { table = some (set (chains t) pos (set chain i e')) },
      rw (v.allocated, chain_at),
      record {
        valid = record {
          allocated = refl;
          width = length-set _ _ _ ∙ v.width;
          sized = omega (arith, v.sized, total, kept);
          small = omega (arith, v.small, total, kept);
          placed =
              placed-set t.mask (chains t) pos _ h v.placed
                (All-set (λ n. bit_and n.hcode t.mask ≡ pos) chain i e' (v.placed pos) here);
          power = v.power;
        };
        mask = refl;
        width = length-set _ _ _;
        total = omega (arith, total, kept);
        counted = λ p. omega (
          arith,
          count-flatten-set p (chains t) pos (set chain i e') h,
          count-set p chain i e e' node_at,
        );
      },
    )

pub record Swapped (m : Db) (e e' : Entry) (m' : Db) : Type 0 where
  pub valid : IsMap m'
  pub total : length (entries m') ≡ length (entries m)
  pub counted :
      (p : Entry → Bool)
      → count p (entries m') + (if p e then 1 else 0)
        ≡ count p (entries m) + (if p e' then 1 else 0)
  pub idle : is_null m.ht_from ≡ true → is_null m'.ht_from ≡ true
  pub to_null : is_null m'.ht_to ≡ is_null m.ht_to
  pub to_mask : m'.ht_to.mask ≡ m.ht_to.mask

pub store_place-Swapped :
    (m : Db) (place : Place) (e e' : Entry)
    → IsMap m
    → load_place m place ≡ ok e
    → e'.hcode ≡ e.hcode
    → Returns (store_place m place e') (Swapped m e e')
unfolding store_place load_place
store_place-Swapped m (in_to (pos, i)) e e' v at same =
    let valid = loaded-IsTable m.ht_to pos i v.to_valid at in
    let (t, run, r) = store_link-Replaces m.ht_to pos i e e' valid at same in
    let total : length (nodes t ++ nodes m.ht_from) ≡ length (entries m) = omega (
      arith,
      r.total,
      length-append (nodes t) (nodes m.ht_from),
      length-append (nodes m.ht_to) (nodes m.ht_from),
    ) in
    (
      record m { ht_to = t },
      rw run,
      record {
        valid = record {
          to_valid = inr r.valid;
          from_valid = v.from_valid;
          fits = omega (arith, total, v.fits);
          moving = λ b. ((v.moving b).0, is_null-IsTable t r.valid);
        };
        total = total;
        counted = λ p. omega (
          arith,
          r.counted p,
          count-append p (nodes t) (nodes m.ht_from),
          count-append p (nodes m.ht_to) (nodes m.ht_from),
        );
        idle = λ b. b;
        to_null = is_null-IsTable t r.valid ∙ sym (is_null-IsTable m.ht_to valid);
        to_mask = r.mask;
      },
    )
store_place-Swapped m (in_from (pos, i)) e e' v at same =
    let valid = loaded-IsTable m.ht_from pos i v.from_valid at in
    let busy = is_null-IsTable m.ht_from valid in
    let (t, run, r) = store_link-Replaces m.ht_from pos i e e' valid at same in
    let total : length (nodes m.ht_to ++ nodes t) ≡ length (entries m) = omega (
      arith,
      r.total,
      length-append (nodes m.ht_to) (nodes t),
      length-append (nodes m.ht_to) (nodes m.ht_from),
    ) in
    (
      record m { ht_from = t },
      rw run,
      record {
        valid = record {
          to_valid = v.to_valid;
          from_valid = inr r.valid;
          fits = omega (arith, total, v.fits);
          moving = λ b. (omega (arith, (v.moving busy).0, r.width), (v.moving busy).1);
        };
        total = total;
        counted = λ p. omega (
          arith,
          r.counted p,
          count-append p (nodes m.ht_to) (nodes t),
          count-append p (nodes m.ht_to) (nodes m.ht_from),
        );
        idle = λ b. absurd (false≢true (sym busy ∙ b));
        to_null = refl;
        to_mask = refl;
      },
    )
