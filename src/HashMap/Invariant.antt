-- ===== src/HashMap/Invariant.antt =====
-- The map's invariant, and its nodes as a multiset over both tables.
use mathlib.Core.List.{flatten}
use mathlib.Core.Bool.{false≢true}
use redis_c.Base.{
  sym, ◌^◌, ◌<◌, ◌≡◌, ◌⊎◌, inl, inr, refl, ◌∙◌, Bool, false, List, ◌++◌, arith, length, count,
}
use redis_c.HashTable.{Hashed, HTable, null_table}
use redis_c.HashTable.Table.{chains, nodes, IsTable}
use redis_c.HashMap.{HMap, is_null, empty_map}

abbrev pub entries {ℓ} : {N : Type ℓ} → HMap N → List N
entries m = nodes m.ht_to ++ nodes m.ht_from

module _ {ℓ} {N : Type ℓ} ⦃hashed : Hashed N⦄ where
  -- either not allocated, or well formed
  abbrev pub IsSlot : HTable N → Type ℓ
  IsSlot t = (t ≡ null_table) ⊎ IsTable t

  pub record IsMap (m : HMap N) : Type ℓ where
    pub to_valid : IsSlot m.ht_to
    pub from_valid : IsSlot m.ht_from
    pub fits : length (entries m) < 2 ^ 64
    -- while nodes are moved out of `ht_from`, the position is inside it and `ht_to` is allocated
    pub moving :
        is_null m.ht_from ≡ false
        → (m.resizing_pos < length (chains m.ht_from)) × (is_null m.ht_to ≡ false)

  pub empty_map-IsMap : IsMap (empty_map {N = N})
  unfolding flatten
  empty_map-IsMap = record {
    to_valid = inl refl;
    from_valid = inl refl;
    fits = omega arith;
    moving = λ e. absurd (cc);
  }

  -- the two maps hold the same nodes, as often
  pub record SameNodes (m m' : HMap N) : Type ℓ where
    pub counted : (p : N → Bool) → count p (entries m') ≡ count p (entries m)
    pub total : length (entries m') ≡ length (entries m)

  pub SameNodes-trans : (a b c : HMap N) → SameNodes a b → SameNodes b c → SameNodes a c
  SameNodes-trans a b c p q = record {
    counted = λ t. q.counted t ∙ p.counted t;
    total = q.total ∙ p.total;
  }

  pub IsTable_of_IsSlot : (t : HTable N) → IsSlot t → is_null t ≡ false → IsTable t
  IsTable_of_IsSlot t (inl e) h = absurd (false≢true (sym (rw e at h)))
  IsTable_of_IsSlot t (inr v) h = v

  pub is_null-IsTable : (t : HTable N) → IsTable t → is_null t ≡ false
  is_null-IsTable t v = rw v.allocated

  -- a map in the middle of a resize
  pub record IsMoving (m : HMap N) : Type ℓ where
    pub to : IsTable m.ht_to
    pub from : IsTable m.ht_from
    pub inside : m.resizing_pos < length (chains m.ht_from)
    pub fits : length (entries m) < 2 ^ 64

  pub IsMap-IsMoving : (m : HMap N) → IsMap m → is_null m.ht_from ≡ false → IsMoving m
  IsMap-IsMoving m v h = record {
    to = IsTable_of_IsSlot m.ht_to v.to_valid (v.moving h).1;
    from = IsTable_of_IsSlot m.ht_from v.from_valid h;
    inside = (v.moving h).0;
    fits = v.fits;
  }

  pub IsMoving-IsMap : (m : HMap N) → IsMoving m → IsMap m
  IsMoving-IsMap m v = record {
    to_valid = inr v.to;
    from_valid = inr v.from;
    fits = v.fits;
    moving = λ _. (v.inside, is_null-IsTable m.ht_to v.to);
  }
