-- ===== src/HashTable/Scan.antt =====
-- `h_scan` over the buckets of a table.
use mathlib.Core.List.{flatten}
use redis_c.Base.{
  suc, ◌≡◌, refl, ◌∙◌, List, [], ◌∷◌, ◌++◌, append_assoc, arith, length, length-append,
  eq-nil_of_length, get_elem?-middle, sym, ok, ==_iff, Bool-cases, ◌==◌, inl, inr,
}
use redis_c.HashTable.{Hashed, HTable, scan_chain, scan_loop, h_scan}
use redis_c.HashTable.Table.{chains, nodes, IsTable}

module _ {ℓ κ} {N : Type ℓ} {S : Type κ} (f : N → S → S) where
  scan_chain-append :
      (a b : List N) (s : S) → scan_chain f (a ++ b) s ≡ scan_chain f b (scan_chain f a s)
  unfolding scan_chain
  scan_chain-append [] b s = refl
  scan_chain-append (n ∷ a) b s = scan_chain-append a b (f n s)

  scan_loop_lem :
      (seen rest : List (List N)) (s : S)
      → scan_loop f (seen ++ rest) (length rest) (length seen) s
        ≡ ok (scan_chain f (flatten rest) s)
  unfolding scan_loop scan_chain flatten
  scan_loop_lem seen [] s = refl
  scan_loop_lem seen (c ∷ rest) s =
      let next = scan_loop_lem (seen ++ c ∷ []) rest (scan_chain f c s) in
      let longer : length (seen ++ c ∷ []) ≡ suc (length seen) =
        omega (arith, length-append seen (c ∷ [])) in
      rw (get_elem?-middle seen c rest, scan_chain-append)
        (rw (append_assoc seen (c ∷ []) rest, longer) at next)

  -- On a well-formed table, `h_scan` runs the callback on each of its nodes once, in the order
  -- of the buckets and of their chains.
  pub scan_whole :
      ⦃hashed : Hashed N⦄ (t : HTable N) (s : S)
      → IsTable t
      → h_scan f t s ≡ ok (scan_chain f (nodes t) s)
  unfolding h_scan scan_chain
  scan_whole t s v = elim (Bool-cases (t.size == 0)) [
    | inl empty ↦
        let none_left = eq-nil_of_length (nodes t) (sym v.sized ∙ (==_iff t.size 0).0 empty) in
        rw (empty, none_left)
    | inr some_left ↦ rw (some_left, v.allocated, ← v.width) (scan_loop_lem [] (chains t) s)
  ]
