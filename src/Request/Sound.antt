-- ===== src/Request/Sound.antt =====
-- `parse_req` on any bytes.
use mathlib.Core.Path.{ap₂}
use redis_c.Base.{
  ℕ, zero, suc, ◌+◌, ◌<◌, ◌^◌, u32, ◌≤◌, ◌≡◌, sym, ap, ◌∙◌, Option, none, some, List, [], ◌∷◌, ◌++◌,
  ltb, leb, ◌==◌, length, Bool-cases, inl, inr, true, false, take, drop, ==_iff, Returns, arith,
  All, All-drop, All-take, take-add, drop-add, take-all, length-take, length-drop, length-append,
  append_assoc, append-nil,
}
use redis_c.Wire.{read_le, slice, from_le, le_bytes}
use redis_c.Wire.Bytes.{IsByte, le_bytes-from_le}
use redis_c.Request.{Command, parse_args, parse_req, k_max_args}
use redis_c.Request.Format.{arg_bytes, args_bytes, args_bytes-snoc, request_bytes}

-- What a result says of the bytes: `hd` and the strings, `total` of them.
abbrev Accepts : List ℕ → List ℕ → ℕ → Option Command → Type 0
Accepts hd d total none = Unit
Accepts hd d total (some cmd) = (d ≡ hd ++ args_bytes cmd) × (length cmd ≡ total)

in_bounds : (a b c : ℕ) → ltb c (a + b) ≡ false → leb (a + b) c ≡ true
in_bounds a b c h = ground arith

-- The bytes up to `pos` and the next string.
next_arg :
    (d : List ℕ) (pos : ℕ) (pre : List ℕ)
    → All IsByte d
    → take pos d ≡ pre
    → pos + 4 + from_le (take 4 (drop pos d)) ≤ length d
    → take (pos + (4 + from_le (take 4 (drop pos d)))) d
      ≡ pre ++ arg_bytes (take (from_le (take 4 (drop pos d))) (drop (pos + 4) d))
unfolding arg_bytes
next_arg d pos pre bytes e fits =
    let w = take 4 (drop pos d) in
    let sz = from_le w in
    let four : length w ≡ 4 = omega (arith, length-take 4 (drop pos d), length-drop pos d) in
    let word : le_bytes 4 sz ≡ w =
      le_bytes-from_le w four (All-take IsByte 4 (drop pos d) (All-drop IsByte pos d bytes)) in
    let long : length (take sz (drop (pos + 4) d)) ≡ sz =
      omega (arith, length-take sz (drop (pos + 4) d), length-drop (pos + 4) d) in
    take-add pos (4 + sz) d
    ∙ ap₂ (λ a b. a ++ b) e
        (take-add 4 sz (drop pos d)
          ∙ ap₂ (λ a b. a ++ take sz b) (sym word) (sym (drop-add pos 4 d))
          ∙ ap (λ k. le_bytes 4 k ++ take sz (drop (pos + 4) d)) (sym long))

again : (hd d : List ℕ) {a b : ℕ} (r : Option Command) → a ≡ b → Accepts hd d a r → Accepts hd d b r
again hd d none e acc = acc
again hd d (some cmd) e acc = (acc.0, acc.1 ∙ e)

parse_args-Accepts :
    (d : List ℕ) (n pos : ℕ) (out : Command) (hd : List ℕ)
    → All IsByte d
    → length d < 2 ^ 32
    → take pos d ≡ hd ++ args_bytes out
    → Returns (parse_args d n pos out) (Accepts hd d (length out + n))
unfolding parse_args read_le slice
parse_args-Accepts d zero pos out hd bytes small e = elim (Bool-cases (pos == length d)) [
  | inl end ↦ (
    some out,
    rw end,
    (sym (take-all d) ∙ ap (λ k. take k d) (sym ((==_iff pos (length d)).0 end)) ∙ e, omega arith),
  )
  | inr more ↦ (none, rw more, tt)
]
parse_args-Accepts d (suc n) pos out hd bytes small e =
    elim (Bool-cases (ltb (length d) (pos + 4))) [
      | inl short ↦ (none, rw short, tt)
      | inr long ↦
          let sz = from_le (take 4 (drop pos d)) in
          elim (Bool-cases (ltb (length d) (pos + 4 + sz))) [
            | inl short' ↦ (none, rw (long, in_bounds pos 4 (length d) long, short'), tt)
            | inr long' ↦
                let s = take sz (drop (pos + 4) d) in
                let step = next_arg d pos (hd ++ args_bytes out) bytes e (ground arith) in
                let whole : take (pos + (4 + sz)) d ≡ hd ++ args_bytes (out ++ s ∷ []) =
                  step
                  ∙ append_assoc hd (args_bytes out) (arg_bytes s)
                  ∙ ap (λ l. hd ++ l) (sym (args_bytes-snoc out s)) in
                let (r, run, acc) =
                  parse_args-Accepts d n (pos + (4 + sz)) (out ++ s ∷ []) hd bytes small whole in
                let word : u32 (4 + sz) ≡ 4 + sz = ground arith in
                (
                  r,
                  rw
                      (
                        long,
                        in_bounds pos 4 (length d) long,
                        long',
                        in_bounds (pos + 4) sz (length d) long',
                        word,
                      )
                      run,
                  again hd d r (omega (arith, length-append out (s ∷ []))) acc,
                )
          ]
    ]

-- a parsed command is the one that the bytes lay out, with at most 1024 strings
abbrev pub Parsed : List ℕ → Option Command → Type 0
Parsed d none = Unit
Parsed d (some cmd) = (d ≡ request_bytes cmd) × (length cmd ≤ k_max_args)

finish :
    (d : List ℕ) (n : ℕ) (r : Option Command)
    → ltb k_max_args n ≡ false
    → Accepts (le_bytes 4 n) d (0 + n) r
    → Parsed d r
unfolding request_bytes
finish d n none few acc = tt
finish d n (some cmd) few acc =
    let same : length cmd ≡ n = acc.1 ∙ omega arith in
    (acc.0 ∙ ap (λ k. le_bytes 4 k ++ args_bytes cmd) (sym same), ground arith)

-- On any fewer than 2 ^ 32 bytes, `parse_req` returns without a read outside the request. If it
-- gives a command, then the request is exactly the layout of that command (nstr, then a length
-- and the string for each string), with nothing behind it, and the command has at most 1024
-- strings.
pub parse_req-Parsed :
    (d : List ℕ) → All IsByte d → length d < 2 ^ 32 → Returns (parse_req d) (Parsed d)
unfolding parse_req read_le args_bytes
parse_req-Parsed d bytes small = elim (Bool-cases (ltb (length d) 4)) [
  | inl short ↦ (none, rw short, tt)
  | inr long ↦
      let w = take 4 d in
      let n = from_le w in
      let ahead : leb (0 + 4) (length d) ≡ true = ground arith in
      elim (Bool-cases (ltb k_max_args n)) [
        | inl many ↦ (none, rw (long, ahead, many), tt)
        | inr few ↦
            let four : length w ≡ 4 = ground (arith, length-take 4 d) in
            let word = le_bytes-from_le w four (All-take IsByte 4 d bytes) in
            let start : take 4 d ≡ le_bytes 4 n ++ [] =
              sym word ∙ sym (append-nil (le_bytes 4 n)) in
            let (r, run, acc) = parse_args-Accepts d n 4 [] (le_bytes 4 n) bytes small start in
            (r, rw (long, ahead, few) run, finish d n r few acc)
      ]
]
