-- ===== src/Io/Transfer.antt =====
-- Whole transfers with `write_all` and `read_full`.
use redis_c.Base.{
  ℕ, zero, suc, ◌+◌, ◌-◌, ◌≤◌, ◌<◌, ◌≡◌, ◌⊎◌, refl, ap, sym, ◌∙◌, true, false, List, [], ◌∷◌, ◌++◌,
  arith, leb, ◌==◌, length, take, drop, ok, Returns, Bool-cases, length-drop, take-add,
  take-append-drop, inl, inr,
}
use redis_c.Io.{Write, wrote, write_failed, Sent, write_all, Read, got, read_failed, read_full}

-- Enough answers for the loop to end, none of them above what was offered.
abbrev pub CoversWrite : List Write → ℕ → Type 0
CoversWrite [] n = n ≡ 0
CoversWrite (write_failed ∷ answers) n = Unit
CoversWrite (wrote rv ∷ answers) n = (rv ≤ n) × ((rv ≡ 0) ⊎ CoversWrite answers (n - rv))

-- What the socket got is a first part of the buffer, and all of it on success.
abbrev pub SendsPart : List ℕ → Sent → Type 0
SendsPart buf r = (k : ℕ) × (r.sent ≡ take k buf) × (r.done ≡ true → r.sent ≡ buf)

covers_rest :
    (answers : List Write) (rv n : ℕ)
    → (rv == 0) ≡ false
    → (rv ≡ 0) ⊎ CoversWrite answers (n - rv)
    → CoversWrite answers (n - rv)
covers_rest answers rv n some_taken (inl e) = absurd (ground arith)
covers_rest answers rv n some_taken (inr h) = h

-- With a kernel that answers every `write` of the loop with at most what was offered, or with
-- an error, `write_all` returns and its assertion holds. What was sent is a first part of the
-- buffer, and the whole buffer if the result is 0.
pub write_all-SendsPart :
    (answers : List Write) (buf : List ℕ)
    → CoversWrite answers (length buf)
    → Returns (write_all answers buf) (SendsPart buf)
unfolding write_all
write_all-SendsPart answers [] h = (_, refl, (0, refl, λ _. refl))
write_all-SendsPart [] (b ∷ buf) h = absurd (omega arith)
write_all-SendsPart (write_failed ∷ answers) (b ∷ buf) h = (_, refl, (0, refl, λ e. absurd (cc)))
write_all-SendsPart (wrote rv ∷ answers) (b ∷ buf) (fits, more) = elim (Bool-cases (rv == 0)) [
  | inl none_taken ↦
      (record { sent = []; done = false }, rw none_taken, (0, refl, λ e. absurd (cc)))
  | inr some_taken ↦
      let cover : CoversWrite answers (length (drop rv (b ∷ buf))) =
        rw (length-drop rv (b ∷ buf)) (covers_rest answers rv (length (b ∷ buf)) some_taken more) in
      let (r, run, (k, part, whole)) = write_all-SendsPart answers (drop rv (b ∷ buf)) cover in
      let ahead : leb rv (length (b ∷ buf)) ≡ true = ground arith in
      (
        record r { sent = take rv (b ∷ buf) ++ r.sent },
        rw (some_taken, ahead, run),
        (
          rv + k,
          ap (λ l. take rv (b ∷ buf) ++ l) part ∙ sym (take-add rv k (b ∷ buf)),
          λ d. ap (λ l. take rv (b ∷ buf) ++ l) (whole d) ∙ take-append-drop rv (b ∷ buf),
        ),
      )
]

-- Chunks that fill the buffer, as one `read` after the other delivers them, and the answers left.
abbrev pub Delivers : List Read → ℕ → List ℕ → List Read → Type 0
Delivers [] n bytes left = (n ≡ 0) × (bytes ≡ []) × (left ≡ [])
Delivers (read_failed ∷ answers) n bytes left =
    (n ≡ 0) × (bytes ≡ []) × (left ≡ read_failed ∷ answers)
Delivers (got chunk ∷ answers) n bytes left =
    ((n ≡ 0) × (bytes ≡ []) × (left ≡ got chunk ∷ answers))
    ⊎ ((0 < length chunk)
        × (length chunk ≤ n)
        × ((rest : List ℕ) × (bytes ≡ chunk ++ rest)
            × Delivers answers (n - length chunk) rest left))

read_nothing :
    (answers : List Read) (bytes : List ℕ) (left : List Read) (n : ℕ)
    → n ≡ 0
    → bytes ≡ []
    → left ≡ answers
    → read_full answers n ≡ ok (record { bytes = bytes; complete = true; left = left })
unfolding read_full
read_nothing answers bytes left zero e b l = rw (b, l)
read_nothing answers bytes left (suc n) e b l = absurd (omega arith)

-- If the answers of `read` are chunks, none of them empty, that fill the `n` bytes exactly,
-- then `read_full` returns 0 with the chunks one behind the other, and has used up no answer
-- beyond them.
pub read_full-Delivers :
    (answers : List Read) (n : ℕ) (bytes : List ℕ) (left : List Read)
    → Delivers answers n bytes left
    → read_full answers n ≡ ok (record { bytes = bytes; complete = true; left = left })
unfolding read_full
read_full-Delivers [] n bytes left (e, b, l) = read_nothing [] bytes left n e b l
read_full-Delivers (read_failed ∷ answers) n bytes left (e, b, l) =
    read_nothing (read_failed ∷ answers) bytes left n e b l
read_full-Delivers (got chunk ∷ answers) n bytes left (inl (e, b, l)) =
    read_nothing (got chunk ∷ answers) bytes left n e b l
read_full-Delivers (got chunk ∷ answers) zero bytes left (inr (pos, fits, more)) =
    absurd (omega arith)
read_full-Delivers (got chunk ∷ answers) (suc n) bytes left (inr (pos, fits, (rest, e, more))) =
    let run = read_full-Delivers answers (suc n - length chunk) rest left more in
    let some_read : (length chunk == 0) ≡ false = ground arith in
    let ahead : leb (length chunk) (suc n) ≡ true = ground arith in rw (some_read, ahead, run, e)
