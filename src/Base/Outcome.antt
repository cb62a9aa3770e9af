-- ===== src/Base/Outcome.antt =====
-- How a call ends. `abort` is a failed `assert`, `fault` undefined behaviour (a null or stray
-- pointer), and `out_of_fuel` a loop of the model that was not given enough rounds.
use mathlib.Core.Path.{◌≡◌, refl}
use mathlib.Core.Bool.{Bool, true, false}
use mathlib.Core.Option.{Option, none, some}
use redis_c.Base.Tests.{if◌then◌else◌}

pub data Run {ℓ} (A : Type ℓ) : Type ℓ where
  ok : A → Run A
  abort fault out_of_fuel : Run A

-- reading through a pointer that may be null or stray
abbrev pub deref {ℓ} : {A : Type ℓ} → Option A → Run A
deref none = fault
deref (some target) = ok target

-- `assert(holds)`
abbrev pub assert : Bool → Run (Unit {0})
assert false = abort
assert true = ok tt

infixl 5 ◌>>=◌ ◌>>◌
abbrev pub ◌>>=◌ {ℓ κ} : {A : Type ℓ} {B : Type κ} → Run A → (A → Run B) → Run B
fault >>= next = fault
abort >>= next = abort
out_of_fuel >>= next = out_of_fuel
ok result >>= next = next result

abbrev pub ◌>>◌ {ℓ} : {B : Type ℓ} → Run (Unit {0}) → Run B → Run B
before >> after = before >>= λ _. after

-- the run ends normally, in a value that satisfies `P`
abbrev pub Returns {ℓ κ} : {A : Type ℓ} → Run A → (A → Type κ) → Type (ℓ ⊔ κ)
Returns {A} call P = (result : A) × (call ≡ ok result) × P result

pub deref-inv {ℓ} : {A : Type ℓ} (o : Option A) {a : A} → deref o ≡ ok a → o ≡ some a
deref-inv none h = cc
deref-inv (some b) h = cc

-- the parts of a chain of calls that ends normally
pub >>=-eq-ok {ℓ κ} :
    {A : Type ℓ} {B : Type κ} (call : Run A) (next : A → Run B) {out : B}
    → (call >>= next) ≡ ok out
    → (result : A) × (call ≡ ok result) × (next result ≡ ok out)
>>=-eq-ok fault next e = cc
>>=-eq-ok abort next e = cc
>>=-eq-ok out_of_fuel next e = cc
>>=-eq-ok (ok result) next e = (result, refl, e)

pub bind_assoc {ℓ} :
    {A B C : Type ℓ} (m : Run A) (f : A → Run B) (g : B → Run C)
    → (m >>= λ a. f a >>= g) ≡ (m >>= f >>= g)
bind_assoc (ok a) f g = refl
bind_assoc abort f g = refl
bind_assoc fault f g = refl
bind_assoc out_of_fuel f g = refl

pub Returns-if {ℓ κ} :
    {A : Type ℓ} (b : Bool) (x y : Run A) (P : A → Type κ)
    → Returns x P
    → Returns y P
    → Returns (if b then x else y) P
Returns-if true x y P h k = h
Returns-if false x y P h k = k
