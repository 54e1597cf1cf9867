-- ===== src/Base/Results.antt =====
-- Exceptions as values, and code that changes a state and may throw: what was changed before the
-- exception stays changed.
use mathlib.Core.Bool.{Bool, true, false}

-- The HTTP exceptions of the controllers, and any other error, of a collaborator.
pub data Error : Type 0 where
  not_found unprocessable bad_request unauthorized forbidden internal : Error

pub data Result {ℓ} (A : Type ℓ) : Type ℓ where
  ok : A → Result A
  err : Error → Result A

abbrev pub is_ok {ℓ} : {A : Type ℓ} → Result A → Bool
is_ok (ok a) = true
is_ok (err e) = false

abbrev pub M : Type 0 → Type 0 → Type 0
M S A = S → S × Result A

infixl 5 ◌>>=◌ ◌>>◌
abbrev pub ◌>>=◌ : {S A B : Type 0} → M S A → (A → M S B) → M S B
◌>>=◌ m f s = let r = m s in elim r.1 [ ok a ↦ f a r.0 | err e ↦ (r.0, err e) ]

abbrev pub ◌>>◌ : {S A B : Type 0} → M S A → M S B → M S B
m >> k = m >>= λ _. k

abbrev pub pure : {S A : Type 0} → A → M S A
pure a s = (s, ok a)

abbrev pub throw : {S A : Type 0} → Error → M S A
throw e s = (s, err e)

abbrev pub modify : {S : Type 0} → (S → S) → M S (Unit {0})
modify f s = (f s, ok tt)

abbrev pub gets : {S A : Type 0} → (S → A) → M S A
gets f s = (s, ok (f s))

abbrev pub require : {S : Type 0} → Bool → Error → M S (Unit {0})
require true e = pure tt
require false e = throw e

abbrev pub when : {S : Type 0} → Bool → M S (Unit {0}) → M S (Unit {0})
when true m = m
when false m = pure tt

-- `.catch` with a handler that only logs.
abbrev pub attempt : {S A : Type 0} → M S A → M S (Unit {0})
attempt m s = ((m s).0, ok tt)
