-- ===== src/Base/Keeping.antt =====
-- Rules for what an action leaves and answers, one for each way to build an action; what it leaves
-- where it throws is covered too.
use mathlib.Core.Bool.{Bool, true, false}
use mathlib.Core.Path.{◌≡◌, refl}
use aira_relay.Base.Results.{Error, Result, ok, err, M, ◌>>=◌, ◌>>◌, require, when}

module _ {S : Type 0} {A B : Type 0} (P : S × Result B → Type 0) (R : S × Result A → Type 0) where
  after :
      (f : A → M S B) (r : Result A) (u : S)
      → R (u, r)
      → ((e : Error) (v : S) → R (v, err e) → P (v, err e))
      → ((a : A) (v : S) → R (v, ok a) → P (f a v))
      → P (elim r as (λ _. S × Result B) [ ok a ↦ f a u | err e ↦ (u, err e) ])
  after f (ok a) u h stop go = go a u h
  after f (err e) u h stop go = stop e u h

  -- `m` leaves and answers what satisfies `R`; then `P` holds where the block stops there, and of what
  -- the rest of it leaves and answers.
  pub through :
      (m : M S A) (f : A → M S B) (s : S)
      → R (m s)
      → ((e : Error) (v : S) → R (v, err e) → P (v, err e))
      → ((a : A) (v : S) → R (v, ok a) → P (f a v))
      → P ((m >>= f) s)
  through m f s h stop go = after f (m s).1 (m s).0 h stop go

module _ {S A : Type 0} (P : S × Result A → Type 0) where
  pub require_then :
      (b : Bool) (e : Error) (m : M S A) (s : S)
      → P (s, err e)
      → (b ≡ true → P (m s))
      → P ((require b e >> m) s)
  require_then true e m s h k = k refl
  require_then false e m s h k = h

module _ {S : Type 0} (P : S × Result (Unit {0}) → Type 0) where
  pub when_then :
      (b : Bool) (m : M S (Unit {0})) (s : S)
      → (b ≡ false → P (s, ok tt))
      → (b ≡ true → P (m s))
      → P (when b m s)
  when_then true m s h k = k refl
  when_then false m s h k = h refl
