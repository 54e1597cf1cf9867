-- ===== src/Apps/Paged.antt =====
-- The paginator ends, with the records that the API has from the offset up to the maximum.
use aira_relay.Base.{
  ℕ, zero, suc, ◌+◌, ◌-◌, ◌≤◌, ◌<◌, true, false, if◌then◌else◌, leb, Option, none, some, List, [],
  ◌∷◌, ◌++◌, length, take, drop, length-drop, ◌≡◌, refl, ap, sym, ◌∙◌, arith, inl, inr, Bool-cases,
}
use aira_relay.Apps.Paging.{reached, Page, yield, yield_each, next_page, iterate}

-- The maximum is not reached yet.
abbrev pub IsOpen : Option ℕ → ℕ → Type 0
IsOpen max processed = reached max processed ≡ false

open_lem : (max p : ℕ) → leb max p ≡ false → suc p ≤ max
open_lem max p h = ground (arith, h)

closed_lem : (max p : ℕ) → leb max p ≡ true → max ≤ p
closed_lem max p h = ground (arith, h)

module _ {ℓ} {A : Type ℓ} where
  -- What is left to yield: up to the maximum.
  abbrev pub up_to : Option ℕ → ℕ → List A → List A
  up_to none processed xs = xs
  up_to (some max) processed xs = take (max - processed) xs

  take_more : (n m : ℕ) (x : A) (xs : List A) → n ≡ suc m → take n (x ∷ xs) ≡ x ∷ take m xs
  take_more n m x xs e = rw (e) refl

  up_to-cons :
      (max : Option ℕ) (p : ℕ) (x : A) (xs : List A)
      → IsOpen max p
      → up_to max p (x ∷ xs) ≡ x ∷ up_to max (suc p) xs
  up_to-cons none p x xs h = refl
  up_to-cons (some max) p x xs h =
      take_more (max - p) (max - suc p) x xs (omega (arith, open_lem max p h))

  take_none : (n : ℕ) (xs : List A) → n ≡ 0 → take n xs ≡ []
  take_none n xs e = rw (e) refl

  take-empty : (n : ℕ) → take {A = A} n [] ≡ []
  take-empty zero = refl
  take-empty (suc n) = refl

  up_to-empty : (max : Option ℕ) (p : ℕ) → up_to max p [] ≡ []
  up_to-empty none p = refl
  up_to-empty (some max) p = take-empty (max - p)

  drop_at : (k l : ℕ) (xs : List A) → k ≡ l → drop k xs ≡ drop l xs
  drop_at k l xs e = rw (e) refl

  drop-drop : (n m : ℕ) (xs : List A) → drop (n + m) xs ≡ drop m (drop n xs)
  drop-drop zero m xs = drop_at (zero + m) m xs (omega arith)
  drop-drop (suc n) zero [] = drop_at (suc n + zero) (suc (n + zero)) [] (omega arith)
  drop-drop (suc n) (suc m) [] = drop_at (suc n + suc m) (suc (n + suc m)) [] (omega arith)
  drop-drop (suc n) m (x ∷ xs) =
      drop_at (suc n + m) (suc (n + m)) (x ∷ xs) (omega arith) ∙ drop-drop n m xs

  up_to-reached :
      (max : Option ℕ) (p : ℕ) (xs : List A) → reached max p ≡ true → up_to max p xs ≡ []
  up_to-reached (some max) p xs h = take_none (max - p) xs (omega (arith, closed_lem max p h))
  up_to-reached none p xs h = absurd (ground (arith, h))

  -- What a page yields, followed by what comes after it unless it stopped.
  abbrev pub followed : Page A → List A → List A
  followed page later = if page.stopped then page.yielded else page.yielded ++ later

  followed-yield :
      (max : Option ℕ) (x : A) (page : Page A) (later : List A)
      → followed (yield max x page) later ≡ x ∷ followed page later
  followed-yield max x page later = ground (arith, Bool-cases page.stopped)

  -- The records of a page, followed by what is left after it, are what was left before it.
  joined :
      (max : Option ℕ) (p size : ℕ) (xs : List A)
      → IsOpen max p
      → (let page = yield_each max p (take size xs) in
          followed page (up_to max page.processed (drop (length (take size xs)) xs)))
        ≡ up_to max p xs
  unfolding yield_each
  joined max p zero xs h = refl
  joined max p (suc size) [] h = refl
  joined max p (suc size) (x ∷ xs) h = elim (Bool-cases (reached max (suc p))) [
    | inl e ↦
        rw (e) (sym (up_to-cons max p x xs h ∙ ap (λ l. x ∷ l) (up_to-reached max (suc p) xs e)))
    | inr e ↦ rw (e) (
        followed-yield max x (yield_each max (suc p) (take size xs)) (
          up_to max (yield_each max (suc p) (take size xs)).processed
            (drop (length (take size xs)) xs))
        ∙ (ap (λ l. x ∷ l) (joined max (suc p) size xs e) ∙ sym (up_to-cons max p x xs h)))
  ]

  -- A page that did not stop was processed to its end, before the maximum.
  processed_lem :
      (max : Option ℕ) (p : ℕ) (rs : List A)
      → IsOpen max p
      → (yield_each max p rs).stopped ≡ false
      → ((yield_each max p rs).processed ≡ p + length rs)
        × IsOpen max (yield_each max p rs).processed
  unfolding yield_each
  processed_lem max p [] h k = (omega arith, h)
  processed_lem max p (r ∷ rs) h k =
      ground (arith, k, processed_lem max (suc p) rs, Bool-cases (reached max (suc p)))

  next_lem :
      (max : Option ℕ) (call : ℕ → List A) (r : A) (rs : List A) (page : Page A)
      (rest : Option (List A)) (later : List A)
      → (page.stopped ≡ false → rest ≡ some later)
      → next_page max call (r ∷ rs) page rest ≡ some (followed page later)
  next_lem max call r rs page rest later h = ground (arith, h, Bool-cases page.stopped)

  -- The API answers the records from an offset, up to the size of a page.
  module _ (max : Option ℕ) (call : ℕ → List A) (size : ℕ) (xs : List A)
      (answers : (p : ℕ) → call p ≡ take (suc size) (drop p xs)) where
    -- The paginator does its work from any open offset with the fuel.
    abbrev pub IsEnough : ℕ → Type ℓ
    IsEnough fuel =
        (p : ℕ)
        → IsOpen max p
        → length (drop p xs) < fuel
        → iterate max call fuel p ≡ some (up_to max p (drop p xs))

    rest_lem :
        (fuel p q n : ℕ) (y : A) (ys : List A)
        → drop p xs ≡ y ∷ ys
        → q ≡ p + suc n
        → IsOpen max q
        → IsEnough fuel
        → length (y ∷ ys) ≤ fuel
        → iterate max call fuel q ≡ some (up_to max q (drop n ys))
    rest_lem fuel p q n y ys e f h ih k =
        let d : drop q xs ≡ drop n ys =
          drop_at q (p + suc n) xs f ∙ (drop-drop p (suc n) xs ∙ ap (λ l. drop (suc n) l) e) in
        ih q h (rw (d) (omega (arith, k, length-drop n ys))) ∙ ap (λ l. some (up_to max q l)) d

    page_lem :
        (fuel p : ℕ) (y : A) (ys : List A)
        → drop p xs ≡ y ∷ ys
        → IsOpen max p
        → IsEnough fuel
        → length (y ∷ ys) ≤ fuel
        → iterate max call (suc fuel) p ≡ some (up_to max p (y ∷ ys))
    unfolding iterate
    page_lem fuel p y ys e h ih k =
        let rs = y ∷ take size ys in
        let page = yield_each max p rs in
        let later = up_to max page.processed (drop (length rs) (y ∷ ys)) in
        rw (answers p, e)
          (next_lem max call y (take size ys) page (iterate max call fuel page.processed) later
              (λ u.
                let done = processed_lem max p rs h u in
                rest_lem fuel p page.processed (length (take size ys)) y ys e done.0 done.1 ih k)
            ∙ ap some (joined max p (suc size) (y ∷ ys) h))

    step_lem :
        (fuel p : ℕ) (ys : List A)
        → drop p xs ≡ ys
        → IsOpen max p
        → IsEnough fuel
        → length ys ≤ fuel
        → iterate max call (suc fuel) p ≡ some (up_to max p ys)
    unfolding iterate
    step_lem fuel p [] e h ih k = rw (answers p, e) (sym (ap some (up_to-empty max p)))
    step_lem fuel p (y ∷ ys) e h ih k = page_lem fuel p y ys e h ih k

    -- From an offset below the maximum, the paginator ends within one call more than there are records from
    -- there, with these records in their order, up to the maximum, if there is one. The API answers a page of
    -- the records from the offset that it is asked for, of at least one where there is one.
    pub iterate_lem :
        (fuel p : ℕ)
        → IsOpen max p
        → length (drop p xs) < fuel
        → iterate max call fuel p ≡ some (up_to max p (drop p xs))
    iterate_lem zero p h k = absurd (omega (arith, k))
    iterate_lem (suc fuel) p h k =
        step_lem fuel p (drop p xs) refl h (iterate_lem fuel) (omega (arith, k))
