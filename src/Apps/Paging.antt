-- ===== src/Apps/Paging.antt =====
-- `ArrayPaginator` of waha-plus/src/apps/app_sdk/waha/Paginator.ts: records of an API that answers pages
-- with an offset, one by one up to a maximum.
use aira_relay.Base.{
  ℕ, zero, suc, Bool, true, false, if◌then◌else◌, leb, Option, none, some, List, [], ◌∷◌, ◌++◌,
}
use mathlib.Core.Option

-- `processed >= max`; `none` is infinity.
abbrev pub reached : Option ℕ → ℕ → Bool
reached none processed = false
reached (some max) processed = leb max processed

-- What the loop over one page leaves: the records it yielded, the number of all processed, and whether
-- the maximum was reached.
pub record Page {ℓ} (A : Type ℓ) : Type ℓ where
  pub yielded : List A
  pub processed : ℕ
  pub stopped : Bool

module _ {ℓ} {A : Type ℓ} (max : Option ℕ) where
  abbrev pub yield : A → Page A → Page A
  yield r page = record page { yielded = r ∷ page.yielded }

  unfoldable pub yield_each : ℕ → List A → Page A
  yield_each processed [] = record { yielded = []; processed = processed; stopped = false }
  yield_each processed (r ∷ rs) =
      let rest = yield_each (suc processed) rs in
      if reached max (suc processed)
      then record { yielded = r ∷ []; processed = suc processed; stopped = true }
      else yield r rest

  -- `call` answers the page from an offset.
  module _ (call : ℕ → List A) where
    abbrev pub next_page : List A → Page A → Option (List A) → Option (List A)
    next_page [] page rest = some []
    next_page (r ∷ rs) page rest =
        if page.stopped then some page.yielded else Option.map (λ later. page.yielded ++ later) rest

    -- `none` where the fuel, one call each, is used up.
    unfoldable pub iterate : (fuel processed : ℕ) → Option (List A)
    unfolding yield_each
    iterate zero processed = none
    iterate (suc fuel) processed =
        let page = yield_each processed (call processed) in
        let rest = iterate fuel page.processed in next_page (call processed) page rest
