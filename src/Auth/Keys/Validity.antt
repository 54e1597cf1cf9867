-- ===== src/Auth/Keys/Validity.antt =====
-- What the handlers of waha-plus/src/api/apikeys.controller.ts keep of the API keys.
use aira_relay.Base.{ℕ, Bool, true, not, if◌then◌else◌, none, some, ◌∷◌, Text, ◌≡◌, arith}
use aira_relay.Base.Results.{M}
use aira_relay.Auth.{ApiKey, is_truthy, get_user}
use aira_relay.Auth.Keys.{KeyCollection, check_invariant, get_active_by_key}

abbrev pub IsValid : ApiKey → Type 0
IsValid k = check_invariant k.is_admin k.session ≡ true

module _ (keys : KeyCollection) where
  abbrev pub AllValid : keys.Docs → Type 0
  AllValid d = (i : Text) (k : ApiKey) → keys.find_by_id d i ≡ some k → IsValid k

  module _ {S : Type 0} (exists : Text → M S Bool) where
    -- What keeps all keys valid.
    abbrev Keeps : {A : Type 0} → M (S × keys.Docs) A → Type 0
    Keeps m = (w : S × keys.Docs) → AllValid w.1 → AllValid (m w).0.1

  -- A request with a key that is stored stands for a user exactly if the key is active; the user has
  -- the rights of the key, and is for all sessions or for exactly one.
  pub api_key_user :
      (d : keys.Docs) (c : ℕ) (rest : Text) (k : ApiKey)
      → AllValid d
      → keys.find_by_key d (c ∷ rest) ≡ some k
      → keys.find_by_id d k.id ≡ some k
      → (get_user (get_active_by_key keys d) (some (c ∷ rest)) ≡ (
          if k.is_active
          then some (record { is_admin = k.is_admin; session = k.session })
          else none))
        × (k.is_admin ≡ not (is_truthy k.session))
  unfolding get_user get_active_by_key check_invariant
  api_key_user d c rest k h f g = let v = h k.id k g in (ground arith, ground arith)
