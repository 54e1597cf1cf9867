-- ===== src/Auth.antt =====
-- Authentication and authorisation of API requests: waha-plus/src/core/auth and
-- waha-plus/src/api/apikeys.controller.ts. This file is auth.ts, ApiKeyAuthFactory.ts,
-- ApiKeyService.ts and apiKey.strategy.ts; the children are the abilities and policies, and the API
-- keys.
pub mod Abilities
pub mod Access
pub mod Keys
pub mod Tests
use aira_relay.Base.{
  ℕ, Bool, true, false, not, ◌&&◌, ◌||◌, if◌then◌else◌, Option, none, some, List, [], ◌∷◌, Text,
  codes, text_eq, drop,
}
use aira_relay.Manager.Settings.{starts_with}

-- A string that JavaScript takes for true.
abbrev pub is_truthy : Option Text → Bool
is_truthy none = false
is_truthy (some []) = false
is_truthy (some (_ ∷ _)) = true

-- `ApiKey` of core/storage/IApiKeyRepository.ts; `rules` is always null.
pub record ApiKey : Type 0 where
  pub id : Text
  pub key : Text
  pub is_active : Bool
  pub is_admin : Bool
  pub session : Option Text

-- `User`.
pub record User : Type 0 where
  pub is_admin : Bool
  pub session : Option Text

abbrev pub admin_user : User
admin_user = record { is_admin = true; session = none }

-- The implementations of `IApiKeyAuth`; the algorithm of the only hash is SHA-512.
pub data ApiKeyAuth : Type 0 where
  no_auth : ApiKeyAuth
  plain_api_key_auth : (key : Text) → ApiKeyAuth
  hash_auth : (hash : Text) → ApiKeyAuth

-- `ApiKeyService.get`, with the repository's `getActiveByKey`.
unfoldable pub get_user : (Text → Option ApiKey) → Option Text → Option User
get_user get_active_by_key none = none
get_user get_active_by_key (some apikey) =
    if not (is_truthy (some apikey)) then none else elim (get_active_by_key apikey) [
      | none ↦ none
      | some key ↦ some (record { is_admin = key.is_admin; session = key.session })
    ]

-- `utf8` is `Buffer.from`, of which `timingSafeEqual` compares the bytes; `sha512` is the digest in
-- hexadecimal.
module _ (utf8 sha512 : Text → Text) where
  unfoldable pub compare : Option Text → Option Text → Bool
  compare provided stored =
      if not (is_truthy stored) || not (is_truthy provided) then false else elim provided [
        | none ↦ false
        | some p ↦ elim stored [ none ↦ false | some s ↦ text_eq (utf8 p) (utf8 s) ]
      ]

  unfoldable pub is_valid : ApiKeyAuth → Option Text → Bool
  unfolding compare
  is_valid no_auth plain = true
  is_valid (plain_api_key_auth key) plain = compare plain (some key)
  is_valid (hash_auth hash) none = false
  is_valid (hash_auth hash) (some plain) =
      if not (is_truthy (some plain)) then false else compare (some (sha512 plain)) (some hash)

  -- `ApiKeyStrategy.user`.
  unfoldable pub user : ApiKeyAuth → (Text → Option ApiKey) → Option Text → Option User
  unfolding is_valid get_user
  user auth get_active_by_key apikey =
      if is_valid auth apikey then some admin_user else get_user get_active_by_key apikey

-- `ApiKeyAuthFactory`, of the configured key.
unfoldable pub api_key_auth_factory : Option Text → ApiKeyAuth
api_key_auth_factory none = no_auth
api_key_auth_factory (some key) =
    if not (is_truthy (some key))
    then no_auth
    else if starts_with key (codes "sha512:")
    then hash_auth (drop 7 key)
    else plain_api_key_auth key
