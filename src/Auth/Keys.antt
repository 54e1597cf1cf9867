-- ===== src/Auth/Keys.antt =====
-- The API keys: `CheckInvariant` of waha-plus/src/core/storage/IApiKeyRepository.ts,
-- plus/storage/mongo/MongoApiKeyRepository.ts and the handlers of api/apikeys.controller.ts.
pub mod Validity
pub mod Creation
use aira_relay.Base.{
  ℕ, zero, suc, Bool, true, false, not, ◌&&◌, if◌then◌else◌, Option, none, some, is_some, List, [],
  ◌∷◌, Text, text_eq, ◌≡◌,
}
use aira_relay.Base.Results.{
  Error, not_found, unprocessable, internal, Result, ok, err, M, ◌>>=◌, ◌>>◌, pure, throw, gets,
  require, when,
}
use aira_relay.Auth.{ApiKey, is_truthy}

-- The collection `api_key` with its two unique indexes, on `id` and `key`. `replace_one` is
-- `replaceOne({id}, key, {upsert: true})`; it throws, which is `none`, when another document has the
-- key already.
pub record KeyCollection : Type 1 where
  pub Docs : Type 0
  pub find_by_id : Docs → Text → Option ApiKey
  pub find_by_key : Docs → Text → Option ApiKey
  pub replace_one : Docs → ApiKey → Option Docs
  pub delete_by_id : Docs → Text → Docs
  pub find_by_id-replace_one :
      (d : Docs) (k : ApiKey) (e : Docs) (j : Text)
      → replace_one d k ≡ some e
      → find_by_id e j ≡ (if text_eq k.id j then some k else find_by_id d j)
  pub find_by_id-delete :
      (d : Docs) (i j : Text)
      → find_by_id (delete_by_id d i) j ≡ (if text_eq i j then none else find_by_id d j)
  pub replace_one-free :
      (d : Docs) (k : ApiKey) → find_by_key d k.key ≡ none → is_some (replace_one d k) ≡ true

-- `CheckInvariant`: a key is for all sessions or for one.
unfoldable pub check_invariant : (is_admin : Bool) → Option Text → Bool
check_invariant is_admin session =
    if is_admin && is_truthy session
    then false
    else if not is_admin && not (is_truthy session)
    then false
    else true

-- `ApiKeyRequest`.
pub record ApiKeyRequest : Type 0 where
  pub is_active : Bool
  pub is_admin : Bool
  pub session : Option Text

-- `getActiveByKey`.
abbrev pub active : Option ApiKey → Option ApiKey
active none = none
active (some k) = if k.is_active then some k else none

module _ (keys : KeyCollection) where
  unfoldable pub get_active_by_key : keys.Docs → Text → Option ApiKey
  get_active_by_key d key = active (keys.find_by_key d key)

  -- The i-th generated id and key.
  module _ (generated : ℕ → Text × Text) (body : ApiKeyRequest) where
    unfoldable pub candidate : ℕ → ApiKey
    candidate i = record {
      id = (generated i).0;
      key = (generated i).1;
      is_active = body.is_active;
      is_admin = body.is_admin;
      session = body.session;
    }

    unfoldable pub is_taken : keys.Docs → ApiKey → Bool
    is_taken d k =
        if is_some (keys.find_by_id d k.id) then true else is_some (keys.find_by_key d k.key)

    -- The loop of `create`: `left` rounds from the i-th on, and the key of the round before.
    unfoldable pub try_keys : keys.Docs → (left i : ℕ) → Option ApiKey → Option ApiKey
    unfolding candidate is_taken
    try_keys d zero i apikey = apikey
    try_keys d (suc left) i apikey =
        let again = try_keys d left (suc i) (some (candidate i)) in
        if is_taken d (candidate i) then again else some (candidate i)

  -- The controller on the manager's state `S` and the keys; `exists` is the manager's.
  module _ {S : Type 0} (exists : Text → M S Bool) where
    abbrev pub in_manager : {A : Type 0} → M S A → M (S × keys.Docs) A
    in_manager m (s, d) = (((m s).0, d), (m s).1)

    -- The check of a session that the request names.
    unfoldable pub check_session : Option Text → M (S × keys.Docs) (Unit {0})
    check_session none = pure tt
    check_session (some []) = pure tt
    check_session (some (c ∷ name)) = do
      found ← in_manager (exists (c ∷ name))
      require found unprocessable

    unfoldable pub store : ApiKey → M (S × keys.Docs) ApiKey
    store k (s, d) = elim (keys.replace_one d k) [
      | none ↦ ((s, d), err internal)
      | some e ↦ ((s, e), ok k)
    ]

    -- The end of `create`.
    unfoldable pub store_picked : Option ApiKey → M (S × keys.Docs) ApiKey
    store_picked none = throw unprocessable
    store_picked (some k) = do require (check_invariant k.is_admin k.session) unprocessable; store k

    unfoldable pub create_key : (ℕ → Text × Text) → ApiKeyRequest → M (S × keys.Docs) ApiKey
    create_key generated body = do
      require (check_invariant body.is_admin body.session) unprocessable
      check_session body.session
      picked ← gets (λ w. try_keys generated body w.1 5 0 none)
      store_picked picked

    abbrev pub updated : ApiKeyRequest → ApiKey → ApiKey
    updated body old = record old {
      is_active = body.is_active;
      is_admin = body.is_admin;
      session = body.session;
    }

    -- `update`, of the key that it finds.
    unfoldable pub update_found : ApiKeyRequest → Option ApiKey → M (S × keys.Docs) ApiKey
    update_found body none = throw not_found
    update_found body (some old) =
        let k = updated body old in
        do
          require (check_invariant k.is_admin k.session) unprocessable
          check_session k.session
          require (check_invariant k.is_admin k.session) unprocessable
          store k

    unfoldable pub update_key : Text → ApiKeyRequest → M (S × keys.Docs) ApiKey
    update_key id body = do
      existing ← gets (λ w. keys.find_by_id w.1 id)
      update_found body existing

    unfoldable pub delete_key : Text → M (S × keys.Docs) (Unit {0})
    delete_key id (s, d) =
        if is_some (keys.find_by_id d id)
        then ((s, keys.delete_by_id d id), ok tt)
        else ((s, d), err not_found)
