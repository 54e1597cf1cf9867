-- ===== src/Auth/Access.antt =====
-- Who may do what: the key of a request, the user that it stands for and the guard of the route.
use aira_relay.Base.{
  ℕ, Bool, true, false, ◌&&◌, ◌||◌, if◌then◌else◌, Option, none, some, List, [], ◌∷◌, Text, text_eq,
  all, any, filter, ◌≡◌, refl, ◌∙◌, arith, ◌⊎◌,
}
use mathlib.Core.Option
use aira_relay.Base.Results.{forbidden, ok, err}
use aira_relay.Auth.{is_truthy, User, plain_api_key_auth, hash_auth, compare, is_valid}
use aira_relay.Auth.Abilities.{
  Action, manage, list, read, create, delete, use_session, action_eq, session_named, session_kind,
  server_kind, matches, Casl, admin_rules, session_rules, create_for_user, is_space,
  require_session_name, filter_sessions, can_session_kind, can_session, can_server, every,
  can_activate,
}

-- A key is accepted as the configured one exactly if neither is empty and their bytes are the same; a
-- configured hash accepts exactly the non-empty keys whose digest has its bytes.
pub is_valid_iff :
    (utf8 sha512 : Text → Text) (stored key : Text)
    → (is_valid utf8 sha512 (plain_api_key_auth stored) (some key)
        ≡ (is_truthy (some stored) && is_truthy (some key) && text_eq (utf8 key) (utf8 stored)))
      × (is_valid utf8 sha512 (hash_auth stored) (some key) ≡ (
          is_truthy (some key)
          && is_truthy (some stored)
          && is_truthy (some (sha512 key))
          && text_eq (utf8 (sha512 key)) (utf8 stored)))
      × (is_valid utf8 sha512 (plain_api_key_auth stored) none ≡ false)
      × (is_valid utf8 sha512 (hash_auth stored) none ≡ false)
unfolding is_valid compare
is_valid_iff utf8 sha512 stored key = (ground arith, ground arith, ground arith, refl)

-- What the actions of a session's own key are.
abbrev pub own_action : Action → Bool
own_action a = action_eq read a || action_eq use_session a

any-session_rules :
    (name : Text) (a : Action) (m : Text)
    → any (matches a (session_named m)) (session_rules name)
      ≡ (action_eq list a || (own_action a && text_eq m name))
unfolding session_rules
any-session_rules name manage m = ground arith
any-session_rules name list m = ground arith
any-session_rules name read m = ground arith
any-session_rules name create m = ground arith
any-session_rules name delete m = ground arith
any-session_rules name use_session m = ground arith

module _ (casl : Casl) where
  can-session_rules :
      (name : Text) (a : Action) (m : Text)
      → casl.can (session_rules name) a (session_named m)
        ≡ (action_eq list a || (own_action a && text_eq m name))
  can-session_rules name a m =
      casl.can_rules (session_rules name) a (session_named m) ∙ any-session_rules name a m

  -- A request with the key of a session, through the policies of a route, where the session of the key
  -- has a name and the name that the route asks for is not blank: the key may read and use its own
  -- session and no other, it may list sessions, and it may neither create nor delete one, nor manage
  -- the server.
  pub session_user_access :
      (c : ℕ) (rest m : Text) (a : Action)
      → all is_space m ≡ false
      → let name = c ∷ rest in
        let u : Option User = some (record { is_admin = false; session = some name }) in
        (can_activate (can_session casl a (some m) ∷ []) u ≡ (
          if action_eq list a || (own_action a && text_eq m name) then ok true else err forbidden))
        × (can_activate (can_server casl manage ∷ []) u ≡ err forbidden)
        × (can_activate (can_session_kind casl create ∷ []) u ≡ err forbidden)
        × (can_activate (can_session_kind casl list ∷ []) u ≡ ok true)
  unfolding can_activate every create_for_user can_session can_server can_session_kind
      require_session_name session_rules
  session_user_access c rest m a h =
      let rs = session_rules (c ∷ rest) in
      (
        ground (arith, can-session_rules (c ∷ rest) a m),
        ground (arith, casl.can_rules rs manage server_kind),
        ground (arith, casl.can_rules rs create session_kind),
        ground (arith, casl.can_rules rs list session_kind),
      )

  -- The list of sessions that the key of a session with a name gets holds its own session alone, as
  -- often as it is there.
  pub filter_sessions_own :
      (c : ℕ) (rest : Text) (names : List Text)
      → filter_sessions casl
          (create_for_user (some (record { is_admin = false; session = some (c ∷ rest) })))
          read
          names
        ≡ filter (λ n. text_eq n (c ∷ rest)) names
  unfolding filter_sessions create_for_user
  filter_sessions_own c rest [] = refl
  filter_sessions_own c rest (n ∷ names) =
      ground (arith, filter_sessions_own c rest names, can-session_rules (c ∷ rest) read n)

  -- An administrator, and a request of a route without authentication, passes every policy that names
  -- a session or none, for every action.
  pub admin_access :
      (u : Option User) (m : Text) (a : Action)
      → (u ≡ none) ⊎ (Option.map (λ v. v.is_admin) u ≡ some true)
      → all is_space m ≡ false
      → (can_activate (can_session casl a (some m) ∷ []) u ≡ ok true)
        × (can_activate (can_session_kind casl a ∷ []) u ≡ ok true)
        × (can_activate (can_server casl a ∷ []) u ≡ ok true)
  unfolding can_activate every create_for_user can_session can_server can_session_kind
      require_session_name admin_rules
  admin_access none m a o h = (
    ground (arith, casl.can_rules admin_rules a (session_named m)),
    ground (arith, casl.can_rules admin_rules a session_kind),
    ground (arith, casl.can_rules admin_rules a server_kind),
  )
  admin_access (some u) m a o h = (
    ground (arith, casl.can_rules admin_rules a (session_named m)),
    ground (arith, casl.can_rules admin_rules a session_kind),
    ground (arith, casl.can_rules admin_rules a server_kind),
  )
