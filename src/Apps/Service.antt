-- ===== src/Apps/Service.antt =====
-- waha-plus/src/apps/app_sdk/services/AppsEnabledService.ts, with the services of the apps that it
-- calls: apps/calls/services/CallsAppService.ts, whose hooks do nothing that can fail, and the Chatwoot
-- service, whose answers are given.
use aira_relay.Base.{
  ℕ, suc, Bool, true, false, not, ◌||◌, if◌then◌else◌, Option, none, some, is_some, List, [], ◌∷◌,
  ◌++◌, Text, text_eq,
}
use aira_relay.Base.Results.{
  not_found, unprocessable, internal, ok, err, M, ◌>>=◌, ◌>>◌, pure, throw, gets, modify, require,
  when,
}
use aira_relay.Apps.{
  AppName, chatwoot, calls, unsupported, name_eq, App, AppsTable, AppDefinition, has_app,
}
use aira_relay.Apps.Repository.{
  Hook, validate, before_created, before_deleted, before_enabled, before_disabled, before_updated,
  before_session_start, after_session_start, hook_app, Store, get_by_id, get_all_by_session,
  get_enabled_by_session, save, update_row, delete_row, delete_by_session,
}

-- What the services of the apps are: which apps run, which service is there, and whether a call of
-- the Chatwoot service returns. `generated` is the i-th id that is generated.
pub record Services : Type 0 where
  pub runtime : Option (List AppDefinition)
  pub chatwoot_service : Bool
  pub calls_service : Bool
  pub chatwoot_answers : Hook → Bool
  pub generated : ℕ → Text

-- Whether a call returns.
unfoldable pub returns : Services → Hook → Bool
returns s h = elim (hook_app h).app [
  | chatwoot ↦ s.chatwoot_answers h
  | calls ↦ true
  | unsupported t ↦ false
]

abbrev pub find_app : AppName → List App → Option App
find_app k [] = none
find_app k (a ∷ apps) = if name_eq a.app k then some a else find_app k apps

-- `savedApp.enabled !== app.enabled`, negated.
abbrev pub same_enabled : Option Bool → Option Bool → Bool
same_enabled none none = true
same_enabled (some true) (some true) = true
same_enabled (some false) (some false) = true
same_enabled _ _ = false

-- `if (app.enabled)`, and `app.enabled !== false`.
abbrev pub is_enabled : Option Bool → Bool
is_enabled (some true) = true
is_enabled _ = false

abbrev pub not_disabled : Option Bool → Bool
not_disabled (some false) = false
not_disabled _ = true

-- `session === null`, where `exists` answered a Boolean.
abbrev pub is_null : Bool → Bool
is_null b = false

abbrev pub one_of_kind : AppName → App → List App → Bool
one_of_kind k app existing = if name_eq app.app k then not (is_some (find_app k existing)) else true

-- The hook of `update`.
abbrev pub update_hook : (saved : App) → App → Hook
update_hook saved app =
    if same_enabled saved.enabled app.enabled
    then before_updated saved app
    else if is_enabled app.enabled
    then before_enabled saved app
    else before_disabled saved app

-- The service on the state `S` of the session manager, whose `exists` it calls, and the store.
module _ (table : AppsTable) (services : Services) {S : Type 0} (exists : Text → M S Bool) where
  abbrev pub Run : Type 0 → Type 0
  Run A = M (S × Store table) A

  abbrev pub in_store : {A : Type 0} → (Store table → A) → Run A
  in_store f = gets (λ w. f w.1)

  -- A call of an app's service.
  unfoldable pub call : Hook → Run (Unit {0})
  call h (s, w) = (
    (s, record w { hooks = w.hooks ++ (h ∷ []) }),
    if returns services h then ok tt else err internal,
  )

  abbrev pub in_manager : {A : Type 0} → M S A → Run A
  in_manager m (s, w) = (((m s).0, w), (m s).1)

  unfoldable pub check_session_exists : Text → Run (Unit {0})
  check_session_exists name = do
    session ← in_manager (exists name)
    require (not (is_null session)) not_found

  -- `getAppService`: whether the app's service is there.
  unfoldable pub get_app_service : AppName → Run Bool
  get_app_service chatwoot = pure services.chatwoot_service
  get_app_service calls = pure services.calls_service
  get_app_service (unsupported t) = throw internal

  -- The service of an app that is to be called: without one, an app that does not run is refused, and
  -- for another the call of a method of nothing throws.
  unfoldable pub require_service : AppName → Run (Unit {0})
  require_service name = do
    service ← get_app_service name
    require (service || has_app services.runtime name) unprocessable
    require service internal

  -- `list`, and `get`.
  unfoldable pub list_apps : Text → Run (List App)
  list_apps session = in_store (get_all_by_session session)

  unfoldable pub get_app : Text → Run (Option App)
  get_app id = in_store (get_by_id id)

  -- `app.id || generatePrefixedId('app')`.
  unfoldable pub choose_id : Text → Run Text
  choose_id (c ∷ id) w = (w, ok (c ∷ id))
  choose_id [] (s, w) = ((s, record w { made = suc w.made }), ok (services.generated w.made))

  -- The apps among which `create` looks for one of the same kind.
  abbrev pub existing_apps : App → Store table → List App
  existing_apps app w =
      if name_eq app.app chatwoot || name_eq app.app calls
      then get_all_by_session app.session w
      else []

  -- The end of `create`: the service of the app, its hooks and the new row.
  unfoldable pub save_app : App → Run (Option App)
  save_app app u =
      let r = save app u.1 in
      ((u.0, r.0), elim r.1 [ ok result ↦ ok (some result) | err e ↦ err e ])

  abbrev pub create_hook : App → Run (Unit {0})
  create_hook app = when (not_disabled app.enabled) (call (before_created app))

  unfoldable pub create_checked : App → Run (Option App)
  create_checked app = do
    require_service app.app
    call (validate app)
    create_hook app
    save_app app

  -- The checks of `create`.
  unfoldable pub create_found : App → Run (Option App)
  create_found app = do
    existing_app ← in_store (get_by_id app.id)
    require (not (is_some existing_app)) internal
    existing ← in_store (existing_apps app)
    require (one_of_kind chatwoot app existing) internal
    require (one_of_kind calls app existing) internal
    create_checked app

  unfoldable pub create_app : App → Run (Option App)
  create_app app = do
    check_session_exists app.session
    id ← choose_id app.id
    create_found (record app { id = id })

  -- The end of `update`.
  abbrev pub write_app : App → Run (Option App)
  write_app app = do modify (λ u. (u.0, update_row app u.1)); in_store (get_by_id app.id)

  unfoldable pub update_checked : (saved : App) → App → Run (Option App)
  update_checked saved app = do
    require_service app.app
    call (validate app)
    call (update_hook saved app)
    write_app app

  unfoldable pub update_saved : (upsert : Bool) → App → Option App → Run (Option App)
  update_saved true app none = create_app app
  update_saved false app none = throw not_found
  update_saved upsert app (some saved) = do
    require (name_eq saved.app app.app) internal
    require (text_eq saved.session app.session) internal
    update_checked saved app

  unfoldable pub update_app : (upsert : Bool) → App → Run (Option App)
  update_app upsert app = do
    check_session_exists app.session
    saved_app ← in_store (get_by_id app.id)
    update_saved upsert app saved_app

  unfoldable pub delete_saved : Option App → Run App
  delete_saved none = throw not_found
  delete_saved (some app) = do
    service ← get_app_service app.app
    when service (call (before_deleted app))
    modify (λ u. (u.0, delete_row app.id u.1))
    pure app

  unfoldable pub delete_app : Text → Run App
  delete_app id = do app ← in_store (get_by_id id); delete_saved app

  unfoldable pub remove_by_session : Text → Run (Unit {0})
  remove_by_session session = modify (λ u. (u.0, delete_by_session session u.1))

  -- The loops of `beforeSessionStart` and `afterSessionStart`.
  unfoldable pub start_apps : (App → Hook) → List App → Run (Unit {0})
  start_apps hook [] = pure tt
  start_apps hook (app ∷ rest) = do require_service app.app; call (hook app); start_apps hook rest

  unfoldable pub before_session_start_apps : Text → Run (Unit {0})
  before_session_start_apps session = do
    apps ← in_store (get_enabled_by_session session)
    start_apps before_session_start apps

  unfoldable pub after_session_start_apps : Text → Run (Unit {0})
  after_session_start_apps session = do
    apps ← in_store (get_enabled_by_session session)
    start_apps after_session_start apps
