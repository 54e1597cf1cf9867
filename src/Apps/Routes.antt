-- ===== src/Apps/Routes.antt =====
-- The handlers of waha-plus/src/apps/app_sdk/api/apps.controller.ts, over the apps' service and the
-- session manager. `can` tells whether the request's ability allows to use a session; `list` and
-- `create` are guarded by the route's policy, the others ask it for the app that they find.
use aira_relay.Base.{Bool, true, ◌&&◌, Option, none, some, List, [], ◌∷◌, Text, text_eq}
use aira_relay.Base.Results.{not_found, forbidden, M, ◌>>=◌, ◌>>◌, pure, throw, require, when}
use aira_relay.Manager.{Answers}
use aira_relay.Manager.Controller.{SessionManager, restart}
use aira_relay.Apps.{App}
use aira_relay.Apps.Service.{is_enabled}
use aira_relay.Apps.Syncing.{AppsService}

abbrev pub in_sessions : {S T A : Type 0} → M S A → M (S × T) A
in_sessions m (s, t) = (((m s).0, t), (m s).1)

-- `if (!app.id) app.id = id; else if (app.id !== id) throw …`: whether the ids agree.
abbrev pub ids_agree : (path body : Text) → Bool
ids_agree path [] = true
ids_agree path (c ∷ body) = text_eq (c ∷ body) path

module _ {S T : Type 0} (manager : SessionManager S) (answers : Answers)
    (apps : AppsService (S × T)) (can : Text → Bool) where
  unfoldable pub list_route : Text → M (S × T) (List App)
  list_route session = do require (can session) forbidden; apps.list session

  -- A session that runs is restarted, to run with the app's change.
  abbrev pub restart_if : (change : Bool) → Text → M (S × T) (Unit {0})
  restart_if change session = do
    running ← in_sessions (manager.is_running session)
    when (running && change) (in_sessions (restart manager answers session))

  unfoldable pub create_route : App → M (S × T) (Option App)
  create_route app = do
    require (can app.session) forbidden
    result ← apps.create app
    restart_if (is_enabled app.enabled) app.session
    pure result

  abbrev pub found_app : Option App → M (S × T) App
  found_app none = throw not_found
  found_app (some app) = do require (can app.session) forbidden; pure app

  unfoldable pub get_route : Text → M (S × T) App
  get_route id = do app ← apps.get id; found_app app

  abbrev pub may_update : Option App → App → Bool
  may_update none app = can app.session
  may_update (some existing) app = can existing.session

  unfoldable pub update_route : Text → App → M (S × T) (Option App)
  update_route id app = do
    existing ← apps.get id
    require (may_update existing app) forbidden
    require (ids_agree id app.id) not_found
    result ← apps.upsert (record app { id = id })
    restart_if true app.session
    pure result

  unfoldable pub delete_route : Text → M (S × T) (Unit {0})
  delete_route id = do
    existing ← apps.get id
    found_app existing
    app ← apps.delete id
    restart_if true app.session
