-- ===== src/Apps/Syncing.antt =====
-- `syncSessionApps` of waha-plus/src/apps/app_sdk/services/AppsEnabledService.ts, the interface
-- services/IAppsService.ts, and services/AppsDisabledService.ts, which fills it too.
use aira_relay.Base.{Bool, true, false, not, Option, none, some, List, [], ◌∷◌, Text, contains}
use aira_relay.Base.Results.{unprocessable, M, ◌>>=◌, ◌>>◌, pure, throw, when}
use aira_relay.Apps.{App, AppsTable}
use aira_relay.Apps.Repository.{Store}
use aira_relay.Apps.Service.{
  find_app, Services, list_apps, get_app, create_app, update_app, delete_app, remove_by_session,
  before_session_start_apps, after_session_start_apps,
}

-- The id of an app that the request lists without one: that of the session's app of the same kind.
unfoldable pub sync_id : List App → App → Text
sync_id existing app = elim app.id [
  | c ∷ id ↦ c ∷ id
  | [] ↦ elim (find_app app.app existing) [ none ↦ [] | some found ↦ found.id ]
]

abbrev pub sync_app : Text → List App → App → App
sync_app session existing app = record app { id = sync_id existing app; session = session }

-- The id of the app after `upsert`: `create` writes a generated id into the app.
abbrev pub upserted_id : App → Option App → Text
upserted_id app none = app.id
upserted_id app (some a) = a.id

module _ (table : AppsTable) (services : Services) {S : Type 0} (exists : Text → M S Bool) where
  abbrev pub upsert_app : App → M (S × Store table) (Option App)
  upsert_app app = update_app table services exists true app

  -- The loop over the apps that are given; it answers their ids.
  unfoldable pub upsert_each :
      Text → List App → List App → (ids : List Text) → M (S × Store table) (List Text)
  upsert_each session existing [] ids = pure ids
  upsert_each session existing (app ∷ rest) ids = do
    saved ← upsert_app (sync_app session existing app)
    upsert_each session existing rest (upserted_id (sync_app session existing app) saved ∷ ids)

  -- The loop over the apps that were there.
  unfoldable pub delete_others : List Text → List App → M (S × Store table) (Unit {0})
  delete_others ids [] = pure tt
  delete_others ids (app ∷ rest) = do
    when (not (contains ids app.id)) (delete_app table services exists app.id >> pure tt)
    delete_others ids rest

  unfoldable pub sync_session_apps : Text → List App → M (S × Store table) (Unit {0})
  sync_session_apps session apps = do
    existing ← list_apps table services exists session
    ids ← upsert_each session existing apps []
    delete_others ids existing

-- `IAppsService`, over a state.
pub record AppsService (W : Type 0) : Type 0 where
  pub list : Text → M W (List App)
  pub get : Text → M W (Option App)
  pub create : App → M W (Option App)
  pub upsert : App → M W (Option App)
  pub update : App → M W (Option App)
  pub delete : Text → M W App
  pub remove_by_session : Text → M W (Unit {0})
  pub before_session_start : Text → M W (Unit {0})
  pub after_session_start : Text → M W (Unit {0})
  pub sync_session_apps : Text → List App → M W (Unit {0})

abbrev pub enabled_service :
    (table : AppsTable)
    → Services
    → {S : Type 0} → (Text → M S Bool)
    → AppsService (S × Store table)
enabled_service table services exists = record {
  list = list_apps table services exists;
  get = get_app table services exists;
  create = create_app table services exists;
  upsert = update_app table services exists true;
  update = update_app table services exists false;
  delete = delete_app table services exists;
  remove_by_session = remove_by_session table services exists;
  before_session_start = before_session_start_apps table services exists;
  after_session_start = after_session_start_apps table services exists;
  sync_session_apps = sync_session_apps table services exists;
}

-- `AppsDisabledService`.
abbrev pub disabled_service : (W : Type 0) → AppsService W
disabled_service W = record {
  list = λ session. throw unprocessable;
  get = λ id. throw unprocessable;
  create = λ app. throw unprocessable;
  upsert = λ app. throw unprocessable;
  update = λ app. throw unprocessable;
  delete = λ id. throw unprocessable;
  remove_by_session = λ session. pure tt;
  before_session_start = λ session. pure tt;
  after_session_start = λ session. pure tt;
  sync_session_apps = λ session apps. throw unprocessable;
}
