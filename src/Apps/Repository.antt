-- ===== src/Apps/Repository.antt =====
-- waha-plus/src/apps/app_sdk/storage/AppRepository.ts, and what the services of the apps are called for.
use aira_relay.Base.{
  ℕ, Bool, true, false, ◌&&◌, if◌then◌else◌, Option, none, some, get_or, List, Text, text_eq, map,
  ◌==◌,
}
use aira_relay.Base.Results.{internal, Result, ok, err}
use aira_relay.Apps.{App, Row, Column, undefined, null, boolean, number, string, AppsTable}

-- A call of a method of `IAppService`.
pub data Hook : Type 0 where
  validate before_created before_deleted : App → Hook
  before_enabled before_disabled before_updated : (saved : App) → App → Hook
  before_session_start after_session_start : App → Hook

abbrev pub hook_app : Hook → App
hook_app (validate a) = a
hook_app (before_created a) = a
hook_app (before_deleted a) = a
hook_app (before_enabled s a) = a
hook_app (before_disabled s a) = a
hook_app (before_updated s a) = a
hook_app (before_session_start a) = a
hook_app (after_session_start a) = a

-- The table, the calls of the apps' services so far, and how many ids were generated.
pub record Store (table : AppsTable) : Type 0 where
  pub rows : table.Rows
  pub hooks : List Hook
  pub made : ℕ

-- The switch of `deserialize`.
unfoldable pub deserialize_enabled : Column → Bool
deserialize_enabled undefined = true
deserialize_enabled null = true
deserialize_enabled (boolean b) = b
deserialize_enabled (number n) = if n == 0 then false else true
deserialize_enabled (string t) = true

abbrev pub of_session : Text → Row → Bool
of_session session r = text_eq r.session session

-- The row that `save` inserts: an app that does not say so is enabled, the column's default.
unfoldable pub new_row : App → Row
new_row app = record {
  id = app.id;
  session = app.session;
  app = app.app;
  enabled = get_or app.enabled true;
  config = app.config;
}

-- What `update` writes: an app that does not say whether it is enabled stays as it is.
unfoldable pub changed : App → Row → Row
changed app r = record {
  id = app.id;
  session = app.session;
  app = app.app;
  enabled = get_or app.enabled r.enabled;
  config = app.config;
}

module _ (table : AppsTable) where
  unfoldable pub deserialize : Row → App
  deserialize r = record {
    id = r.id;
    session = r.session;
    app = r.app;
    enabled = some (deserialize_enabled (table.column r.enabled));
    config = r.config;
  }

module _ {table : AppsTable} where
  unfoldable pub get_by_id : Text → Store table → Option App
  get_by_id id w = elim (table.first w.rows id) [
    | none ↦ none
    | some r ↦ some (deserialize table r)
  ]

  unfoldable pub get_all_by_session : Text → Store table → List App
  get_all_by_session session w =
      map (deserialize table) (table.select_where w.rows (of_session session))

  unfoldable pub get_enabled_by_session : Text → Store table → List App
  get_enabled_by_session session w =
      map (deserialize table) (table.select_where w.rows (λ r. of_session session r && r.enabled))

  unfoldable pub save : App → Store table → Store table × Result App
  save app w = elim (table.insert w.rows (new_row app)) [
    | none ↦ (w, err internal)
    | some d ↦ (record w { rows = d }, ok app)
  ]

  unfoldable pub update_row : App → Store table → Store table
  update_row app w = record w { rows = table.update_where_id w.rows app.id (changed app) }

  unfoldable pub delete_row : Text → Store table → Store table
  delete_row id w = record w { rows = table.delete_where w.rows (λ r. text_eq r.id id) }

  unfoldable pub delete_by_session : Text → Store table → Store table
  delete_by_session session w = record w { rows = table.delete_where w.rows (of_session session) }
