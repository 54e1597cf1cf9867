-- ===== src/Manager/Controller.antt =====
-- The REST handlers of waha-plus/src/api/sessions.controller.ts, and `restart` of
-- core/abc/manager.abc.ts, over the abstract class `SessionManager` that they call. A handler is the
-- part of its method that changes anything, with the checks that come before; reading the session's
-- information for the answer comes after it.
use aira_relay.Base.{Bool, true, false, not, if◌then◌else◌, Option, [], ◌∷◌, Text}
use aira_relay.Base.Results.{
  not_found, unprocessable, internal, M, ◌>>=◌, ◌>>◌, pure, gets, require, when,
}
use aira_relay.Manager.{SessionConfig, Database, World, ServerConfig, Answers}
use aira_relay.Manager.Operations.{
  SessionDto, is_running, exists, upsert, delete, start_session, stop_session, unpair, logout,
  assign, unassign,
}
use aira_relay.Manager.Cells.{
  Cell, cell_exists, cell_upsert, cell_delete, cell_start, cell_stop, cell_unpair, cell_logout,
  cell_assign, cell_unassign,
}
use aira_relay.Base.{is_some}

-- The abstract methods of `SessionManager`, over a state.
pub record SessionManager (S : Type 0) : Type 0 where
  pub exists : Text → M S Bool
  pub is_running : Text → M S Bool
  pub upsert : Text → Option SessionConfig → M S (Unit {0})
  pub delete : Text → M S (Unit {0})
  pub start : Text → M S (Option SessionDto)
  pub stop : Text → Bool → M S (Unit {0})
  pub logout : Text → M S (Unit {0})
  pub unpair : Text → M S (Unit {0})
  pub assign : Text → M S (Unit {0})
  pub unassign : Text → M S (Unit {0})

-- `SessionManagerPlus`.
abbrev pub plus : {db : Database} → ServerConfig → Answers → SessionManager (World db)
plus server answers = record {
  exists = exists server answers;
  is_running = λ name. gets (is_running server answers name);
  upsert = upsert server answers;
  delete = delete server answers;
  start = start_session server answers;
  stop = stop_session server answers;
  logout = logout server answers;
  unpair = unpair server answers;
  assign = assign server answers;
  unassign = unassign server answers;
}

-- The specification: the manager of one session's cell.
abbrev pub cells : ServerConfig → Answers → SessionManager Cell
cells server answers = record {
  exists = cell_exists server answers;
  is_running = λ name. gets (λ c. is_some c.runtime);
  upsert = cell_upsert server answers;
  delete = cell_delete server answers;
  start = cell_start server answers;
  stop = cell_stop server answers;
  logout = cell_logout server answers;
  unpair = cell_unpair server answers;
  assign = cell_assign server answers;
  unassign = cell_unassign server answers;
}

abbrev pub is_named : Text → Bool
is_named [] = false
is_named (_ ∷ _) = true

module _ {S : Type 0} (manager : SessionManager S) (answers : Answers) where
  -- `manager.abc.ts`, `restart`.
  unfoldable pub restart : Text → M S (Unit {0})
  restart name = do
    found ← manager.exists name
    require found not_found
    manager.assign name
    manager.stop name true
    manager.start name
    pure tt

  -- `apps` tells whether the request lists apps to synchronise, `start` whether it asks for a start.
  unfoldable pub create : Text → Option SessionConfig → (apps start : Bool) → M S (Unit {0})
  create name config apps start = do
    found ← manager.exists name
    require (not found) unprocessable
    manager.upsert name config
    when apps (require (answers.sync_apps name) internal)
    when start (manager.assign name >> (manager.start name >> pure tt))

  unfoldable pub update : Text → Option SessionConfig → (apps : Bool) → M S (Unit {0})
  update name config apps = do
    found ← manager.exists name
    require found not_found
    running ← manager.is_running name
    manager.stop name true
    manager.upsert name config
    when apps (require (answers.sync_apps name) internal)
    when running (manager.start name >> pure tt)

  unfoldable pub delete_session : Text → M S (Unit {0})
  delete_session name = do
    manager.unassign name
    manager.unpair name
    manager.stop name true
    manager.logout name
    manager.delete name

  unfoldable pub start_route : Text → M S (Unit {0})
  start_route name = do
    found ← manager.exists name
    require found not_found
    manager.assign name
    manager.start name
    pure tt

  unfoldable pub stop_route : Text → M S (Unit {0})
  stop_route name = do manager.unassign name; manager.stop name false

  unfoldable pub logout_route : Text → M S (Unit {0})
  logout_route name = do
    found ← manager.exists name
    require found not_found
    running ← manager.is_running name
    manager.unpair name
    manager.stop name true
    manager.logout name
    when running (manager.start name >> pure tt)

  -- The deprecated routes `/start/`, `/stop/` and `/logout/`.
  unfoldable pub deprecated_start : Text → Option SessionConfig → M S (Option SessionDto)
  deprecated_start name config = do
    require (is_named name) unprocessable
    running ← manager.is_running name
    require (not running) unprocessable
    manager.upsert name config
    manager.assign name
    manager.start name

  unfoldable pub deprecated_stop : Text → (logout : Bool) → M S (Unit {0})
  deprecated_stop name logout = do
    require (is_named name) unprocessable
    if logout then delete_session name else stop_route name

  unfoldable pub deprecated_logout : Text → M S (Unit {0})
  deprecated_logout name = do require (is_named name) unprocessable; delete_session name
