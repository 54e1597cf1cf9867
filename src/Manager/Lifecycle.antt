-- ===== src/Manager/Lifecycle.antt =====
-- What the handlers do to the session that they name, proved on its cell and carried over.
pub mod Creation
pub mod Routes
use aira_relay.Base.{
  ℕ, Bool, true, false, not, ◌&&◌, ◌||◌, if◌then◌else◌, Option, none, some, is_some, get_or, Text,
  text_eq, ◌≡◌, ◌≢◌, refl, sym, subst, ap, ◌∙◌, arith, chain, Option-cases, inl, inr,
}
use mathlib.Core.Option
use aira_relay.Base.Results.{
  Error, not_found, unprocessable, internal, Result, ok, err, M, is_ok, pure, ◌>>=◌, ◌>>◌, require,
  when,
}
use aira_relay.Session.{
  Session, Status, starting, stopped, failed, new_session, start, stop, set_status,
}
use aira_relay.Manager.{
  SessionConfig, empty_config, Database, Runtime, World, ServerConfig, Answers,
}
use aira_relay.Manager.Cells.{
  Cell, view, Simulates, simulate, cell_exists, cell_upsert, cell_delete, cell_prepare, cell_run,
  cell_start, cell_stop, cell_unpair, cell_logout, cell_assign, cell_unassign, without,
  account_after,
}
use aira_relay.Manager.Operations.{dto}
use aira_relay.Manager.Settings.{ignore_chats_config, get_webhooks}
use aira_relay.Manager.Controller.{
  plus, cells, create, update, delete_session, start_route, stop_route, logout_route, restart,
}
use aira_relay.Manager.Handlers.{
  create-Refines, update-Refines, delete_session-Refines, start_route-Refines, stop_route-Refines,
  logout_route-Refines, restart-Refines,
}

-- Nothing is kept of a session.
abbrev pub empty_cell : Cell
empty_cell = record { config = none; me = none; worker = none; auth = false; runtime = none }

-- The collaborators of a start all answer.
pub record Ready (answers : Answers) (name : Text) : Type 0 where
  pub media : answers.media_ready name ≡ true
  pub before : answers.before_start name ≡ true
  pub engine : answers.session_start name ≡ true
  pub after : answers.after_start name ≡ true
  pub apps : answers.sync_apps name ≡ true

abbrev pub status_of : Cell → Option Status
status_of c = Option.map (λ (r : Runtime). r.session.status) c.runtime

abbrev pub running_config : Cell → Option SessionConfig
running_config c = chain c.runtime (λ r. r.config)

cell_operations : Unit {0}
unfolding cell_upsert cell_delete cell_prepare cell_run cell_start cell_stop cell_unpair cell_logout
    cell_assign cell_unassign start stop set_status new_session
cell_operations = tt

-- A step that succeeds hands its result on.
pub bind_ok :
    {S A B : Type 0} (m : M S A) (f : A → M S B) {s t : S} {a : A}
    → ◌≡◌ {A = S × Result A} (m s) (t, ok a)
    → ◌≡◌ {A = S × Result B} ((m >>= f) s) (f a t)
bind_ok {S} {A} {B} m f {s} e = ap (λ (p : S × Result A). ((λ (u : S). p) >>= f) s) e

module _ (server : ServerConfig) (answers : Answers) (name : Text) where
  -- The session object of a start that succeeds.
  abbrev pub fresh_runtime : Option SessionConfig → Runtime
  fresh_runtime config = record {
    session = start (new_session name);
    config = config;
    proxy = none;
    ignore = ignore_chats_config server config;
    webhooks = get_webhooks server config;
  }

  -- A start that all collaborators answer, of a session that is not in memory.
  pub start-Ready :
      (c : Cell)
      → Ready answers name
      → let k = record c { runtime = none } in
        cell_start server answers name k ≡ (
          record k { runtime = some (fresh_runtime c.config) },
          ok (dto name (fresh_runtime c.config)),
        )
  unfolding cell_operations
  start-Ready c h = rw (h.media, h.before, h.engine, h.after) refl

  pub fresh_status :
      (config : Option SessionConfig) → (fresh_runtime config).session.status ≡ starting
  unfolding cell_operations
  fresh_status config = refl

  stop_silent :
      (c : Cell)
      → cell_stop server answers name true c
        ≡ (record c { runtime = none; me = account_after c }, ok tt)
  unfolding cell_stop
  stop_silent c = elim (Option-cases c.runtime) [ inl e ↦ ground arith | inr (r, e) ↦ ground arith ]

  pub delete_cell :
      (c : Cell)
      → answers.remove_apps name ≡ true
      → let (d, r) = delete_session (cells server answers) answers name c in
        (r ≡ ok tt) × (d ≡ empty_cell)
  unfolding delete_session cell_operations
  delete_cell c h = ground arith

  -- What an update leaves, of a session whose configuration is kept.
  abbrev pub UpdateKeeps : Option SessionConfig → Cell → Cell × Result (Unit {0}) → Type 0
  UpdateKeeps config c (d, r) =
      (r ≡ ok tt)
      × (d.config ≡ some (get_or config empty_config))
      × (is_some d.runtime ≡ is_some c.runtime)
      × (running_config d ≡ (if is_some c.runtime then d.config else none))
      × (d.me ≡ account_after c)
      × (d.auth ≡ c.auth)
      × (d.worker ≡ c.worker)

  pub update_cell :
      (config : Option SessionConfig) (apps : Bool) (old : SessionConfig) (runtime : Option Runtime)
      (c : Cell)
      → Ready answers name
      → let k = record c { config = some old; runtime = runtime } in
        UpdateKeeps config k (update (cells server answers) answers name config apps k)
  unfolding update cell_exists cell_operations
  update_cell config true old none c h = ground arith
  update_cell config true old (some r) c h = ground arith
  update_cell config false old none c h = ground arith
  update_cell config false old (some r) c h = ground arith

  pub create_existing_cell :
      (config : Option SessionConfig) (apps start : Bool) (old : SessionConfig) (c : Cell)
      → let k = record c { config = some old } in
        create (cells server answers) answers name config apps start k ≡ (k, err unprocessable)
  unfolding create cell_exists
  create_existing_cell config apps start old c = refl

  -- What a logout leaves, of a session whose configuration is kept.
  abbrev pub LogoutKeeps : Cell → Cell × Result (Unit {0}) → Type 0
  LogoutKeeps c (d, r) =
      (r ≡ ok tt)
      × (d.auth ≡ false)
      × (d.me ≡ none)
      × (status_of d ≡ (if is_some c.runtime then some starting else none))
      × (d.config ≡ c.config)
      × (d.worker ≡ c.worker)

  pub logout_cell :
      (old : SessionConfig) (runtime : Option Runtime) (c : Cell)
      → Ready answers name
      → let k = record c { config = some old; runtime = runtime } in
        LogoutKeeps k (logout_route (cells server answers) answers name k)
  unfolding logout_route cell_exists cell_operations
  logout_cell old none c h = ground arith
  logout_cell old (some r) c h = ground arith

  -- What a restart leaves.
  abbrev pub RestartMakes : Cell → Cell × Result (Unit {0}) → Type 0
  RestartMakes c (d, r) =
      (r ≡ ok tt)
      × (status_of d ≡ some starting)
      × (running_config d ≡ c.config)
      × (d.worker ≡ some server.worker_id)
      × (d.config ≡ c.config)
      × (d.me ≡ account_after c)
      × (d.auth ≡ c.auth)

  pub restart_cell :
      (old : SessionConfig) (runtime : Option Runtime) (c : Cell)
      → Ready answers name
      → let k = record c { config = some old; runtime = runtime } in
        RestartMakes k (restart (cells server answers) answers name k)
  unfolding restart cell_exists cell_assign
  restart_cell old runtime c h =
      let k = record c { config = some old; runtime = runtime } in
      let assigned = record k { worker = some server.worker_id } in
      subst (RestartMakes k)
        (sym (
          bind_ok (cell_stop server answers name true)
            (λ _. cell_start server answers name >> pure tt) (stop_silent assigned)
          ∙ bind_ok (cell_start server answers name) (λ _. pure tt)
              (start-Ready (record assigned { me = account_after assigned }) h)))
        (refl, ap some (fresh_status (some old)), refl, refl, refl, refl, refl)

  -- What a stop that the engine refuses leaves, and a start after it.
  abbrev pub RefusedStop : Cell → Cell × Result (Unit {0}) → Cell × Result (Unit {0}) → Type 0
  RefusedStop c (d, r) (e, s) =
      (r ≡ err internal)
      × (s ≡ ok tt)
      × (status_of d ≡ some stopped)
      × (e.runtime ≡ d.runtime)
      × (e.config ≡ c.config)
      × (e.worker ≡ some server.worker_id)

  pub stop_failed_cell :
      (old : SessionConfig) (r : Runtime) (c : Cell)
      → answers.session_stop name ≡ false
      → let k = record c { config = some old; runtime = some r } in
        let d = stop_route (cells server answers) answers name k in
        RefusedStop k d (start_route (cells server answers) answers name d.0)
  unfolding stop_route start_route cell_exists cell_operations
  stop_failed_cell old r c h = ground arith
