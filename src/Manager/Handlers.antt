-- ===== src/Manager/Handlers.antt =====
-- Every handler over the manager refines the same handler over the cell of its session.
use aira_relay.Base.{refl, ap, Bool, true, false, not, Option, Text}
use aira_relay.Base.Results.{not_found, unprocessable, internal, ok, M, ◌>>=◌, ◌>>◌, pure, when}
use aira_relay.Manager.{SessionConfig, Database, World, ServerConfig, Answers}
use aira_relay.Manager.Cells.{Cell, Refines, Simulates, simulate}
use aira_relay.Manager.Refinement.{
  own_shared, pure-Refines, require-Refines, >>=-Refines, exists-Refines, upsert-Refines,
  delete-Refines, stop_session-Refines, unpair-Refines, logout-Refines, assign-Refines,
  unassign-Refines,
}
use aira_relay.Manager.Refinement.Starting.{start_session-Refines, is_running-view}
use aira_relay.Manager.Controller.{
  plus, cells, restart, create, update, delete_session, start_route, stop_route, logout_route,
  is_named, deprecated_start,
}

module _ {db : Database} (server : ServerConfig) (answers : Answers) (name : Text) where
  -- First `h`, and then what follows from its value.
  bind-Refines :
      {A B : Type 0} {m : M (World db) A} {c : M Cell A} {f : A → M (World db) B} {g : A → M Cell B}
      → Refines name m c
      → ((a : A) → Refines name (f a) (g a))
      → Refines name (m >>= f) (c >>= g)
  bind-Refines h k = >>=-Refines name k h

  then-Refines :
      {A B : Type 0} {m : M (World db) A} {c : M Cell A} {k : M (World db) B} {l : M Cell B}
      → Refines name m c
      → Refines name k l
      → Refines name (m >> k) (c >> l)
  then-Refines h k = >>=-Refines name (λ _. k) h

  when-Refines :
      (b : Bool) {m : M (World db) (Unit {0})} {c : M Cell (Unit {0})}
      → Refines name m c
      → Refines name (when b m) (when b c)
  when-Refines true h = h
  when-Refines false h = pure-Refines name tt

  is_running-Refines :
      Refines {db = db} name
        ((plus server answers).is_running name)
        ((cells server answers).is_running name)
  is_running-Refines = record {
    result = λ w. ap ok (is_running-view server answers name w);
    inside = λ w. refl;
    outside = λ w j d. own_shared name w j;
  }

  started-Refines :
      Refines {db = db} name
        ((plus server answers).start name >> pure tt)
        ((cells server answers).start name >> pure tt)
  started-Refines = then-Refines (start_session-Refines server answers name) (pure-Refines name tt)

  pub restart-Refines :
      Refines {db = db} name
        (restart (plus server answers) answers name)
        (restart (cells server answers) answers name)
  unfolding restart
  restart-Refines = bind-Refines (exists-Refines server answers name) λ found.
      then-Refines (require-Refines name found not_found) (
        then-Refines (assign-Refines server answers name)
          (then-Refines (stop_session-Refines server answers name true) started-Refines))

  pub create-Refines :
      (config : Option SessionConfig) (apps : Bool) (start : Bool)
      → Refines {db = db} name
          (create (plus server answers) answers name config apps start)
          (create (cells server answers) answers name config apps start)
  unfolding create
  create-Refines config apps start = bind-Refines (exists-Refines server answers name) λ found.
      then-Refines (require-Refines name (not found) unprocessable) (
        then-Refines (upsert-Refines server answers name config) (
          then-Refines (when-Refines apps (require-Refines name (answers.sync_apps name) internal))
            (when-Refines start
              (then-Refines (assign-Refines server answers name) started-Refines))))

  pub update-Refines :
      (config : Option SessionConfig) (apps : Bool)
      → Refines {db = db} name
          (update (plus server answers) answers name config apps)
          (update (cells server answers) answers name config apps)
  unfolding update
  update-Refines config apps = bind-Refines (exists-Refines server answers name) λ found.
      then-Refines (require-Refines name found not_found) (
        bind-Refines is_running-Refines λ running.
          then-Refines (stop_session-Refines server answers name true) (
            then-Refines (upsert-Refines server answers name config) (
              then-Refines
                (when-Refines apps (require-Refines name (answers.sync_apps name) internal))
                (when-Refines running started-Refines))))

  pub delete_session-Refines :
      Refines {db = db} name
        (delete_session (plus server answers) answers name)
        (delete_session (cells server answers) answers name)
  unfolding delete_session
  delete_session-Refines = then-Refines (unassign-Refines server answers name) (
      then-Refines (unpair-Refines server answers name) (
        then-Refines (stop_session-Refines server answers name true)
          (then-Refines (logout-Refines server answers name) (delete-Refines server answers name))))

  pub start_route-Refines :
      Refines {db = db} name
        (start_route (plus server answers) answers name)
        (start_route (cells server answers) answers name)
  unfolding start_route
  start_route-Refines = bind-Refines (exists-Refines server answers name) λ found.
      then-Refines (require-Refines name found not_found)
        (then-Refines (assign-Refines server answers name) started-Refines)

  pub stop_route-Refines :
      Refines {db = db} name
        (stop_route (plus server answers) answers name)
        (stop_route (cells server answers) answers name)
  unfolding stop_route
  stop_route-Refines =
      then-Refines (unassign-Refines server answers name)
        (stop_session-Refines server answers name false)

  pub logout_route-Refines :
      Refines {db = db} name
        (logout_route (plus server answers) answers name)
        (logout_route (cells server answers) answers name)
  unfolding logout_route
  logout_route-Refines = bind-Refines (exists-Refines server answers name) λ found.
      then-Refines (require-Refines name found not_found) (
        bind-Refines is_running-Refines λ running.
          then-Refines (unpair-Refines server answers name) (
            then-Refines (stop_session-Refines server answers name true) (
              then-Refines (logout-Refines server answers name)
                (when-Refines running started-Refines))))

  deprecated_start-Refines :
      (config : Option SessionConfig)
      → Refines {db = db} name
          (deprecated_start (plus server answers) answers name config)
          (deprecated_start (cells server answers) answers name config)
  unfolding deprecated_start
  deprecated_start-Refines config =
      then-Refines (require-Refines name (is_named name) unprocessable) (
        bind-Refines is_running-Refines λ running.
          then-Refines (require-Refines name (not running) unprocessable) (
            then-Refines (upsert-Refines server answers name config) (
              then-Refines (assign-Refines server answers name)
                (start_session-Refines server answers name))))

  -- A request for one session answers as the same request does on that session's cell, does to that
  -- cell what it does there, and leaves every other session's cell alone, but for the engine's credentials:
  -- two sessions whose names differ in what the names of databases leave out, such as upper and lower
  -- case, have them in common. Beside these, what is kept in memory and in the database for one session
  -- never depends on another, but for its proxy.
  pub handlers_simulate :
      (config : Option SessionConfig) (apps start : Bool) (w : World db) (j : Text)
      → Simulates name w j
          (create (plus server answers) answers name config apps start)
          (create (cells server answers) answers name config apps start)
        × Simulates name w j
            (update (plus server answers) answers name config apps)
            (update (cells server answers) answers name config apps)
        × Simulates name w j
            (delete_session (plus server answers) answers name)
            (delete_session (cells server answers) answers name)
        × Simulates name w j
            (start_route (plus server answers) answers name)
            (start_route (cells server answers) answers name)
        × Simulates name w j
            (stop_route (plus server answers) answers name)
            (stop_route (cells server answers) answers name)
        × Simulates name w j
            (logout_route (plus server answers) answers name)
            (logout_route (cells server answers) answers name)
        × Simulates name w j
            (restart (plus server answers) answers name)
            (restart (cells server answers) answers name)
        × Simulates name w j
            (deprecated_start (plus server answers) answers name config)
            (deprecated_start (cells server answers) answers name config)
  handlers_simulate config apps start w j = (
    simulate (create-Refines config apps start) w j,
    simulate (update-Refines config apps) w j,
    simulate delete_session-Refines w j,
    simulate start_route-Refines w j,
    simulate stop_route-Refines w j,
    simulate logout_route-Refines w j,
    simulate restart-Refines w j,
    simulate (deprecated_start-Refines config) w j,
  )
