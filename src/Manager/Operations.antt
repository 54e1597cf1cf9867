-- ===== src/Manager/Operations.antt =====
-- The operations of `SessionManagerPlus` (waha-plus/src/plus/manager.plus.ts) and of its base class
-- (core/abc/manager.abc.ts). Logging, timers and the wiring of event streams other than the list of
-- merged sessions are left out.
use aira_relay.Base.{
  Bool, true, false, not, ◌&&◌, if◌then◌else◌, Option, none, some, is_some, get_or, List, [], ◌∷◌,
  Text, lookup, insert, remove, keys, length,
}
use aira_relay.Base.Results.{
  not_found, internal, ok, err, M, ◌>>◌, pure, throw, modify, require, attempt,
}
use aira_relay.Session.{
  Session, Status, failed, is_failed, is_stopped, MeInfo, new_session, set_status, start, stop,
}
use aira_relay.Manager.{
  SessionConfig, empty_config, Database, Runtime, World, ServerConfig, Answers,
}
use aira_relay.Manager.Repositories.{
  config_exists, save_config, get_config, delete_config, get_all_configs, remove_me, assign_worker,
  unassign_worker, remove_worker, sessions_of_worker, clean_auth,
}
use aira_relay.Manager.Settings.{session_proxy, get_webhooks, ignore_chats_config}

-- `SessionDTO`; `start` returns nothing when the session runs already.
pub record SessionDto : Type 0 where
  pub name : Text
  pub status : Status
  pub config : Option SessionConfig

abbrev pub dto : Text → Runtime → Option SessionDto
dto name r = some (record { name = name; status = r.session.status; config = r.config })

-- How `withLock` ends: the lock is taken and given back in time; it is not given within the time to wait
-- and nothing is done; or the work takes longer than the time to run, and goes on although the caller is
-- told of an error.
pub data Lock : Type 0 where
  granted refused overran : Lock

abbrev pub under_lock : {S : Type 0} → Lock → M S (Unit {0}) → M S (Unit {0})
under_lock granted m = m
under_lock refused m = throw internal
under_lock overran m = m >> throw internal

-- The account that the status event of a stop carries; a status that was told is not told again.
abbrev pub told_me : Session → Option MeInfo
told_me s = if is_stopped s.status then none else s.me

module _ {db : Database} (server : ServerConfig) (answers : Answers) where
  unfoldable pub is_running : Text → World db → Bool
  is_running name w = is_some (lookup name w.runtimes)

  unfoldable pub update_sessions : World db → World db
  update_sessions w = record w { merged = keys w.runtimes }

  unfoldable pub put_runtime : Text → Runtime → World db → World db
  put_runtime name r w = record w { runtimes = insert name r w.runtimes }

  unfoldable pub exists : Text → M (World db) Bool
  exists name w = if config_exists name w then (w, ok true) else elim (answers.engine_found name) [
    | some true ↦ (save_config name empty_config w, ok true)
    | _ ↦ (w, ok false)
  ]

  unfoldable pub upsert : Text → Option SessionConfig → M (World db) (Unit {0})
  upsert name config = modify (save_config name (get_or config empty_config))

  unfoldable pub delete : Text → M (World db) (Unit {0})
  delete name = do
    require (answers.remove_apps name) internal
    modify (delete_config name)
    modify (clean_auth name)
    modify (remove_me name)
    modify (remove_worker name)

  -- The session object that `start` makes, after the hook of the apps: when that throws, the session
  -- fails before it starts.
  unfoldable pub prepare : Text → World db → Runtime
  prepare name w =
      let config = get_config name w in
      let fresh = new_session name in
      record {
        session = if answers.before_start name then fresh else set_status failed fresh;
        config = config;
        proxy = session_proxy server (length w.runtimes) name config;
        ignore = ignore_chats_config server config;
        webhooks = get_webhooks server config;
      }

  -- `session.start()` and the hook of the apps after it.
  unfoldable pub run_engine : Text → Runtime → M (World db) (Option SessionDto)
  unfolding put_runtime
  run_engine name r w =
      if is_failed r.session.status
      then (w, ok (dto name r))
      else (let started = record r { session = start r.session } in
            do
              modify (put_runtime name started)
              require (answers.session_start name) internal
              require (answers.after_start name) internal
              pure (dto name started))
          w

  unfoldable pub start_new : Text → M (World db) (Option SessionDto)
  start_new name w =
      if not (answers.media_ready name)
      then (w, err internal)
      else let r = prepare name w in run_engine name r (update_sessions (put_runtime name r w))

  unfoldable pub start_session : Text → M (World db) (Option SessionDto)
  start_session name w = if is_running name w then (w, ok none) else start_new name w

  unfoldable pub drop_runtime : Text → World db → World db
  unfolding update_sessions
  drop_runtime name w = update_sessions (record w { runtimes = remove name w.runtimes })

  -- The handler of `listenEvents`.
  unfoldable pub on_session_status : Text → Option MeInfo → World db → World db
  on_session_status name me w = record w {
    mes = elim me [ none ↦ w.mes | some m ↦ db.mes.replace_one w.mes name m ];
  }

  -- `session.stop()` sets the status before it calls the engine, and tells it with the account, unless
  -- it was told already.
  unfoldable pub stop_session : Text → Bool → M (World db) (Unit {0})
  unfolding put_runtime drop_runtime on_session_status
  stop_session name silent w = elim (lookup name w.runtimes) [
    | none ↦ (w, ok tt)
    | some r ↦
        let told = on_session_status name (told_me r.session) w in
        let halted = put_runtime name (record r { session = stop r.session }) told in
        if not (answers.session_stop name) && not silent
        then (halted, err internal)
        else (drop_runtime name halted, ok tt)
  ]

  -- Errors of the engine are caught, and nothing of the manager changes.
  unfoldable pub unpair : Text → M (World db) (Unit {0})
  unpair name = pure tt

  unfoldable pub logout : Text → M (World db) (Unit {0})
  logout name = do modify (clean_auth name); modify (remove_me name)

  unfoldable pub assign : Text → M (World db) (Unit {0})
  assign name = modify (assign_worker name server.worker_id)

  unfoldable pub unassign : Text → M (World db) (Unit {0})
  unassign name = modify (unassign_worker name server.worker_id)

  unfoldable pub get_session : Text → M (World db) Runtime
  get_session name w = elim (lookup name w.runtimes) [
    | none ↦ (w, err not_found)
    | some r ↦ (w, ok r)
  ]

  -- What both loops do under the lock of a session: an error of the start is caught, one of the lock is
  -- not.
  unfoldable pub start_locked : (Text → Lock) → Text → M (World db) (Unit {0})
  start_locked lock name = under_lock (lock name) (attempt (start_session name))

  -- The loop of `restartStoppedSessions`, which ends with the first lock that fails.
  unfoldable pub restart_stopped : (Text → Lock) → List Text → M (World db) (Unit {0})
  restart_stopped lock [] = pure tt
  restart_stopped lock (name ∷ names) = start_locked lock name >> restart_stopped lock names

  -- The loop of `startPredefinedSessions`, which waits for no lock.
  unfoldable pub start_predefined : (Text → Lock) → List Text → World db → World db
  start_predefined lock [] w = w
  start_predefined lock (name ∷ names) w = start_predefined lock names (start_locked lock name w).0

  -- `restartSessions`: `all` and `own` are the two restart settings, `predefined` is
  -- `config.startSessions`, `lock` tells how the lock of each session ends. The stopped sessions are
  -- listed first and started last, after a second.
  unfoldable pub restart_sessions :
      (Text → Lock) → (all own : Bool) → List Text → World db → World db
  unfolding start_locked restart_stopped start_predefined
  restart_sessions lock all own predefined w =
      let stopped_sessions =
        if all
        then get_all_configs w
        else if own
        then sessions_of_worker server.worker_id w
        else [] in
      (restart_stopped lock stopped_sessions (start_predefined lock predefined w)).0

  unfoldable pub stop_each : List Text → World db → World db
  stop_each [] w = w
  stop_each (name ∷ names) w = stop_each names (stop_session name true w).0

  -- `beforeApplicationShutdown`, one session after the other.
  unfoldable pub before_application_shutdown : World db → World db
  unfolding stop_each
  before_application_shutdown w = stop_each (keys w.runtimes) w
