-- ===== src/Manager/Fleet.antt =====
-- Starting and stopping many sessions: `restartSessions`, `restartStoppedSessions` and
-- `beforeApplicationShutdown` of waha-plus/src/plus/manager.plus.ts, `startPredefinedSessions` of
-- core/abc/manager.abc.ts.
use aira_relay.Base.{
  Bool, true, ◌&&◌, ◌||◌, is_some, List, [], ◌∷◌, Text, text_eq, text_eq_iff, contains,
  contains-keys, All, false, ◌≡◌, refl, ap, ◌∙◌, arith, inl, inr, Bool-cases,
}
use aira_relay.Base.Results.{attempt}
use aira_relay.Manager.{Database, World, ServerConfig, Answers}
use aira_relay.Manager.Repositories.{get_all_configs}
use aira_relay.Manager.Operations.{
  start_session, Lock, granted, refused, overran, under_lock, start_locked, restart_stopped,
  start_predefined, restart_sessions, is_running,
}
use aira_relay.Manager.Cells.{Cell, view, shared, cell_start, cell_run}
use aira_relay.Manager.Refinement.Starting.{start_session-Refines, is_running-view}

module _ (server : ServerConfig) (answers : Answers) (name : Text) where
  -- A start leaves the session in memory if its media storage can be set up, whether the engine and
  -- the apps answer or not.
  cell_start_running :
      (c : Cell)
      → is_some (cell_start server answers name c).0.runtime
        ≡ (is_some c.runtime || answers.media_ready name)
  unfolding cell_start cell_run
  cell_start_running c = ground arith

-- The lock lets the start run.
abbrev pub runs : Lock → Bool
runs granted = true
runs refused = false
runs overran = true

left_running :
    {db : Database} (name k : Text) (v w : World db)
    → view k v ≡ shared name (view name v) k (view k w)
    → (view k v).runtime ≡ (view k w).runtime
unfolding shared
left_running name k v w e = ap (λ c. c.runtime) e

module _ {db : Database} (server : ServerConfig) (answers : Answers) where
  start_running :
      (name k : Text) (w : World db)
      → is_running server answers k (start_session server answers name w).0
        ≡ (is_running server answers k w || (text_eq name k && answers.media_ready name))
  start_running name k w =
      let v = (start_session server answers name w).0 in
      let h = start_session-Refines {db = db} server answers name in
      elim (Bool-cases (text_eq name k)) [
        | inl e ↦
            rw
              (
                e,
                ← (text_eq_iff name k).0 e,
                is_running-view server answers name v,
                is_running-view server answers name w,
                h.inside w,
              )
              (cell_start_running server answers name (view name w))
        | inr e ↦ ground (
          arith,
          is_running-view server answers k v,
          is_running-view server answers k w,
          left_running name k v w (h.outside w k e),
        )
      ]

  locked_running :
      (lock : Lock) (name k : Text) (w : World db)
      → is_running server answers k
          (under_lock lock (attempt (start_session server answers name)) w).0
        ≡ (is_running server answers k w
            || (text_eq name k && (runs lock && answers.media_ready name)))
  locked_running granted name k w = ground (arith, start_running name k w)
  locked_running refused name k w = ground arith
  locked_running overran name k w = ground (arith, start_running name k w)

  -- The sessions that start whatever happens to the others are in memory afterwards, beside those that
  -- were, if their locks let them start and their media storage can be set up.
  start_predefined_running :
      (lock : Text → Lock) (names : List Text) (k : Text) (w : World db)
      → is_running server answers k (start_predefined server answers lock names w) ≡ (
          is_running server answers k w
          || (contains names k && runs (lock k) && answers.media_ready k))
  unfolding start_predefined start_locked contains
  start_predefined_running lock [] k w = ground arith
  start_predefined_running lock (name ∷ names) k w = ground (
    arith,
    start_predefined_running lock names k (start_locked server answers lock name w).0,
    locked_running (lock name) name k w,
    text_eq_iff name k,
    ap answers.media_ready,
    ap (λ n. runs (lock n)),
  )

  -- Where every lock is given and given back in time, so are those that start one after the other.
  restart_stopped_running :
      (lock : Text → Lock) (names : List Text) (k : Text) (w : World db)
      → All (λ n. lock n ≡ granted) names
      → is_running server answers k (restart_stopped server answers lock names w).0
        ≡ (is_running server answers k w || (contains names k && answers.media_ready k))
  unfolding restart_stopped start_locked contains
  restart_stopped_running lock [] k w h = ground arith
  restart_stopped_running lock (name ∷ names) k w h = rw (h.0) (
      ground (
        arith,
        restart_stopped_running lock names k (start_session server answers name w).0 h.1,
        start_running name k w,
        text_eq_iff name k,
        ap answers.media_ready,
      ))

  contains-get_all_configs :
      (k : Text) (w : World db) → contains (get_all_configs w) k ≡ is_some (view k w).config
  unfolding view
  contains-get_all_configs k w =
      contains-keys k (db.sessions.find w.configs)
      ∙ ap is_some (db.sessions.lookup-find w.configs k)

  -- A worker that restarts all sessions has in memory afterwards what it had, every session that is
  -- configured to start and whose lock lets it, and every session that has a configuration in the
  -- database, if their media storage can be set up: a session whose engine or apps fail keeps no other
  -- session from starting. The locks of the sessions in the database are given, and given back in time.
  pub restart_sessions_running :
      (lock : Text → Lock) (own : Bool) (predefined : List Text) (k : Text) (w : World db)
      → All (λ n. lock n ≡ granted) (get_all_configs w)
      → is_running server answers k (restart_sessions server answers lock true own predefined w) ≡ (
          is_running server answers k w
          || (((contains predefined k && runs (lock k)) || is_some (view k w).config)
              && answers.media_ready k))
  unfolding restart_sessions
  restart_sessions_running lock own predefined k w h = ground (
    arith,
    restart_stopped_running lock (get_all_configs w) k
        (start_predefined server answers lock predefined w) h,
    start_predefined_running lock predefined k w,
    contains-get_all_configs k w,
  )

  -- The first lock that is not given ends the restarts: the sessions after it are not started.
  pub restart_stopped-refused :
      (lock : Text → Lock) (name : Text) (names : List Text) (w : World db)
      → lock name ≡ refused
      → (restart_stopped server answers lock (name ∷ names) w).0 ≡ w
  unfolding restart_stopped start_locked
  restart_stopped-refused lock name names w h = rw (h) refl
