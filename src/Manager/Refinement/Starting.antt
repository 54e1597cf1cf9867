-- ===== src/Manager/Refinement/Starting.antt =====
-- The start of a session refines that of its cell: `start` of waha-plus/src/plus/manager.plus.ts.
use aira_relay.Base.{
  false, is_some, Text, text_eq, text_eq_refl, insert, lookup-insert, ◌≡◌, refl, sym, arith,
}
use aira_relay.Session.{start}
use aira_relay.Manager.{Database, Runtime, World, ServerConfig, Answers}
use aira_relay.Manager.Operations.{
  is_running, prepare, run_engine, start_new, start_session, put_runtime, update_sessions,
}
use aira_relay.Manager.Cells.{
  Cell, erase, view, cell_prepare, cell_run, cell_start, Refines, shared, same_auth, shared_keeps,
}

module _ {db : Database} (server : ServerConfig) (answers : Answers) (name : Text) where
  -- The start of a prepared session, in the manager and in its cell.
  module _ (r : Runtime) where
    run_result :
        (w : World db) (c : Cell)
        → (run_engine server answers name r w).1 ≡ (cell_run server answers name (erase r) c).1
    unfolding run_engine cell_run
    run_result w c = ground arith

    run_inside :
        (w : World db)
        → let placed = update_sessions server answers (put_runtime server answers name r w) in
          view name (run_engine server answers name r placed).0
          ≡ (cell_run server answers name (erase r) (view name w)).0
    unfolding run_engine cell_run view update_sessions
    run_inside w =
        let started = record r { session = start r.session } in
        ground (
          arith,
          text_eq_refl name,
          lookup-insert name name r w.runtimes,
          lookup-insert name name started (insert name r w.runtimes),
        )

    run_outside :
        (w : World db) (j : Text)
        → text_eq name j ≡ false
        → let placed = update_sessions server answers (put_runtime server answers name r w) in
          view j (run_engine server answers name r placed).0
          ≡ shared name (view name (run_engine server answers name r placed).0) j (view j w)
    unfolding run_engine view update_sessions shared
    run_outside w j d =
        let started = record r { session = start r.session } in
        ground (
          arith,
          same_auth w.auth name j,
          lookup-insert name j r w.runtimes,
          lookup-insert name j started (insert name r w.runtimes),
        )

  erase-prepare :
      (w : World db)
      → erase (prepare server answers name w) ≡ cell_prepare server answers name (view name w)
  unfolding prepare cell_prepare view
  erase-prepare w = refl

  pub is_running-view :
      (w : World db) → is_running server answers name w ≡ is_some (view name w).runtime
  unfolding is_running view
  is_running-view w = ground arith

  pub start_session-Refines :
      Refines {db = db} name (start_session server answers name) (cell_start server answers name)
  unfolding start_session start_new cell_start
  start_session-Refines = record {
    result = λ w. ground (
      arith,
      is_running-view w,
      erase-prepare w,
      run_result (prepare server answers name w)
          (update_sessions server answers
            (put_runtime server answers name (prepare server answers name w) w))
          (view name w),
    );
    inside = λ w.
        ground
          (arith, is_running-view w, erase-prepare w, run_inside (prepare server answers name w) w);
    outside = λ w j d. ground (
      arith,
      sym (shared_keeps name j (view name w) w refl),
      run_outside (prepare server answers name w) w j,
    );
  }
