-- ===== src/Core/Lifecycle.antt =====
-- What the handlers of waha-plus/src/api/sessions.controller.ts do on the single-session manager of
-- waha-plus/src/core/manager.core.ts.
use aira_relay.Base.{
  ◌+◌, Bool, true, false, if◌then◌else◌, Option, some, chain, Text, text_eq, ◌≡◌, refl, arith, inl,
  inr, Bool-cases,
}
use mathlib.Core.Option
use aira_relay.Base.Results.{not_found, unprocessable, ok, err}
use aira_relay.Session.{Status, starting, failed, new_session, set_status, start, stop}
use aira_relay.Manager.{SessionConfig, Runtime, ServerConfig, Answers}
use aira_relay.Manager.Controller.{
  create, update, delete_session, start_route, stop_route, logout_route, restart,
}
use aira_relay.Manager.Lifecycle.{Ready}
use aira_relay.Core.{
  Slot, removed_slot, stopped_slot, running_slot, runtime_of, Core, default_name, only_default,
  core_exists, core_is_running, core_upsert, core_proxy, core_prepare, after_session_start,
  core_run, core_start_new, core_start, core_stop_slot, core_stop, core_logout, core_delete, core,
}

abbrev pub core_status : Core → Option Status
core_status c = Option.map (λ (r : Runtime). r.session.status) (runtime_of c.slot)

abbrev pub core_runtime_config : Core → Option SessionConfig
core_runtime_config c = chain (runtime_of c.slot) (λ r. r.config)

core_operations : Unit {0}
unfolding only_default core_exists core_is_running core_upsert core_prepare after_session_start
    core_run core_start_new core_start core_stop_slot core_stop core_logout core_delete new_session
    set_status start stop
core_operations = tt

module _ (server : ServerConfig) (answers : Answers) where
  -- Every request that changes another session than "default" is refused as unprocessable and changes
  -- nothing.
  pub other_name_refused :
      (name : Text) (config : Option SessionConfig) (apps begin : Bool) (c : Core)
      → text_eq name default_name ≡ false
      → let m = core server answers in
        (create m answers name config apps begin c ≡ (c, err unprocessable))
        × (update m answers name config apps c ≡ (c, err unprocessable))
        × (delete_session m answers name c ≡ (c, err unprocessable))
        × (start_route m answers name c ≡ (c, err unprocessable))
        × (stop_route m answers name c ≡ (c, err unprocessable))
        × (logout_route m answers name c ≡ (c, err unprocessable))
        × (restart m answers name c ≡ (c, err unprocessable))
  unfolding create update delete_session start_route stop_route logout_route restart core_operations
  other_name_refused name config apps begin c h =
      (rw h refl, rw h refl, rw h refl, rw h refl, rw h refl, rw h refl, rw h refl)

  -- The start of the stopped session "default", when its media storage, the engine and the apps' hook
  -- after the start answer: it succeeds. If the apps' hook before it answers too, the session starts,
  -- and the apps are told twice that it has; if that hook fails, the session is FAILED, and the apps
  -- are told once that it has started. Its proxy is that of its own configuration or none: the
  -- server's proxy, if there is one, is not used.
  pub start_route-core :
      (c : Core)
      → answers.media_ready default_name ≡ true
      → answers.session_start default_name ≡ true
      → answers.after_start default_name ≡ true
      → let k = record c { slot = stopped_slot } in
        let (d, r) = start_route (core server answers) answers default_name k in
        let before = answers.before_start default_name in
        (r ≡ ok tt)
        × (core_status d ≡ some (if before then starting else failed))
        × (core_runtime_config d ≡ c.config)
        × (chain (runtime_of d.slot) (λ r. r.proxy) ≡ chain c.config (λ g. g.proxy))
        × (d.after_starts ≡ c.after_starts + (if before then 2 else 1))
  unfolding start_route core_operations core_proxy default_name text_eq
  start_route-core c m s a = elim (Bool-cases (answers.before_start default_name)) [
    | inl b ↦ ground arith
    | inr b ↦ ground arith
  ]

  -- A session that was deleted and is created again without a start is not there: the creation
  -- succeeds and keeps the configuration, and the start after it does not find the session.
  pub create-core_removed :
      (config : Option SessionConfig) (c : Core)
      → let k = record c { slot = removed_slot } in
        let (d, r) = create (core server answers) answers default_name config false false k in
        (r ≡ ok tt)
        × (d.config ≡ config)
        × ((start_route (core server answers) answers default_name d).1 ≡ err not_found)
  unfolding create start_route core_operations default_name text_eq
  create-core_removed config c = (refl, refl, refl)

  -- Deleting the session "default" in any state and creating it again with a start, when every
  -- collaborator answers: both succeed, the session has the new configuration and starts with it.
  pub create-delete_session :
      (config : Option SessionConfig) (slot : Slot) (c : Core)
      → Ready answers default_name
      → answers.remove_apps default_name ≡ true
      → let (d, q) =
          delete_session (core server answers) answers default_name (record c { slot = slot }) in
        let (e, r) = create (core server answers) answers default_name config false true d in
        (q ≡ ok tt)
        × (r ≡ ok tt)
        × (core_status e ≡ some starting)
        × (core_runtime_config e ≡ config)
        × (e.config ≡ config)
        × (e.auth ≡ false)
  unfolding create delete_session core_operations core_proxy default_name text_eq
  create-delete_session config removed_slot c h a = ground arith
  create-delete_session config stopped_slot c h a = ground arith
  create-delete_session config (running_slot r) c h a = ground arith
