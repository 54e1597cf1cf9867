-- ===== src/Core.antt =====
-- The single-session manager: `SessionManagerCore` of waha-plus/src/core/manager.core.ts, as another
-- implementation of the interface that the REST handlers use.
pub mod Lifecycle
pub mod Tests
use aira_relay.Base.{
  ℕ, ◌+◌, Bool, true, false, not, ◌&&◌, if◌then◌else◌, Option, none, some, is_some, chain, List, [],
  ◌∷◌, Text, codes, text_eq,
}
use aira_relay.Base.Results.{
  Error, not_found, unprocessable, internal, Result, ok, err, M, ◌>>=◌, ◌>>◌, pure, throw, modify,
  gets, require, when,
}
use aira_relay.Session.{
  Status, stopped, failed, is_failed, Session, new_session, set_status, start, stop, MeInfo,
}
use aira_relay.Manager.{SessionConfig, ProxyConfig, Runtime, ServerConfig, Answers}
use aira_relay.Manager.Settings.{get_proxy_config, get_webhooks, ignore_chats_config}
use aira_relay.Manager.Operations.{SessionDto, dto}
use aira_relay.Manager.Controller.{SessionManager}
use aira_relay.Manager.Listing.{SessionInfo, runtime_info}

-- `this.session`: undefined, null or a session.
pub data Slot : Type 0 where
  removed_slot stopped_slot : Slot
  running_slot : Runtime → Slot

abbrev pub runtime_of : Slot → Option Runtime
runtime_of (running_slot r) = some r
runtime_of _ = none

abbrev pub is_removed : Slot → Bool
is_removed removed_slot = true
is_removed _ = false

-- The manager; `auth` tells whether the store holds credentials, and `after_starts` counts the calls of
-- the apps' `afterSessionStart`.
pub record Core : Type 0 where
  pub slot : Slot
  pub config : Option SessionConfig
  pub auth : Bool
  pub after_starts : ℕ

unfoldable pub default_name : Text
default_name = codes "default"

module _ (server : ServerConfig) (answers : Answers) where
  unfoldable pub only_default : Text → M Core (Unit {0})
  unfolding default_name
  only_default name = require (text_eq name default_name) unprocessable

  unfoldable pub core_exists : Text → M Core Bool
  core_exists name = only_default name >> gets (λ c. not (is_removed c.slot))

  unfoldable pub core_is_running : Text → M Core Bool
  core_is_running name = only_default name >> gets (λ c. is_some (runtime_of c.slot))

  unfoldable pub core_upsert : Text → Option SessionConfig → M Core (Unit {0})
  core_upsert name config = only_default name >> modify (λ c. record c { config = config })

  -- `getProxyConfig`, of what `this.session` is at the call.
  unfoldable pub core_proxy : Core → Option ProxyConfig
  core_proxy c = elim (chain c.config (λ g. g.proxy)) [
    | some p ↦ some p
    | none ↦ if is_some (runtime_of c.slot) then get_proxy_config server 1 default_name else none
  ]

  unfoldable pub core_prepare : Text → Core → Runtime
  core_prepare name c =
      let fresh = new_session name in
      record {
        session = if answers.before_start name then fresh else set_status failed fresh;
        config = c.config;
        proxy = core_proxy c;
        ignore = ignore_chats_config server c.config;
        webhooks = get_webhooks server c.config;
      }

  -- `appsService.afterSessionStart`.
  unfoldable pub after_session_start : Text → M Core (Unit {0})
  after_session_start name = do
    modify (λ c. record c { after_starts = c.after_starts + 1 })
    require (answers.after_start name) internal

  -- The engine's start, and the apps' hook after it, for a session that has not failed.
  unfoldable pub core_run : Text → Runtime → M Core (Option SessionDto)
  core_run name r =
      if is_failed r.session.status
      then (do after_session_start name; pure (dto name r))
      else (let started = record r { session = start r.session } in
          do
            modify (λ c. record c { slot = running_slot started })
            require (answers.session_start name) internal
            after_session_start name
            after_session_start name
            pure (dto name started))

  unfoldable pub core_start_new : Text → M Core (Option SessionDto)
  core_start_new name c =
      let r = core_prepare name c in core_run name r (record c { slot = running_slot r })

  unfoldable pub core_start : Text → M Core (Option SessionDto)
  core_start name = do
    only_default name
    running ← gets (λ c. is_some (runtime_of c.slot))
    require (not running) unprocessable
    require (answers.media_ready name) internal
    core_start_new name

  unfoldable pub core_stop_slot : Text → Bool → Slot → M Core (Unit {0})
  core_stop_slot name silent (running_slot r) =
      if not (answers.session_stop name) && not silent
      then modify (λ c. record c { slot = running_slot (record r { session = stop r.session }) })
        >> throw internal
      else modify (λ c. record c { slot = stopped_slot })
  core_stop_slot name silent slot = pure tt

  unfoldable pub core_stop : Text → Bool → M Core (Unit {0})
  core_stop name silent = do
    only_default name
    slot ← gets (λ c. c.slot)
    core_stop_slot name silent slot

  unfoldable pub core_logout : Text → M Core (Unit {0})
  core_logout name = only_default name >> modify (λ c. record c { auth = false })

  unfoldable pub core_delete : Text → M Core (Unit {0})
  core_delete name = do
    only_default name
    require (answers.remove_apps name) internal
    modify (λ c. record c { slot = removed_slot; config = none })

  unfoldable pub core_get_session : Text → M Core Runtime
  core_get_session name = do
    only_default name
    slot ← gets (λ c. c.slot)
    elim slot [ running_slot r ↦ pure r | _ ↦ throw not_found ]

  -- There is no worker repository, so that `assign` and `unassign` do nothing; `unpair` catches the
  -- engine's errors.
  abbrev pub core : SessionManager Core
  core = record {
    exists = core_exists;
    is_running = core_is_running;
    upsert = core_upsert;
    delete = core_delete;
    start = core_start;
    stop = core_stop;
    logout = core_logout;
    unpair = λ name. pure tt;
    assign = λ name. pure tt;
    unassign = λ name. pure tt;
  }
