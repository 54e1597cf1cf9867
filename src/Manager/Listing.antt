-- ===== src/Manager/Listing.antt =====
-- The listing of sessions: `getRuntimeSessions`, `getOfflineSessions`, `getSessions` and
-- `getSessionInfo` of waha-plus/src/plus/manager.plus.ts. The information of the engine, which is
-- added to the answer of `getSessionInfo`, is left out.
pub mod Laws
use aira_relay.Base.{
  ℕ, Bool, true, false, if◌then◌else◌, Option, none, some, or_else, List, [], ◌∷◌, ◌++◌, map,
  filter, Text, text_eq, lookup, insert, keys,
}
use aira_relay.Session.{Session, Status, stopped, PresenceStatus, MeInfo}
use aira_relay.Manager.{SessionConfig, Database, Runtime, World}
use aira_relay.Manager.Repositories.{get_all_configs, get_config, get_me}
use aira_relay.Manager.Controller.{is_named}

pub record SessionInfo : Type 0 where
  pub name : Text
  pub status : Status
  pub config : Option SessionConfig
  pub me : Option MeInfo
  pub presence : Option PresenceStatus
  pub activity : Option ℕ
  pub assigned_worker : Option Text

abbrev pub runtime_info : Text → Runtime → SessionInfo
runtime_info name r = record {
  name = name;
  status = r.session.status;
  config = r.config;
  me = r.session.me;
  presence = r.session.presence;
  activity = r.session.last_activity;
  assigned_worker = none;
}

-- `names.filter((n) => n === name)`, if there is a name.
unfoldable pub named : Option Text → List Text → List Text
named none names = names
named (some name) names = if is_named name then filter (λ n. text_eq n name) names else names

-- `lodash.keyBy(sessions, 'name')`: a later entry takes the place of an earlier one.
unfoldable pub key_by : List SessionInfo → List (Text × SessionInfo) → List (Text × SessionInfo)
key_by [] d = d
key_by (s ∷ infos) d = key_by infos (insert s.name s d)

unfoldable pub runtime_infos : List Text → List (Text × Runtime) → List SessionInfo
runtime_infos [] d = []
runtime_infos (n ∷ names) d = elim (lookup n d) [
  | none ↦ runtime_infos names d
  | some r ↦ runtime_info n r ∷ runtime_infos names d
]

-- `sessions.length === 1`.
abbrev pub only_one : List SessionInfo → Option SessionInfo
only_one [] = none
only_one (s ∷ []) = some s
only_one (s ∷ _ ∷ _) = none

module _ {db : Database} where
  abbrev pub offline_info : World db → Text → SessionInfo
  offline_info w name = record {
    name = name;
    status = stopped;
    config = get_config name w;
    me = get_me name w;
    presence = none;
    activity = none;
    assigned_worker = none;
  }

  unfoldable pub get_runtime_sessions : Option Text → World db → List SessionInfo
  unfolding named runtime_infos
  get_runtime_sessions name w = runtime_infos (named name (keys w.runtimes)) w.runtimes

  unfoldable pub get_offline_sessions : Option Text → World db → List SessionInfo
  unfolding named
  get_offline_sessions name w = map (offline_info w) (named name (get_all_configs w))

  -- The entry of a session, with its worker.
  abbrev pub assigned : World db → SessionInfo → SessionInfo
  assigned w s = record s { assigned_worker = db.workers.find_one w.workers s.name }

  unfoldable pub get_sessions : Bool → World db → List SessionInfo
  unfolding get_runtime_sessions get_offline_sessions key_by
  get_sessions all w =
      let offline = if all then get_offline_sessions none w else [] in
      map (λ e. assigned w e.1) (key_by (offline ++ get_runtime_sessions none w) [])

  unfoldable pub get_session_info : Text → World db → Option SessionInfo
  unfolding get_runtime_sessions get_offline_sessions
  get_session_info name w =
      or_else (only_one (get_runtime_sessions (some name) w))
        (only_one (get_offline_sessions (some name) w))
