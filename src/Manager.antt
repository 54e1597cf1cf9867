-- ===== src/Manager.antt =====
-- The session manager: data of waha-plus/src/plus/manager.plus.ts, core/abc/manager.abc.ts and the
-- repositories that it writes to. Its children model the operations, the REST handlers and what holds
-- of them.
pub mod Repositories
pub mod Settings
pub mod Operations
pub mod Waiting
pub mod Controller
pub mod Cells
pub mod Refinement
pub mod Handlers
pub mod Lifecycle
pub mod Registry
pub mod Fleet
pub mod Listing
pub mod Proxies
pub mod Samples
pub mod Tests
use aira_relay.Base.{
  ℕ, ◌≡◌, Bool, true, false, ◌&&◌, if◌then◌else◌, Option, none, some, List, Text, text_eq, lookup,
  keys,
}
use aira_relay.Session.{Session, MeInfo, Status}
use aira_relay.Jids.{IgnoreJidConfig}

pub record WebhookConfig : Type 0 where
  pub url : Text
  pub events : List Text

pub record ProxyConfig : Type 0 where
  pub server : Option Text
  pub username : Option Text
  pub password : Option Text

-- `SessionConfig.ignore`, where a field may be left out.
pub record IgnoreConfig : Type 0 where
  pub dm : Option Bool
  pub status : Option Bool
  pub groups : Option Bool
  pub channels : Option Bool
  pub broadcast : Option Bool

-- The parts of `SessionConfig` that the manager reads; `metadata` stands for the rest.
pub record SessionConfig : Type 0 where
  pub webhooks : Option (List WebhookConfig)
  pub proxy : Option ProxyConfig
  pub ignore : Option IgnoreConfig
  pub metadata : Option Text

abbrev pub empty_config : SessionConfig
empty_config = record { webhooks = none; proxy = none; ignore = none; metadata = none }

-- What the repositories use of a MongoDB collection whose documents are found by one key, with the
-- documented behaviour of each call: `findOne`, `replaceOne` with `upsert`, `deleteOne` and
-- `deleteMany` with a further condition on the document, and `find().toArray()`.
pub record Collection (D : Type 0) : Type 1 where
  pub Docs : Type 0
  pub find_one : Docs → Text → Option D
  pub replace_one : Docs → Text → D → Docs
  pub delete_one : Docs → Text → Docs
  pub delete_many : Docs → Text → (D → Bool) → Docs
  pub find : Docs → List (Text × D)
  pub find_one-replace_one :
      (d : Docs) (k : Text) (v : D) (j : Text)
      → find_one (replace_one d k v) j ≡ (if text_eq k j then some v else find_one d j)
  pub find_one-delete_one :
      (d : Docs) (k j : Text)
      → find_one (delete_one d k) j ≡ (if text_eq k j then none else find_one d j)
  pub find_one-delete_many :
      (d : Docs) (k : Text) (p : D → Bool) (j : Text)
      → find_one (delete_many d k p) j ≡ (
          if text_eq k j
          then (elim (find_one d j) [ none ↦ none | some v ↦ if p v then none else some v ])
          else find_one d j)
  pub lookup-find : (d : Docs) (k : Text) → lookup k (find d) ≡ find_one d k

pub record Database : Type 1 where
  pub sessions : Collection SessionConfig
  pub mes : Collection MeInfo
  pub workers : Collection Text

-- `SessionParams` and the `WhatsappSession` that is made of them.
pub record Runtime : Type 0 where
  pub session : Session
  pub config : Option SessionConfig
  pub proxy : Option ProxyConfig
  pub ignore : IgnoreJidConfig
  pub webhooks : List WebhookConfig

-- The manager: the sessions in memory, the sessions whose events are merged into the stream of all
-- events, and the database. `auth` tells which sessions' databases, by their names, hold
-- credentials of the engine.
pub record World (db : Database) : Type 0 where
  pub runtimes : List (Text × Runtime)
  pub merged : List Text
  pub configs : db.sessions.Docs
  pub mes : db.mes.Docs
  pub workers : db.workers.Docs
  pub auth : Text → Bool

pub data ProxyServers : Type 0 where
  no_proxy : ProxyServers
  single : Text → ProxyServers
  many : List Text → ProxyServers

-- What the manager reads of `WhatsappConfigService`.
pub record ServerConfig : Type 0 where
  pub worker_id : Text
  pub webhook : Option WebhookConfig
  pub proxy_server : ProxyServers
  pub proxy_index_prefix : Option Text
  pub proxy_username : Option Text
  pub proxy_password : Option Text
  pub ignore : IgnoreJidConfig

-- What the collaborators answer during one operation, by session: `engine_found` is the engine's
-- `GetSessionState`, `none` if the call fails; the others tell whether the call returns or throws.
pub record Answers : Type 0 where
  pub engine_found : Text → Option Bool
  pub media_ready : Text → Bool
  pub before_start : Text → Bool
  pub session_start : Text → Bool
  pub after_start : Text → Bool
  pub session_stop : Text → Bool
  pub remove_apps : Text → Bool
  pub sync_apps : Text → Bool
