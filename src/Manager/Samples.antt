-- ===== src/Manager/Samples.antt =====
-- A database of lists, a server, and a state of the manager to run it on.
use aira_relay.Base.{
  Bool, true, false, not, if◌then◌else◌, none, some, List, [], ◌∷◌, Text, codes, text_eq,
  text_eq_iff, lookup, insert, remove, lookup-insert, lookup-remove, ◌≡◌, refl, arith, Option-cases,
  inl, inr,
}
use aira_relay.Session.{working, MeInfo}
use aira_relay.Manager.{
  SessionConfig, empty_config, Collection, Database, Runtime, World, ServerConfig, no_proxy,
  Answers,
}
use aira_relay.Manager.Lifecycle.{Ready}

-- A collection as the list of its documents.
abbrev pub delete_some {ℓ} : {D : Type ℓ} → List (Text × D) → Text → (D → Bool) → List (Text × D)
delete_some d k p = elim (lookup k d) [ none ↦ d | some v ↦ if p v then remove k d else d ]

pub delete_some_lem :
    {D : Type 0} (d : List (Text × D)) (k : Text) (p : D → Bool) (j : Text)
    → lookup j (delete_some d k p) ≡ (
        if text_eq k j
        then (elim (lookup j d) [ none ↦ none | some v ↦ if p v then none else some v ])
        else lookup j d)
delete_some_lem d k p j = elim (Option-cases (lookup k d)) [
  | inl e ↦ ground (arith, text_eq_iff k j)
  | inr (v, e) ↦ ground (arith, text_eq_iff k j, lookup-remove k j d)
]

abbrev pub listed : (D : Type 0) → Collection D
listed D = record {
  Docs = List (Text × D);
  find_one = λ d k. lookup k d;
  replace_one = λ d k v. insert k v d;
  delete_one = λ d k. remove k d;
  delete_many = λ d k p. delete_some d k p;
  find = λ d. d;
  find_one-replace_one = λ d k v j. lookup-insert k j v d;
  find_one-delete_one = λ d k j. lookup-remove k j d;
  find_one-delete_many = λ d k p j. delete_some_lem d k p j;
  lookup-find = λ d k. refl;
}

abbrev pub db : Database
db = record { sessions = listed SessionConfig; mes = listed MeInfo; workers = listed Text }

abbrev pub server : ServerConfig
server = record {
  worker_id = codes "w1";
  webhook = none;
  proxy_server = no_proxy;
  proxy_index_prefix = none;
  proxy_username = none;
  proxy_password = none;
  ignore = record {
    dm = false;
    status = true;
    groups = false;
    channels = false;
    broadcast = false;
  };
}

-- Everything answers, but for the engine's `StopSession` on "b".
abbrev pub answers : Answers
answers = record {
  engine_found = λ k. some false;
  media_ready = λ k. true;
  before_start = λ k. true;
  session_start = λ k. true;
  after_start = λ k. true;
  session_stop = λ k. not (text_eq k (codes "b"));
  remove_apps = λ k. true;
  sync_apps = λ k. true;
}

pub ready : (name : Text) → Ready answers name
ready name = record { media = refl; before = refl; engine = refl; after = refl; apps = refl }

abbrev pub new_config : SessionConfig
new_config = record { webhooks = none; proxy = none; ignore = none; metadata = some (codes "m") }

abbrev pub runtime : Text → Runtime
runtime name = record {
  session = record {
    name = name;
    status = working;
    presence = none;
    unpairing = false;
    me = none;
    qr = none;
    last_activity = none;
    timer = none;
    published = working ∷ [];
  };
  config = some empty_config;
  proxy = none;
  ignore = server.ignore;
  webhooks = [];
}

abbrev pub empty_world : World db
empty_world = record {
  runtimes = [];
  merged = [];
  configs = [];
  mes = [];
  workers = [];
  auth = λ k. false;
}

-- Session "a" is kept, "b" runs.
abbrev pub world : World db
world = record {
  runtimes = (codes "b", runtime (codes "b")) ∷ [];
  merged = codes "b" ∷ [];
  configs = (codes "a", empty_config) ∷ (codes "b", empty_config) ∷ [];
  mes = [];
  workers = (codes "b", codes "w1") ∷ [];
  auth = λ k. text_eq k (codes "b");
}
