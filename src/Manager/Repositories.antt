-- ===== src/Manager/Repositories.antt =====
-- The repositories of waha-plus/src/plus/storage/mongo: MongoSessionConfigRepository.ts,
-- MongoSessionMeRepository.ts, MongoSessionWorkerRepository.ts, MongoSessionAuthRepository.ts and the names
-- of databases of MongoStore.ts.
use aira_relay.Base.{
  ℕ, ◌+◌, Bool, true, false, ◌&&◌, ◌||◌, leb, ◌==◌, if◌then◌else◌, Option, is_some, List, [], ◌∷◌,
  ◌++◌, Text, text_eq, keys, filter,
}
use aira_relay.Session.{MeInfo}
use aira_relay.Manager.{SessionConfig, Database, World}

-- `toLowerCase` and then `replace(/[^a-z0-9-]/g, '_')` of one code unit. Beside the letters of ASCII, two
-- code units have a lower case with a letter of ASCII: the Kelvin sign, and the capital I with a dot.
unfoldable pub slug_code : ℕ → Text
slug_code c =
    if leb b'A' c && leb c b'Z'
    then (c + 32) ∷ []
    else if (leb b'a' c && leb c b'z') || (leb b'0' c && leb c b'9') || c == b'-'
    then c ∷ []
    else if c == 8490
    then b'k' ∷ []
    else if c == 304
    then b'i' ∷ b'_' ∷ []
    else b'_' ∷ []

-- `MongoStore.getSessionDbName`, after the prefix that all sessions share.
unfoldable pub session_db_name : Text → Text
unfolding slug_code
session_db_name [] = []
session_db_name (c ∷ s) = slug_code c ++ session_db_name s

module _ {db : Database} where
  -- `MongoSessionConfigRepository.exists`.
  abbrev pub config_exists : Text → World db → Bool
  config_exists name w = is_some (db.sessions.find_one w.configs name)

  abbrev pub save_config : Text → SessionConfig → World db → World db
  save_config name config w = record w { configs = db.sessions.replace_one w.configs name config }

  abbrev pub get_config : Text → World db → Option SessionConfig
  get_config name w = db.sessions.find_one w.configs name

  abbrev pub delete_config : Text → World db → World db
  delete_config name w = record w { configs = db.sessions.delete_one w.configs name }

  abbrev pub get_all_configs : World db → List Text
  get_all_configs w = keys (db.sessions.find w.configs)

  abbrev pub upsert_me : Text → MeInfo → World db → World db
  upsert_me name me w = record w { mes = db.mes.replace_one w.mes name me }

  abbrev pub get_me : Text → World db → Option MeInfo
  get_me name w = db.mes.find_one w.mes name

  abbrev pub remove_me : Text → World db → World db
  remove_me name w = record w { mes = db.mes.delete_one w.mes name }

  abbrev pub assign_worker : Text → Text → World db → World db
  assign_worker name worker w = record w { workers = db.workers.replace_one w.workers name worker }

  abbrev pub unassign_worker : Text → Text → World db → World db
  unassign_worker name worker w = record w {
    workers = db.workers.delete_many w.workers name (λ v. text_eq v worker);
  }

  abbrev pub remove_worker : Text → World db → World db
  remove_worker name w = record w { workers = db.workers.delete_many w.workers name (λ v. true) }

  -- `getSessionsByWorker`.
  abbrev pub sessions_of_worker : Text → World db → List Text
  sessions_of_worker worker w = keys (filter (λ e. text_eq e.1 worker) (db.workers.find w.workers))

  -- `clean` drops the session's database.
  abbrev pub clean_auth : Text → World db → World db
  clean_auth name w = record w {
    auth = λ k. if text_eq (session_db_name name) k then false else w.auth k;
  }
