-- ===== src/Core/Tests.antt =====
-- Instances of the theorems on the single-session manager, with a server that has a proxy.
use aira_relay.Base.{true, false, none, some, codes, ◌≡◌, refl}
use aira_relay.Base.Results.{ok}
use aira_relay.Session.{starting}
use aira_relay.Manager.{ServerConfig, single, Answers, empty_config}
use aira_relay.Manager.Controller.{create, delete_session}
use aira_relay.Manager.Lifecycle.{Ready}
use aira_relay.Core.{stopped_slot, Core, default_name, core}
use aira_relay.Core.Lifecycle.{core_status, core_runtime_config, create-delete_session}

abbrev server : ServerConfig
server = record {
  worker_id = codes "w1";
  webhook = none;
  proxy_server = single (codes "proxy:3128");
  proxy_index_prefix = none;
  proxy_username = none;
  proxy_password = none;
  ignore = record {
    dm = false;
    status = true;
    groups = false;
    channels = false;
    broadcast = false;
  };
}

abbrev answers : Answers
answers = record {
  engine_found = λ k. none;
  media_ready = λ k. true;
  before_start = λ k. true;
  session_start = λ k. true;
  after_start = λ k. true;
  session_stop = λ k. true;
  remove_apps = λ k. true;
  sync_apps = λ k. true;
}

ready : Ready answers default_name
ready = record { media = refl; before = refl; engine = refl; after = refl; apps = refl }

abbrev begun : Core
begun = record { slot = stopped_slot; config = none; auth = true; after_starts = 0 }

create-delete_session_example :
    let (d, q) = delete_session (core server answers) answers default_name begun in
    let (e, r) =
      create (core server answers) answers default_name (some empty_config) false true d in
    (q ≡ ok tt)
    × (r ≡ ok tt)
    × (core_status e ≡ some starting)
    × (core_runtime_config e ≡ some empty_config)
    × (e.config ≡ some empty_config)
    × (e.auth ≡ false)
create-delete_session_example =
    create-delete_session server answers (some empty_config) stopped_slot begun ready refl
