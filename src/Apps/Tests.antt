-- ===== src/Apps/Tests.antt =====
-- Runs of the services of apps on a table of rows, and instances of the theorems.
use aira_relay.Base.{
  ℕ, take, drop, Bool, true, false, if◌then◌else◌, none, some, List, [], ◌∷◌, Text, codes, text_eq,
  contains, is_some, All, text_eq_iff, ◌≡◌, ◌≢◌, ap, refl, arith,
}
use aira_relay.Base.Results.{Error, Result, ok, err, M, pure}
use aira_relay.Manager.Samples.{answers}
use aira_relay.Manager.Controller.{SessionManager}
use aira_relay.Apps.{chatwoot, calls, name_eq, App, Row, find_id, apps, has_app}
use aira_relay.Apps.Repository.{
  Store, deserialize, deserialize_enabled, get_by_id, get_all_by_session, new_row, save, changed,
  update_row,
}
use aira_relay.Apps.Service.{
  find_app, remove_by_session, Services, returns, call, check_session_exists, get_app_service,
  require_service, list_apps, choose_id, save_app, create_checked, create_found, create_app,
  update_checked, update_saved, update_app, delete_app,
}
use aira_relay.Apps.Syncing.{
  sync_id, upsert_each, delete_others, sync_session_apps, enabled_service, AppsService,
}
use aira_relay.Apps.Routes.{create_route, update_route, delete_route}
use aira_relay.Apps.Samples.{list_table}
use aira_relay.Apps.Untouched.{Untouched}
use aira_relay.Apps.Isolation.{apps_isolated}
use aira_relay.Apps.Kinds.{OneOfEach, one_app_of_each_kind}
use aira_relay.Apps.Synced.{Kept}
use aira_relay.Apps.Exact.{sync_session_apps_lem}
use aira_relay.Apps.Replacing.{sync-replaced}
use aira_relay.Apps.Creating.{create_app-calls}
use aira_relay.Apps.Paging.{iterate}
use aira_relay.Apps.Paged.{up_to, iterate_lem}

abbrev services : Services
services = record {
  runtime = some apps;
  chatwoot_service = true;
  calls_service = true;
  chatwoot_answers = λ h. true;
  generated = λ i. codes "app_01";
}

abbrev exists : Text → M (Unit {0}) Bool
exists name = pure true

abbrev calls_app : App
calls_app = record {
  id = [];
  session = codes "a";
  app = calls;
  enabled = none;
  config = codes "{}";
}

abbrev helpdesk : App
helpdesk = record {
  id = codes "desk";
  session = codes "a";
  app = chatwoot;
  enabled = some false;
  config = codes "{}";
}

abbrev other_desk : App
other_desk = record helpdesk { id = codes "other" }

abbrev desk_row : Row
desk_row = record {
  id = codes "desk";
  session = codes "a";
  app = chatwoot;
  enabled = true;
  config = codes "[]";
}

none_there : (k : Text) → contains [] k ≡ false
unfolding contains
none_there k = refl

abbrev W : Type 0
W = Unit {0} × Store list_table

abbrev start : W
start = (tt, record { rows = (desk_row ∷ [], (none_there desk_row.id, tt)); hooks = []; made = 0 })

abbrev given : List App
given = calls_app ∷ helpdesk ∷ []

abbrev synced : W × Result (Unit {0})
synced = sync_session_apps list_table services exists (codes "a") given start

-- The helpdesk app stays as it was, disabled now, and the app for calls gets a generated id.
sync_given : synced.1 ≡ ok tt
unfolding sync_session_apps list_apps get_all_by_session upsert_each delete_others sync_id
    update_app check_session_exists get_by_id update_saved create_app choose_id create_found
    create_checked require_service get_app_service call returns save_app save new_row update_checked
    update_row changed deserialize deserialize_enabled contains has_app name_eq text_eq
sync_given = refl

sync_answer : ◌≡◌ {A = W × Result (Unit {0})} synced (synced.0, ok tt)
sync_answer = ap (λ (r : Result (Unit {0})). (synced.0, r)) sync_given

sync_session_apps_lem_example :
    All (λ a. (i : Text) × Kept list_table (codes "a") synced.0.1.rows a i) given
    × ((i : Text) (r : Row)
        → find_id i synced.0.1.rows.0 ≡ some r
        → r.session ≡ codes "a"
        → is_some (find_app r.app given) ≡ true)
    × ((s : Text) → codes "a" ≢ s → Untouched list_table s start.1.rows synced.0.1.rows)
sync_session_apps_lem_example =
    sync_session_apps_lem list_table services exists (codes "a") given start synced.0
      (tt, ((cc, tt), tt)) sync_answer

sync-replaced_example :
    ((e : Error) × ((sync_session_apps list_table services exists
          (codes "a")
          (other_desk ∷ [])
          start).1
        ≡ err e))
    × ((sync_session_apps list_table services exists (codes "a") (other_desk ∷ []) start).0.1.rows
        ≡ start.1.rows)
unfolding text_eq
sync-replaced_example =
    sync-replaced list_table services exists (codes "a") other_desk (codes "desk") desk_row start
      refl refl refl refl refl

-- One row has no other of its kind.
one_of_each : OneOfEach list_table start.1.rows
one_of_each i j a b f g s k =
    ground (arith, text_eq_iff (codes "desk") i, text_eq_iff (codes "desk") j)

one_app_of_each_kind_example :
    OneOfEach list_table (create_app list_table services exists calls_app start).0.1.rows
    × OneOfEach list_table (update_app list_table services exists true calls_app start).0.1.rows
    × OneOfEach list_table (update_app list_table services exists false calls_app start).0.1.rows
    × OneOfEach list_table (delete_app list_table services exists (codes "desk") start).0.1.rows
    × OneOfEach list_table (remove_by_session list_table services exists (codes "a") start).0.1.rows
    × OneOfEach list_table synced.0.1.rows
one_app_of_each_kind_example =
    one_app_of_each_kind list_table services exists calls_app (codes "desk") (codes "a") given start
      one_of_each

-- A session manager that knows every session and runs none.
abbrev manager : SessionManager (Unit {0})
manager = record {
  exists = exists;
  is_running = λ name. pure false;
  upsert = λ name config. pure tt;
  delete = λ name. pure tt;
  start = λ name. pure none;
  stop = λ name silent. pure tt;
  logout = λ name. pure tt;
  unpair = λ name. pure tt;
  assign = λ name. pure tt;
  unassign = λ name. pure tt;
}

abbrev service : AppsService W
service = enabled_service list_table services exists

abbrev only_b : Text → Bool
only_b name = text_eq name (codes "b")

apps_isolated_example :
    Untouched list_table
      (codes "a")
      start.1.rows
      (create_route manager answers service only_b other_desk start).0.1.rows
    × Untouched list_table
        (codes "a")
        start.1.rows
        (update_route manager answers service only_b (codes "desk") other_desk start).0.1.rows
    × Untouched list_table
        (codes "a")
        start.1.rows
        (delete_route manager answers service only_b (codes "desk") start).0.1.rows
unfolding text_eq
apps_isolated_example =
    apps_isolated list_table services manager answers only_b (codes "a") refl (codes "desk")
      other_desk start

-- The session "b" does not exist.
abbrev not_there : Text → M (Unit {0}) Bool
not_there name = pure false

abbrev calls_of_b : App
calls_of_b = record calls_app { id = codes "c1"; session = codes "b" }

create_app-calls_example :
    ((create_app list_table services not_there calls_of_b start).1 ≡ ok (some calls_of_b))
    × ((create_app list_table services not_there calls_of_b start).0.0 ≡ tt)
    × ((i : Text)
        → find_id i (create_app list_table services not_there calls_of_b start).0.1.rows.0 ≡ (
            if text_eq (codes "c1") i then some (new_row calls_of_b) else find_id i start.1.rows.0))
unfolding text_eq get_all_by_session
create_app-calls_example =
    create_app-calls list_table services not_there calls_of_b refl refl tt tt start.1 false refl
      refl refl refl

abbrev numbers : List ℕ
numbers = 5 ∷ 6 ∷ 7 ∷ 8 ∷ []

-- Pages of two.
abbrev two_from : ℕ → List ℕ
two_from p = take 2 (drop p numbers)

iterate_lem_example : iterate (some 3) two_from 5 0 ≡ some (up_to (some 3) 0 (drop 0 numbers))
iterate_lem_example = iterate_lem (some 3) two_from 1 numbers (λ p. refl) 5 0 refl (omega arith)

iterate_run : iterate (some 3) two_from 5 0 ≡ some (5 ∷ 6 ∷ 7 ∷ [])
unfolding iterate
iterate_run = refl

-- A maximum that is reached from the start still lets one record through.
iterate_reached_run : iterate (some 0) two_from 5 0 ≡ some (5 ∷ [])
unfolding iterate
iterate_reached_run = refl
