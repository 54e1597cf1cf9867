-- ===== src/Manager/Tests.antt =====
-- Instances of the manager's theorems.
use aira_relay.Base.{
  ℕ, ◌+◌, true, false, ◌||◌, ◌&&◌, if◌then◌else◌, none, some, is_some, [], ◌∷◌, map, codes, text_eq,
  lookup, contains, ◌≡◌, ◌↔◌, refl, arith, ltb,
}
use mathlib.Core.Option
use aira_relay.Base.Results.{ok}
use aira_relay.Manager.{empty_config, World, ServerConfig}
use aira_relay.Manager.Operations.{
  is_running, start_session, stop_session, granted, restart_sessions,
}
use aira_relay.Manager.Controller.{
  plus, cells, create, update, delete_session, start_route, stop_route, logout_route, restart,
  deprecated_start,
}
use aira_relay.Manager.Cells.{view, Simulates, shared}
use aira_relay.Manager.Handlers.{handlers_simulate}
use aira_relay.Manager.Lifecycle.{empty_cell, UpdateKeeps, LogoutKeeps, RestartMakes}
use aira_relay.Manager.Lifecycle.Creation.{CreateMakes}
use aira_relay.Manager.Lifecycle.Routes.{
  delete_session_lem, update_lem, create_lem, logout_lem, restart_lem,
}
use aira_relay.Manager.Registry.{IsConsistent}
use aira_relay.Manager.Registry.Reachability.{Step, Reach, Reach-IsConsistent}
use aira_relay.Manager.Fleet.{restart_sessions_running}
use aira_relay.Manager.Waiting.{wait_until, HoldsAt, wait_until_iff}
use aira_relay.Base.{◌%◌, chain}
use aira_relay.Manager.{many}
use aira_relay.Manager.Repositories.{session_db_name}
use aira_relay.Manager.Settings.{nth, as_double, includes, trailing_number, get_proxy_config}
use aira_relay.Manager.Proxies.{name_number, get_proxy_config-many}
use aira_relay.Manager.Samples.{db, server, answers, ready, new_config, empty_world, world}

computing : Unit {0}
unfolding view lookup text_eq contains
computing = tt

handlers_simulate_example :
    Simulates
      (codes "a")
      world
      (codes "b")
      (create (plus server answers) answers (codes "a") (some new_config) true true)
      (create (cells server answers) answers (codes "a") (some new_config) true true)
    × Simulates
        (codes "a")
        world
        (codes "b")
        (update (plus server answers) answers (codes "a") (some new_config) true)
        (update (cells server answers) answers (codes "a") (some new_config) true)
    × Simulates
        (codes "a")
        world
        (codes "b")
        (delete_session (plus server answers) answers (codes "a"))
        (delete_session (cells server answers) answers (codes "a"))
    × Simulates
        (codes "a")
        world
        (codes "b")
        (start_route (plus server answers) answers (codes "a"))
        (start_route (cells server answers) answers (codes "a"))
    × Simulates
        (codes "a")
        world
        (codes "b")
        (stop_route (plus server answers) answers (codes "a"))
        (stop_route (cells server answers) answers (codes "a"))
    × Simulates
        (codes "a")
        world
        (codes "b")
        (logout_route (plus server answers) answers (codes "a"))
        (logout_route (cells server answers) answers (codes "a"))
    × Simulates
        (codes "a")
        world
        (codes "b")
        (restart (plus server answers) answers (codes "a"))
        (restart (cells server answers) answers (codes "a"))
    × Simulates
        (codes "a")
        world
        (codes "b")
        (deprecated_start (plus server answers) answers (codes "a") (some new_config))
        (deprecated_start (cells server answers) answers (codes "a") (some new_config))
handlers_simulate_example =
    handlers_simulate server answers (codes "a") (some new_config) true true world (codes "b")

delete_session_lem_example :
    let (v, r) = delete_session (plus server answers) answers (codes "b") world in
    (r ≡ ok tt)
    × (view (codes "b") v ≡ (
        if text_eq (codes "b") (codes "b")
        then empty_cell
        else shared (codes "b") empty_cell (codes "b") (view (codes "b") world)))
delete_session_lem_example = delete_session_lem server answers (codes "b") world (codes "b") refl

update_lem_example :
    let (v, r) = update (plus server answers) answers (codes "b") (some new_config) true world in
    UpdateKeeps server answers
      (codes "b")
      (some new_config)
      (view (codes "b") world)
      (view (codes "b") v, r)
    × (view (codes "a") v
        ≡ (if text_eq (codes "b") (codes "a") then view (codes "b") v else view (codes "a") world))
unfolding computing
update_lem_example =
    update_lem server answers (codes "b") world (codes "a") (some new_config) true empty_config refl
      (ready (codes "b"))

create_lem_example :
    let (v, r) = create (plus server answers) answers (codes "c") none true true world in
    CreateMakes server answers
      (codes "c")
      none
      true
      (view (codes "c") world)
      (view (codes "c") v, r)
    × (view (codes "a") v
        ≡ (if text_eq (codes "c") (codes "a") then view (codes "c") v else view (codes "a") world))
unfolding computing
create_lem_example =
    create_lem server answers (codes "c") world (codes "a") none true true refl refl (λ e. cc)
      (ready (codes "c"))

logout_lem_example :
    let (v, r) = logout_route (plus server answers) answers (codes "b") world in
    LogoutKeeps server answers (codes "b") (view (codes "b") world) (view (codes "b") v, r)
    × (view (codes "a") v ≡ (
        if text_eq (codes "b") (codes "a")
        then view (codes "b") v
        else shared (codes "b") (view (codes "b") v) (codes "a") (view (codes "a") world)))
unfolding computing
logout_lem_example =
    logout_lem server answers (codes "b") world (codes "a") empty_config refl (ready (codes "b"))

restart_lem_example :
    let (v, r) = restart (plus server answers) answers (codes "a") world in
    RestartMakes server answers (codes "a") (view (codes "a") world) (view (codes "a") v, r)
    × (view (codes "b") v
        ≡ (if text_eq (codes "a") (codes "b") then view (codes "a") v else view (codes "b") world))
unfolding computing
restart_lem_example =
    restart_lem server answers (codes "a") world (codes "b") empty_config refl (ready (codes "a"))

empty_world-IsConsistent : IsConsistent empty_world
empty_world-IsConsistent = record { distinct = tt; named = tt; merged = refl }

abbrev started_world : World db
started_world = (start_session server answers (codes "b") empty_world).0

Reach-IsConsistent_example :
    IsConsistent (stop_session server answers (codes "b") false started_world).0
Reach-IsConsistent_example = Reach-IsConsistent server empty_world-IsConsistent (
    Reach.next (Reach.next Reach.here (Step.start_step answers (codes "b")))
      (Step.stop_step answers (codes "b") false))

restart_sessions_running_example :
    is_running server answers
      (codes "a")
      (restart_sessions server answers (λ n. granted) true false (codes "b" ∷ []) world)
    ≡ (is_running server answers (codes "a") world
        || (((contains (codes "b" ∷ []) (codes "a") && true)
              || is_some (view (codes "a") world).config)
            && true))
restart_sessions_running_example =
    restart_sessions_running server answers (λ n. granted) false (codes "b" ∷ []) (codes "a") world
      (refl, (refl, tt))

-- A clock alone is the state, and the condition holds from 700 ms on.

wait_until_iff_example :
    (Option.map
        (λ p. p.1)
        (wait_until (λ (s : ℕ). s) (λ ms s. s + ms) (λ s. ltb 700 s) 500 2000 2002 0)
      ≡ some true)
    ↔ ((n : ℕ) × HoldsAt (λ (s : ℕ). s) (λ ms s. s + ms) (λ s. ltb 700 s) 500 2000 0 n 0)
wait_until_iff_example =
    wait_until_iff (λ (s : ℕ). s) (λ ms s. s + ms) (λ s. ltb 700 s) (λ ms s. omega arith) 500 2000 0
      (omega arith)

-- Three proxies; a session's name ends with its number.
abbrev proxied : ServerConfig
proxied = record server {
  proxy_server = many (codes "p0" ∷ codes "p1" ∷ codes "p2" ∷ []);
  proxy_index_prefix = some (codes "s");
}

get_proxy_config-many_example :
    let n = name_number proxied (codes "s4") in
    let chosen = chain (get_proxy_config proxied 0 (codes "s4")) (λ p. p.server) in
    (is_some chosen ≡ true)
    × (chosen ≡ nth (codes "p0" ∷ codes "p1" ∷ codes "p2" ∷ []) (if ltb 0 n then n % 3 else 0 % 3))
unfolding includes trailing_number
get_proxy_config-many_example =
    get_proxy_config-many proxied (codes "p0") (codes "p1" ∷ codes "p2" ∷ []) 0 (codes "s4") refl
      (omega arith)

-- 2^53 + 1 is no double, and the even one of its neighbours is 2^53.
as_double_run : as_double 9007199254740993 ≡ some 9007199254740992
unfolding as_double
as_double_run = refl

-- "Sales" and "sales" have one database.
session_db_name_run : session_db_name (codes "Sales") ≡ session_db_name (codes "sales")
unfolding session_db_name
session_db_name_run = refl
