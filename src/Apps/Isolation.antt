-- ===== src/Apps/Isolation.antt =====
-- Whose apps the handlers of waha-plus/src/apps/app_sdk/api/apps.controller.ts change.
use aira_relay.Base.{
  Bool, true, false, ◌&&◌, Option, none, some, Text, ◌≡◌, ◌≢◌, inl, inr, refl, arith, Bool-cases,
}
use aira_relay.Base.Results.{not_found, forbidden, Result, ◌>>=◌, ◌>>◌, require, when, pure}
use aira_relay.Base.Keeping.{through, require_then, when_then}
use aira_relay.Manager.{Answers}
use aira_relay.Manager.Controller.{SessionManager, restart}
use aira_relay.Apps.{App, AppsTable}
use aira_relay.Apps.Repository.{Store, deserialize, get_by_id}
use aira_relay.Apps.Service.{is_enabled, Services, get_app, create_app, update_app, delete_app}
use aira_relay.Apps.Changes.{first_of, upsert_app-UpsertedTo, delete_app-DeletedFrom}
use aira_relay.Apps.Creation.{create_app-CreatedAs}
use aira_relay.Apps.Syncing.{AppsService, enabled_service}
use aira_relay.Apps.Routes.{
  in_sessions, ids_agree, restart_if, create_route, found_app, may_update, update_route,
  delete_route,
}
use aira_relay.Apps.Untouched.{
  Untouched, refl-Untouched, create-Keeps, update-Keeps, update_found-Keeps, delete-Keeps,
}

module _ (table : AppsTable) (services : Services) {S : Type 0} (manager : SessionManager S)
    (answers : Answers) (can : Text → Bool) (s : Text) (cannot : can s ≡ false) where
  abbrev W : Type 0
  W = S × Store table

  abbrev service : AppsService W
  service = enabled_service table services manager.exists

  abbrev Unchanged : {A : Type 0} → table.Rows → W × Result A → Type 0
  Unchanged d x = Untouched table s d x.0.1.rows

  other : (session : Text) → can session ≡ true → session ≢ s
  other session h e = cc

  restart-Keeps :
      (change : Bool) (session : Text) (d : table.Rows) (u : W)
      → Untouched table s d u.1.rows
      → Unchanged d (restart_if manager answers service can change session u)
  restart-Keeps change session d u h =
      through (λ x. Unchanged d x) (λ x. Unchanged d x) (in_sessions (manager.is_running session))
        (λ running. when (running && change) (in_sessions (restart manager answers session))) u h
        (λ e v k. k)
        (λ running v k.
          when_then (λ x. Unchanged d x) (running && change)
            (in_sessions (restart manager answers session)) v (λ _. k) (λ _. k))

  -- What follows a change: the restart, and the answer.
  after_change :
      {A : Type 0} (change : Bool) (session : Text) (answer : A) (d : table.Rows) (u : W)
      → Untouched table s d u.1.rows
      → Unchanged d ((restart_if manager answers service can change session >> pure answer) u)
  after_change change session answer d u h =
      through (λ x. Unchanged d x) (λ x. Unchanged d x)
        (restart_if manager answers service can change session) (λ _. pure answer) u
        (restart-Keeps change session d u h) (λ e v k. k) (λ _ v k. k)

  create_route-Keeps :
      (app : App) (u : W) → Unchanged u.1.rows (create_route manager answers service can app u)
  unfolding create_route
  create_route-Keeps app u =
      let d = u.1.rows in
      let create = create_app table services manager.exists app in
      let rest = λ (result : Option App).
        restart_if manager answers service can (is_enabled app.enabled) app.session
        >> pure result in
      require_then (λ x. Unchanged d x) (can app.session) forbidden (create >>= rest) u
        (refl-Untouched table s d d refl)
        λ may.
          through (λ x. Unchanged d x) (λ x. Unchanged d x) create rest u
            (create-Keeps table services manager.exists s app d (create u) (other app.session may)
              (create_app-CreatedAs table services manager.exists app u))
            (λ e v k. k)
            (λ result v k. after_change (is_enabled app.enabled) app.session result d v k)

  update_answered-Keeps :
      (id : Text) (app : App) (existing : Option App) (u : W)
      → get_by_id id u.1 ≡ existing
      → may_update manager answers service can existing app ≡ true
      → Unchanged u.1.rows
          (update_app table services manager.exists true (record app { id = id }) u)
  unfolding deserialize
  update_answered-Keeps id app none u e may =
      let x = update_app table services manager.exists true (record app { id = id }) u in
      update-Keeps table services manager.exists s (record app { id = id }) u.1.rows x
        (other app.session may)
        (upsert_app-UpsertedTo table services manager.exists (record app { id = id }) u)
  update_answered-Keeps id app (some existing) u e may =
      let (r, f, g) = first_of table services manager.exists id existing u.1 e in
      let x = update_app table services manager.exists true (record app { id = id }) u in
      update_found-Keeps table services manager.exists s (record app { id = id }) r u.1.rows x f
        (other r.session (ground (arith, may)))
        (upsert_app-UpsertedTo table services manager.exists (record app { id = id }) u)

  update_route-Keeps :
      (id : Text) (app : App) (u : W)
      → Unchanged u.1.rows (update_route manager answers service can id app u)
  unfolding update_route get_app
  update_route-Keeps id app u =
      let d = u.1.rows in
      let update = update_app table services manager.exists true (record app { id = id }) in
      let rest = λ (result : Option App).
        restart_if manager answers service can true app.session >> pure result in
      let existing = get_by_id id u.1 in
      let kept = refl-Untouched table s d d refl in
      require_then (λ x. Unchanged d x) (may_update manager answers service can existing app)
        forbidden (require (ids_agree id app.id) not_found >> (update >>= rest)) u kept
        λ may.
          require_then (λ x. Unchanged d x) (ids_agree id app.id) not_found (update >>= rest) u kept
            λ _.
              through (λ x. Unchanged d x) (λ x. Unchanged d x) update rest u
                (update_answered-Keeps id app existing u refl may) (λ e v k. k)
                (λ result v k. after_change true app.session result d v k)

  delete_answered-Keeps :
      (id : Text) (existing : Option App) (u : W)
      → get_by_id id u.1 ≡ existing
      → Unchanged u.1.rows (
          (found_app manager answers service can existing
              >> (delete_app table services manager.exists id >>= λ app.
                  restart_if manager answers service can true app.session))
            u)
  unfolding deserialize
  delete_answered-Keeps id none u e = refl-Untouched table s u.1.rows u.1.rows refl
  delete_answered-Keeps id (some existing) u e =
      let d = u.1.rows in
      let (r, f, g) = first_of table services manager.exists id existing u.1 e in
      let delete = delete_app table services manager.exists id in
      let restart = λ (app : App). restart_if manager answers service can true app.session in
      elim (Bool-cases (can existing.session)) [
        | inl may ↦ rw may (
            through (λ x. Unchanged d x) (λ x. Unchanged d x) delete restart u
              (delete-Keeps table services manager.exists s id r d (delete u) f
                (other r.session (ground (arith, may)))
                (delete_app-DeletedFrom table services manager.exists id u))
              (λ e v k. k) (λ app v k. restart-Keeps true app.session d v k))
        | inr may_not ↦ rw may_not (refl-Untouched table s d d refl)
      ]

  delete_route-Keeps :
      (id : Text) (u : W) → Unchanged u.1.rows (delete_route manager answers service can id u)
  unfolding delete_route get_app
  delete_route-Keeps id u = delete_answered-Keeps id (get_by_id id u.1) u refl

  -- A request whose ability does not allow to use a session can neither add an app to that session,
  -- nor change or delete one of it, by any of the three handlers, whatever ids it names, whether it
  -- is answered or refused, and whatever the restart of another session does.
  pub apps_isolated :
      (id : Text) (app : App) (u : W)
      → Untouched table s u.1.rows (create_route manager answers service can app u).0.1.rows
        × Untouched table s u.1.rows (update_route manager answers service can id app u).0.1.rows
        × Untouched table s u.1.rows (delete_route manager answers service can id u).0.1.rows
  apps_isolated id app u =
      (create_route-Keeps app u, update_route-Keeps id app u, delete_route-Keeps id u)
