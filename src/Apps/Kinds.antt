-- ===== src/Apps/Kinds.antt =====
-- A session has one app of a kind at most: what the checks of `create` in
-- waha-plus/src/apps/app_sdk/services/AppsEnabledService.ts are for.
use aira_relay.Base.{
  Bool, true, false, not, Option, some, List, [], ◌∷◌, Text, text_eq_iff, contains, ◌≡◌, inl, inr,
  sym, subst, arith,
}
use aira_relay.Base.Results.{Result, ok, err, M, ◌>>◌, when, pure}
use aira_relay.Base.Keeping.{through, when_then}
use aira_relay.Apps.{App, Row, AppsTable}
use aira_relay.Apps.Repository.{
  Store, new_row, changed, of_session, get_all_by_session, delete_by_session,
}
use aira_relay.Apps.Service.{
  Services, list_apps, create_app, update_app, delete_app, remove_by_session,
}
use aira_relay.Apps.Rows.{Inserted, Updated, Deleted}
use aira_relay.Apps.Creation.{CreatedAs, create_app-CreatedAs}
use aira_relay.Apps.Changes.{
  UpdatedTo, upsert_app-UpsertedTo, update_app-UpdatedTo, DeletedFrom, delete_app-DeletedFrom,
}
use aira_relay.Apps.Syncing.{
  upsert_app, sync_app, upserted_id, upsert_each, delete_others, sync_session_apps,
}

module _ (table : AppsTable) where
  abbrev pub OneOfEach : table.Rows → Type 0
  OneOfEach d =
      (i j : Text) (a b : Row)
      → table.first d i ≡ some a
      → table.first d j ≡ some b
      → a.session ≡ b.session
      → a.app ≡ b.app
      → i ≡ j

  Inserted-OneOfEach :
      (app : App) (d e : table.Rows) → Inserted table app d e → OneOfEach d → OneOfEach e
  unfolding new_row
  Inserted-OneOfEach app d e h one i j a b f g s k = ground (
    arith,
    h.rows i,
    h.rows j,
    text_eq_iff app.id i,
    text_eq_iff app.id j,
    one i j a b,
    h.alone i a,
    h.alone j b,
  )

  Updated-OneOfEach :
      (app : App) (r : Row) (d e : table.Rows) → Updated table app r d e → OneOfEach d → OneOfEach e
  unfolding changed
  Updated-OneOfEach app r d e h one i j a b f g s k = ground (
    arith,
    h.rows i,
    h.rows j,
    h.found,
    h.same_app,
    h.same_session,
    text_eq_iff app.id i,
    text_eq_iff app.id j,
    one i j a b,
    one i app.id a r,
    one app.id j r b,
  )

  Deleted-OneOfEach : (r : Row) (d e : table.Rows) → Deleted table r d e → OneOfEach d → OneOfEach e
  Deleted-OneOfEach r d e h one i j a b f g s k = ground (arith, h.rows i, h.rows j, one i j a b)

  delete_where-OneOfEach :
      (d : table.Rows) (p : Row → Bool) → OneOfEach d → OneOfEach (table.delete_where d p)
  delete_where-OneOfEach d p one i j a b f g s k =
      ground (arith, table.first-delete_where d p i, table.first-delete_where d p j, one i j a b)

module _ (table : AppsTable) (services : Services) {S : Type 0} (exists : Text → M S Bool) where
  abbrev W : Type 0
  W = S × Store table

  abbrev Leaves : {A : Type 0} → W × Result A → Type 0
  Leaves x = OneOfEach table x.0.1.rows

  create-Leaves :
      (app : App) (d : table.Rows) (x : W × Result (Option App))
      → OneOfEach table d
      → CreatedAs table services exists app d x
      → Leaves x
  create-Leaves app d (v, err e) one h = subst (OneOfEach table) (sym h) one
  create-Leaves app d (v, ok o) one h =
      Inserted-OneOfEach table (record app { id = h.0 }) d v.1.rows h.3 one

  update-Leaves :
      (app : App) (d : table.Rows) (x : W × Result (Option App))
      → OneOfEach table d
      → UpdatedTo table services exists app d x
      → Leaves x
  update-Leaves app d (v, err e) one h = subst (OneOfEach table) (sym h) one
  update-Leaves app d (v, ok o) one h = Updated-OneOfEach table app h.0 d v.1.rows h.1 one

  upsert-Leaves :
      (app : App) (u : W)
      → OneOfEach table u.1.rows
      → Leaves (update_app table services exists true app u)
  upsert-Leaves app u one =
      let x = update_app table services exists true app u in
      elim (upsert_app-UpsertedTo table services exists app u) [
        | inl h ↦ create-Leaves app u.1.rows x one h.1
        | inr h ↦ update-Leaves app u.1.rows x one h
      ]

  deleted-Leaves :
      (id : Text) (d : table.Rows) (x : W × Result App)
      → OneOfEach table d
      → DeletedFrom table services exists id d x
      → Leaves x
  deleted-Leaves id d (v, err e) one h = subst (OneOfEach table) (sym h) one
  deleted-Leaves id d (v, ok a) one h = Deleted-OneOfEach table h.0 d v.1.rows h.3 one

  delete-Leaves :
      (id : Text) (u : W)
      → OneOfEach table u.1.rows
      → Leaves (delete_app table services exists id u)
  delete-Leaves id u one =
      deleted-Leaves id u.1.rows (delete_app table services exists id u) one
        (delete_app-DeletedFrom table services exists id u)

  upsert_each-Leaves :
      (session : Text) (existing apps : List App) (ids : List Text) (u : W)
      → OneOfEach table u.1.rows
      → Leaves (upsert_each table services exists session existing apps ids u)
  unfolding upsert_each
  upsert_each-Leaves session existing [] ids u one = one
  upsert_each-Leaves session existing (app ∷ rest) ids u one =
      let a = sync_app session existing app in
      through (λ x. Leaves x) (λ x. Leaves x) (upsert_app table services exists a)
        (λ saved.
          upsert_each table services exists session existing rest (upserted_id a saved ∷ ids))
        u (upsert-Leaves a u one) (λ e v k. k)
        (λ saved v k. upsert_each-Leaves session existing rest (upserted_id a saved ∷ ids) v k)

  delete_others-Leaves :
      (ids : List Text) (existing : List App) (u : W)
      → OneOfEach table u.1.rows
      → Leaves (delete_others table services exists ids existing u)
  unfolding delete_others
  delete_others-Leaves ids [] u one = one
  delete_others-Leaves ids (app ∷ rest) u one =
      let delete = delete_app table services exists app.id >> pure tt in
      through (λ x. Leaves x) (λ x. Leaves x) (when (not (contains ids app.id)) delete)
        (λ _. delete_others table services exists ids rest) u
        (when_then (λ x. Leaves x) (not (contains ids app.id)) delete u (λ _. one)
          (λ _.
            through (λ x. Leaves x) (λ x. Leaves x) (delete_app table services exists app.id)
              (λ _. pure tt) u (delete-Leaves app.id u one) (λ e v k. k) (λ _ v k. k)))
        (λ e v k. k) (λ _ v k. delete_others-Leaves ids rest v k)

  sync-Leaves :
      (session : Text) (apps : List App) (u : W)
      → OneOfEach table u.1.rows
      → Leaves (sync_session_apps table services exists session apps u)
  unfolding sync_session_apps list_apps
  sync-Leaves session apps u one =
      let existing = get_all_by_session session u.1 in
      through (λ x. Leaves x) (λ x. Leaves x)
        (upsert_each table services exists session existing apps [])
        (λ ids. delete_others table services exists ids existing) u
        (upsert_each-Leaves session existing apps [] u one) (λ e v k. k)
        (λ ids v k. delete_others-Leaves ids existing v k)

  -- A table in which no session has two apps of a kind stays so through every method of the service
  -- that changes it, whatever is asked and however it ends.
  pub one_app_of_each_kind :
      (app : App) (id session : Text) (apps : List App) (u : W)
      → OneOfEach table u.1.rows
      → OneOfEach table (create_app table services exists app u).0.1.rows
        × OneOfEach table (update_app table services exists true app u).0.1.rows
        × OneOfEach table (update_app table services exists false app u).0.1.rows
        × OneOfEach table (delete_app table services exists id u).0.1.rows
        × OneOfEach table (remove_by_session table services exists session u).0.1.rows
        × OneOfEach table (sync_session_apps table services exists session apps u).0.1.rows
  unfolding remove_by_session delete_by_session
  one_app_of_each_kind app id session apps u one = (
    create-Leaves app u.1.rows (create_app table services exists app u) one
        (create_app-CreatedAs table services exists app u),
    upsert-Leaves app u one,
    update-Leaves app u.1.rows (update_app table services exists false app u) one
        (update_app-UpdatedTo table services exists app u),
    delete-Leaves id u one,
    delete_where-OneOfEach table u.1.rows (of_session session) one,
    sync-Leaves session apps u one,
  )
