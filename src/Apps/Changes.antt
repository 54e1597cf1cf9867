-- ===== src/Apps/Changes.antt =====
-- What `update` and `delete` of waha-plus/src/apps/app_sdk/services/AppsEnabledService.ts leave
-- and answer, on every branch: where they throw, the table is what it was.
use aira_relay.Base.{
  Bool, true, false, if◌then◌else◌, Option, none, some, Text, text_eq, text_eq_iff, text_eq_refl,
  ◌≡◌, ◌⊎◌, inl, inr, refl, sym, ap, ◌∙◌, subst, arith, Option-cases,
}
use aira_relay.Base.Results.{internal, Result, ok, err, M, ◌>>=◌, ◌>>◌, require, when, pure, modify}
use aira_relay.Base.Keeping.{through, require_then, when_then}
use aira_relay.Apps.{name_eq, name_eq_iff, App, Row, AppsTable}
use aira_relay.Apps.Repository.{
  validate, before_deleted, Store, deserialize, get_by_id, changed, delete_row,
}
use aira_relay.Apps.Service.{
  update_hook, Services, in_store, call, check_session_exists, get_app_service, require_service,
  write_app, update_checked, update_saved, update_app, delete_saved, delete_app,
}
use aira_relay.Apps.Rows.{Updated, Deleted, update_row_lem, delete_row_lem}
use aira_relay.Apps.Outcomes.{
  SameRows, call-SameRows, check-SameRows, service-SameRows, get_app_service-SameRows,
}
use aira_relay.Apps.Creation.{first-get_by_id, CreatedAs, create_app-CreatedAs}

module _ (table : AppsTable) (services : Services) {S : Type 0} (exists : Text → M S Bool) where
  abbrev W : Type 0
  W = S × Store table

  -- What a change leaves and answers.
  abbrev pub UpdatedTo : App → table.Rows → W × Result (Option App) → Type 0
  UpdatedTo app d (v, err x) = v.1.rows ≡ d
  UpdatedTo app d (v, ok o) =
      (r : Row) × Updated table app r d v.1.rows × (o ≡ some (deserialize table (changed app r)))

  pub first_of :
      (i : Text) (saved : App) (w : Store table)
      → get_by_id i w ≡ some saved
      → (r : Row) × (table.first w.rows i ≡ some r) × (saved ≡ deserialize table r)
  unfolding get_by_id
  first_of i saved w h = elim (Option-cases (table.first w.rows i)) [
    | inl e ↦ absurd (ground arith)
    | inr (r, e) ↦ (r, e, ground arith)
  ]

  write_app-UpdatedTo :
      (app : App) (r : Row) (d : table.Rows) (u : W)
      → u.1.rows ≡ d
      → table.first d app.id ≡ some r
      → r.app ≡ app.app
      → r.session ≡ app.session
      → UpdatedTo app d (write_app table services exists app u)
  unfolding get_by_id
  write_app-UpdatedTo app r d u h f a s =
      let f' = ap (λ x. table.first x app.id) h ∙ f in
      let rows = update_row_lem table app r u.1 f' in
      (
        r,
        record {
          found = f;
          same_app = a;
          same_session = s;
          rows = λ i.
              rows i
              ∙ ap (λ x. if text_eq app.id i then some (changed app r) else table.first x i) h;
        },
        ground (arith, rows app.id, text_eq_refl app.id),
      )

  update_checked-UpdatedTo :
      (saved app : App) (r : Row) (u : W)
      → table.first u.1.rows app.id ≡ some r
      → r.app ≡ app.app
      → r.session ≡ app.session
      → UpdatedTo app u.1.rows (update_checked table services exists saved app u)
  unfolding update_checked
  update_checked-UpdatedTo saved app r u f a s =
      let d = u.1.rows in
      let P = λ (x : W × Result (Option App)). UpdatedTo app d x in
      let write = write_app table services exists app in
      let valid = call table services exists (validate app) in
      let hook = call table services exists (update_hook saved app) in
      through P (SameRows table services exists d) (require_service table services exists app.app)
        (λ _. valid >> (hook >> write)) u (service-SameRows table services exists app.app u)
        (λ e v h. h)
        λ _ v h.
          through P (SameRows table services exists d) valid (λ _. hook >> write) v
            (call-SameRows table services exists (validate app) v ∙ h) (λ e v h. h)
            λ _ v h.
              through P (SameRows table services exists d) hook (λ _. write) v
                (call-SameRows table services exists (update_hook saved app) v ∙ h) (λ e v h. h)
                λ _ v h. write_app-UpdatedTo app r d v h f a s

  update_saved-UpdatedTo :
      (upsert : Bool) (saved app : App) (u : W)
      → get_by_id app.id u.1 ≡ some saved
      → UpdatedTo app u.1.rows (update_saved table services exists upsert app (some saved) u)
  unfolding update_saved deserialize
  update_saved-UpdatedTo upsert saved app u h =
      let (r, f, e) = first_of app.id saved u.1 h in
      let P = λ (x : W × Result (Option App)). UpdatedTo app u.1.rows x in
      let checked = update_checked table services exists saved app in
      require_then P (name_eq saved.app app.app) internal
        (require (text_eq saved.session app.session) internal >> checked) u refl
        λ a. require_then P (text_eq saved.session app.session) internal checked u refl λ b.
          update_checked-UpdatedTo saved app r u f
            (ap (λ x. x.app) (sym e) ∙ (name_eq_iff saved.app app.app).0 a)
            (ap (λ x. x.session) (sym e) ∙ (text_eq_iff saved.session app.session).0 b)

  -- `upsert` creates an app with a new id, and changes one with an id that is there.
  abbrev pub UpsertedTo : App → table.Rows → W × Result (Option App) → Type 0
  UpsertedTo app d x =
      ((table.first d app.id ≡ none) × CreatedAs table services exists app d x) ⊎ UpdatedTo app d x

  upsert_saved-UpsertedTo :
      (app : App) (saved : Option App) (u : W)
      → get_by_id app.id u.1 ≡ saved
      → UpsertedTo app u.1.rows (update_saved table services exists true app saved u)
  unfolding update_saved
  upsert_saved-UpsertedTo app none u h = inl (
    first-get_by_id table services exists app.id u.1 h,
    create_app-CreatedAs table services exists app u,
  )
  upsert_saved-UpsertedTo app (some saved) u h = inr (update_saved-UpdatedTo true saved app u h)

  pub upsert_app-UpsertedTo :
      (app : App) (u : W) → UpsertedTo app u.1.rows (update_app table services exists true app u)
  unfolding update_app
  upsert_app-UpsertedTo app u =
      let d = u.1.rows in
      through (λ x. UpsertedTo app d x) (SameRows table services exists d)
        (check_session_exists table services exists app.session)
        (λ _.
          in_store table services exists (get_by_id app.id)
          >>= update_saved table services exists true app)
        u (check-SameRows table services exists app.session u) (λ e v h. inr h)
        λ _ v h.
          subst
            (λ r.
              UpsertedTo app r
                (update_saved table services exists true app (get_by_id app.id v.1) v))
            h (upsert_saved-UpsertedTo app (get_by_id app.id v.1) v refl)

  found_saved-UpdatedTo :
      (app : App) (saved : Option App) (u : W)
      → get_by_id app.id u.1 ≡ saved
      → UpdatedTo app u.1.rows (update_saved table services exists false app saved u)
  unfolding update_saved
  found_saved-UpdatedTo app none u h = refl
  found_saved-UpdatedTo app (some saved) u h = update_saved-UpdatedTo false saved app u h

  pub update_app-UpdatedTo :
      (app : App) (u : W) → UpdatedTo app u.1.rows (update_app table services exists false app u)
  unfolding update_app
  update_app-UpdatedTo app u =
      let d = u.1.rows in
      through (λ x. UpdatedTo app d x) (SameRows table services exists d)
        (check_session_exists table services exists app.session)
        (λ _.
          in_store table services exists (get_by_id app.id)
          >>= update_saved table services exists false app)
        u (check-SameRows table services exists app.session u) (λ e v h. h)
        λ _ v h.
          subst
            (λ r.
              UpdatedTo app r
                (update_saved table services exists false app (get_by_id app.id v.1) v))
            h (found_saved-UpdatedTo app (get_by_id app.id v.1) v refl)

  -- What a deletion leaves and answers.
  abbrev pub DeletedFrom : Text → table.Rows → W × Result App → Type 0
  DeletedFrom id d (v, err x) = v.1.rows ≡ d
  DeletedFrom id d (v, ok a) =
      (r : Row) × (r.id ≡ id) × (a ≡ deserialize table r) × Deleted table r d v.1.rows

  delete_service-DeletedFrom :
      (r : Row) (service : Bool) (d : table.Rows) (u : W)
      → u.1.rows ≡ d
      → table.first d r.id ≡ some r
      → DeletedFrom r.id d (
          (when service (call table services exists (before_deleted (deserialize table r)))
              >> (modify (λ u. (u.0, delete_row r.id u.1)) >> pure (deserialize table r)))
            u)
  delete_service-DeletedFrom r service d u h f =
      let hook = call table services exists (before_deleted (deserialize table r)) in
      through (λ x. DeletedFrom r.id d x) (SameRows table services exists d) (when service hook)
        (λ _. modify (λ u. (u.0, delete_row r.id u.1)) >> pure (deserialize table r)) u
        (when_then (SameRows table services exists d) service hook u (λ _. h)
          (λ _. call-SameRows table services exists (before_deleted (deserialize table r)) u ∙ h))
        (λ e v h. h)
        λ _ v h.
          let deleted = delete_row_lem table r v.1 (ap (λ x. table.first x r.id) h ∙ f) in
          (
            r,
            refl,
            refl,
            record {
              found = f;
              rows = λ i.
                  deleted.rows i ∙ ap (λ x. if text_eq r.id i then none else table.first x i) h;
            },
          )

  delete_saved-DeletedFrom :
      (r : Row) (u : W)
      → table.first u.1.rows r.id ≡ some r
      → DeletedFrom r.id u.1.rows
          (delete_saved table services exists (some (deserialize table r)) u)
  unfolding delete_saved deserialize
  delete_saved-DeletedFrom r u f =
      through (λ x. DeletedFrom r.id u.1.rows x) (SameRows table services exists u.1.rows)
        (get_app_service table services exists r.app)
        (λ service.
          when service (call table services exists (before_deleted (deserialize table r)))
          >> (modify (λ u. (u.0, delete_row r.id u.1)) >> pure (deserialize table r)))
        u (get_app_service-SameRows table services exists r.app u) (λ e v h. h)
        (λ service v h. delete_service-DeletedFrom r service u.1.rows v h f)

  delete_found-DeletedFrom :
      (id : Text) (saved : Option App) (u : W)
      → get_by_id id u.1 ≡ saved
      → DeletedFrom id u.1.rows (delete_saved table services exists saved u)
  unfolding delete_saved
  delete_found-DeletedFrom id none u h = refl
  delete_found-DeletedFrom id (some saved) u h =
      let (r, f, e) = first_of id saved u.1 h in
      let i = table.first-id u.1.rows id r f in
      let f' : table.first u.1.rows r.id ≡ some r = ap (table.first u.1.rows) i ∙ f in
      subst (λ k. DeletedFrom k u.1.rows (delete_saved table services exists (some saved) u)) i
        (subst (λ a. DeletedFrom r.id u.1.rows (delete_saved table services exists (some a) u))
          (sym e) (delete_saved-DeletedFrom r u f'))

  pub delete_app-DeletedFrom :
      (id : Text) (u : W) → DeletedFrom id u.1.rows (delete_app table services exists id u)
  unfolding delete_app
  delete_app-DeletedFrom id u = delete_found-DeletedFrom id (get_by_id id u.1) u refl
