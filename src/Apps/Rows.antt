-- ===== src/Apps/Rows.antt =====
-- What the methods of waha-plus/src/apps/app_sdk/services/AppsEnabledService.ts do to the table of apps,
-- on every branch.
use aira_relay.Base.{
  true, if◌then◌else◌, none, some, List, [], ◌∷◌, Text, text_eq, text_eq_iff, text_eq_refl, map,
  ◌≡◌, ◌≢◌, ◌⊎◌, inl, inr, refl, ap, ◌∙◌, arith, Option-cases,
}
use aira_relay.Base.Results.{ok}
use aira_relay.Manager.Controller.{is_named}
use aira_relay.Apps.{AppName, chatwoot, calls, name_eq_iff, App, Row, AppsTable, find_id}
use aira_relay.Apps.Repository.{
  Store, deserialize, new_row, changed, of_session, get_all_by_session, save, update_row,
  delete_row,
}
use aira_relay.Apps.Service.{find_app}

-- The app that a row stands for names what the row does.
abbrev pub IsOf : App → Row → Type 0
IsOf a r = (a.id ≡ r.id) × (a.session ≡ r.session) × (a.app ≡ r.app)

-- The app's own id, if it has one.
abbrev pub OwnId : App → Text → Type 0
OwnId app id = is_named app.id ≡ true → id ≡ app.id

module _ (table : AppsTable) where
  -- The session has no app of this kind.
  abbrev pub HasNone : table.Rows → Text → AppName → Type 0
  HasNone d session k =
      (i : Text) (r : Row) → table.first d i ≡ some r → r.session ≡ session → r.app ≢ k

  -- `e` is `d` with the app, whose id was free, and whose kind the session did not have.
  pub record Inserted (app : App) (d e : table.Rows) : Type 0 where
    pub free : table.first d app.id ≡ none
    pub supported : (app.app ≡ chatwoot) ⊎ (app.app ≡ calls)
    pub alone : HasNone d app.session app.app
    pub rows :
        (i : Text)
        → table.first e i ≡ (if text_eq app.id i then some (new_row app) else table.first d i)

  -- `e` is `d` with the app in place of one of the same kind, session and id.
  pub record Updated (app : App) (r : Row) (d e : table.Rows) : Type 0 where
    pub found : table.first d app.id ≡ some r
    pub same_app : r.app ≡ app.app
    pub same_session : r.session ≡ app.session
    pub rows :
        (i : Text)
        → table.first e i ≡ (if text_eq app.id i then some (changed app r) else table.first d i)

  -- `e` is `d` without the row `r`.
  pub record Deleted (r : Row) (d e : table.Rows) : Type 0 where
    pub found : table.first d r.id ≡ some r
    pub rows : (i : Text) → table.first e i ≡ (if text_eq r.id i then none else table.first d i)

  find_id-find_app :
      (i : Text) (r : Row) (k : AppName) (rs : List Row)
      → find_id i rs ≡ some r
      → find_app k (map (deserialize table) rs) ≡ none
      → r.app ≢ k
  unfolding deserialize
  find_id-find_app i r k [] f n e = ground arith
  find_id-find_app i r k (x ∷ rs) f n e =
      ground (arith, find_id-find_app i r k rs, name_eq_iff x.app k)

  pub none-HasNone :
      (w : Store table) (session : Text) (k : AppName)
      → find_app k (get_all_by_session session w) ≡ none
      → HasNone w.rows session k
  unfolding get_all_by_session
  none-HasNone w session k n i r f s =
      find_id-find_app i r k (table.select_where w.rows (of_session session))
        (table.find_id-select_where w.rows (of_session session) i
          ∙ rw (f, s, text_eq_refl session) refl)
        n

  pub save_lem :
      (app : App) (w : Store table)
      → table.first w.rows app.id ≡ none
      → (e : table.Rows) × (save app w ≡ (record w { rows = e }, ok app))
        × ((i : Text)
            → table.first e i
              ≡ (if text_eq app.id i then some (new_row app) else table.first w.rows i))
  unfolding save new_row
  save_lem app w free = elim (Option-cases (table.insert w.rows (new_row app))) [
    | inl e ↦ absurd (ground (arith, table.insert-free w.rows (new_row app) free))
    | inr (d, e) ↦ (d, rw (e, save) refl, λ i. (table.first-insert w.rows (new_row app) d i e).1)
  ]

  pub update_row_lem :
      (app : App) (r : Row) (w : Store table)
      → table.first w.rows app.id ≡ some r
      → (i : Text)
      → table.first (update_row app w).rows i
        ≡ (if text_eq app.id i then some (changed app r) else table.first w.rows i)
  unfolding update_row changed
  update_row_lem app r w f i = ground (
    arith,
    table.first-update_where_id w.rows app.id (changed app) i (λ r. refl),
    text_eq_iff app.id i,
    ap (table.first w.rows),
  )

  pub delete_row_lem :
      (r : Row) (w : Store table)
      → table.first w.rows r.id ≡ some r
      → Deleted r w.rows (delete_row r.id w).rows
  unfolding delete_row
  delete_row_lem r w f = record {
    found = f;
    rows = λ i. elim (Option-cases (table.first w.rows i)) [
      | inl e ↦ table.first-delete_where w.rows (λ x. text_eq x.id r.id) i ∙ ground (arith)
      | inr (x, e) ↦
          table.first-delete_where w.rows (λ x. text_eq x.id r.id) i
          ∙ ground (arith, table.first-id w.rows i x e, text_eq_iff x.id r.id, text_eq_iff r.id i)
    ];
  }
