-- ===== src/Apps/Untouched.antt =====
-- Changes of the table of apps that leave one session's apps as they were.
use aira_relay.Base.{
  Bool, Option, some, Text, text_eq_iff, ◌≡◌, ◌≢◌, ◌↔◌, inl, inr, sym, ap, ◌∙◌, arith,
}
use aira_relay.Base.Results.{Result, ok, err, M}
use aira_relay.Apps.{App, Row, AppsTable}
use aira_relay.Apps.Repository.{Store, new_row, changed}
use aira_relay.Apps.Service.{Services}
use aira_relay.Apps.Rows.{Inserted, Updated, Deleted}
use aira_relay.Apps.Changes.{UpsertedTo, DeletedFrom}
use aira_relay.Apps.Creation.{CreatedAs}

module _ (table : AppsTable) where
  -- The session has the same rows in `d` and in `e`.
  abbrev pub Untouched : Text → table.Rows → table.Rows → Type 0
  Untouched s d e =
      (i : Text) (r : Row) → r.session ≡ s → (table.first d i ≡ some r) ↔ (table.first e i ≡ some r)

  pub refl-Untouched : (s : Text) (d e : table.Rows) → e ≡ d → Untouched s d e
  refl-Untouched s d e h i r k = let f = ap (λ x. table.first x i) h in (λ p. f ∙ p, λ p. sym f ∙ p)

  pub trans-Untouched :
      (s : Text) (a b c : table.Rows) → Untouched s a b → Untouched s b c → Untouched s a c
  trans-Untouched s a b c h k i r e =
      (λ p. (k i r e).0 ((h i r e).0 p), λ p. (h i r e).1 ((k i r e).1 p))

  pub Inserted-Untouched :
      (s : Text) (app : App) (d e : table.Rows)
      → app.session ≢ s
      → Inserted table app d e
      → Untouched s d e
  unfolding new_row
  Inserted-Untouched s app d e n h i r k =
      let rows = h.rows i in
      (
        λ p. ground (arith, h.free, text_eq_iff app.id i, ap (table.first d)),
        λ p. ground (arith, n),
      )

  pub Updated-Untouched :
      (s : Text) (app : App) (old : Row) (d e : table.Rows)
      → app.session ≢ s
      → Updated table app old d e
      → Untouched s d e
  unfolding changed
  Updated-Untouched s app old d e n h i r k =
      let rows = h.rows i in
      (
        λ p. ground (arith, n, h.found, h.same_session, text_eq_iff app.id i, ap (table.first d)),
        λ p. ground (arith, n),
      )

  pub Deleted-Untouched :
      (s : Text) (old : Row) (d e : table.Rows)
      → old.session ≢ s
      → Deleted table old d e
      → Untouched s d e
  Deleted-Untouched s old d e n h i r k =
      let rows = h.rows i in
      (
        λ p. ground (arith, n, h.found, text_eq_iff old.id i, ap (table.first d)),
        λ p. ground (arith),
      )

module _ (table : AppsTable) (services : Services) {S : Type 0} (exists : Text → M S Bool)
    (s : Text) where
  -- The session `s` has the apps that it had in `d`.
  abbrev pub Keeps : {A : Type 0} → table.Rows → (S × Store table) × Result A → Type 0
  Keeps d x = Untouched table s d x.0.1.rows

  pub create-Keeps :
      (app : App) (d : table.Rows) (x : (S × Store table) × Result (Option App))
      → app.session ≢ s
      → CreatedAs table services exists app d x
      → Keeps d x
  create-Keeps app d (v, err e) n h = refl-Untouched table s d v.1.rows h
  create-Keeps app d (v, ok o) n h =
      Inserted-Untouched table s (record app { id = h.0 }) d v.1.rows n h.3

  pub update-Keeps :
      (app : App) (d : table.Rows) (x : (S × Store table) × Result (Option App))
      → app.session ≢ s
      → UpsertedTo table services exists app d x
      → Keeps d x
  update-Keeps app d x n (inl h) = create-Keeps app d x n h.1
  update-Keeps app d (v, err e) n (inr h) = refl-Untouched table s d v.1.rows h
  update-Keeps app d (v, ok o) n (inr h) = Updated-Untouched table s app h.0 d v.1.rows n h.1

  -- An app that is there is only changed within its session.
  pub update_found-Keeps :
      (app : App) (r : Row) (d : table.Rows) (x : (S × Store table) × Result (Option App))
      → table.first d app.id ≡ some r
      → r.session ≢ s
      → UpsertedTo table services exists app d x
      → Keeps d x
  update_found-Keeps app r d x f n (inl h) = absurd (ground (arith, h.0))
  update_found-Keeps app r d (v, err e) f n (inr h) = refl-Untouched table s d v.1.rows h
  update_found-Keeps app r d (v, ok o) f n (inr h) =
      Updated-Untouched table s app h.0 d v.1.rows
        (λ e. n (ground (arith, h.1.found, h.1.same_session))) h.1

  pub delete-Keeps :
      (id : Text) (r : Row) (d : table.Rows) (x : (S × Store table) × Result App)
      → table.first d id ≡ some r
      → r.session ≢ s
      → DeletedFrom table services exists id d x
      → Keeps d x
  delete-Keeps id r d (v, err e) f n h = refl-Untouched table s d v.1.rows h
  delete-Keeps id r d (v, ok a) f n (old, i, _, deleted) =
      Deleted-Untouched table s old d v.1.rows
        (λ e. n (ground (arith, deleted.found, ap (table.first d) i))) deleted
