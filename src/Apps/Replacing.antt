-- ===== src/Apps/Replacing.antt =====
-- When `syncSessionApps` of waha-plus/src/apps/app_sdk/services/AppsEnabledService.ts refuses to replace an app.
use aira_relay.Base.{
  Bool, true, Option, none, some, List, [], ◌∷◌, Text, ◌≡◌, inl, inr, refl, ap, ◌∙◌, arith,
}
use aira_relay.Base.Results.{Error, Result, ok, err, M}
use aira_relay.Base.Keeping.{through}
use aira_relay.Manager.Controller.{is_named}
use aira_relay.Apps.{App, Row, AppsTable}
use aira_relay.Apps.Repository.{Store, get_all_by_session}
use aira_relay.Apps.Service.{Services, list_apps}
use aira_relay.Apps.Changes.{UpsertedTo, upsert_app-UpsertedTo}
use aira_relay.Apps.Syncing.{
  sync_id, sync_app, upserted_id, upsert_app, upsert_each, delete_others, sync_session_apps,
}

module _ (table : AppsTable) (services : Services) {S : Type 0} (exists : Text → M S Bool)
    (session : Text) where
  abbrev W : Type 0
  W = S × Store table

  -- An action throws, and leaves the table as it was.
  abbrev Refuses : {A : Type 0} → table.Rows → W × Result A → Type 0
  Refuses d (v, err e) = v.1.rows ≡ d
  Refuses d (v, ok _) = ⊥

  refused :
      {A : Type 0} (d : table.Rows) (x : W × Result A)
      → Refuses d x
      → ((e : Error) × (x.1 ≡ err e)) × (x.0.1.rows ≡ d)
  refused d (v, err e) h = ((e, refl), h)
  refused d (v, ok _) h = absurd h

  -- A second app of a kind is not created.
  upsert-Refuses :
      (b : App) (i : Text) (r : Row) (d : table.Rows) (x : W × Result (Option App))
      → table.first d i ≡ some r
      → r.session ≡ b.session
      → r.app ≡ b.app
      → table.first d b.id ≡ none
      → UpsertedTo table services exists b d x
      → Refuses d x
  upsert-Refuses b i r d (v, err e) f s k free (inl h) = h.1
  upsert-Refuses b i r d (v, err e) f s k free (inr h) = h
  upsert-Refuses b i r d (v, ok o) f s k free (inl h) = h.1.3.alone i r f s k
  upsert-Refuses b i r d (v, ok o) f s k free (inr h) = ground (arith, h.1.found)

  sync_id_named : (existing : List App) (a : App) → is_named a.id ≡ true → sync_id existing a ≡ a.id
  unfolding sync_id
  sync_id_named existing a n = ground arith

  -- A request to replace a session's app by another of the same kind with an id of its own that is
  -- free fails, and leaves the table as it was: the new app is created before the old one is deleted,
  -- and a session may not have both.
  pub sync-replaced :
      (a : App) (i : Text) (r : Row) (u : W)
      → table.first u.1.rows i ≡ some r
      → r.session ≡ session
      → r.app ≡ a.app
      → is_named a.id ≡ true
      → table.first u.1.rows a.id ≡ none
      → ((e : Error) × ((sync_session_apps table services exists session (a ∷ []) u).1 ≡ err e))
        × ((sync_session_apps table services exists session (a ∷ []) u).0.1.rows ≡ u.1.rows)
  unfolding sync_session_apps list_apps upsert_each
  sync-replaced a i r u f s k n free =
      let d = u.1.rows in
      let existing = get_all_by_session session u.1 in
      let b = sync_app session existing a in
      let x = upsert_app table services exists b u in
      let e : b.id ≡ a.id = sync_id_named existing a n in
      refused d (sync_session_apps table services exists session (a ∷ []) u) (
        through (λ x. Refuses d x) (λ x. Refuses d x)
          (upsert_each table services exists session existing (a ∷ []) [])
          (λ ids. delete_others table services exists ids existing) u
          (through (λ x. Refuses d x) (λ x. Refuses d x) (upsert_app table services exists b)
            (λ saved.
              upsert_each table services exists session existing [] (upserted_id b saved ∷ []))
            u
            (upsert-Refuses b i r d x f s k (ap (table.first d) e ∙ free)
              (upsert_app-UpsertedTo table services exists b u))
            (λ e v h. h) (λ saved v h. absurd h))
          (λ e v h. h) (λ ids v h. absurd h))
