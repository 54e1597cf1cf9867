-- ===== src/Apps/Creation.antt =====
-- What `create` of waha-plus/src/apps/app_sdk/services/AppsEnabledService.ts leaves and answers, on
-- every branch: where it throws, the table is what it was.
use aira_relay.Base.{
  Bool, true, not, if◌then◌else◌, Option, none, some, is_some, List, [], ◌∷◌, Text, text_eq, ◌≡◌,
  ◌⊎◌, inl, inr, refl, sym, ap, ◌∙◌, subst, arith,
}
use aira_relay.Base.Results.{internal, Result, ok, err, M, ◌>>=◌, ◌>>◌, require}
use aira_relay.Base.Keeping.{through, require_then, when_then}
use aira_relay.Apps.{AppName, chatwoot, calls, unsupported, name_eq, App, AppsTable}
use aira_relay.Apps.Repository.{validate, before_created, Store, get_by_id, new_row}
use aira_relay.Apps.Service.{
  one_of_kind, not_disabled, Services, in_store, call, check_session_exists, get_app_service,
  require_service, choose_id, existing_apps, save_app, create_hook, create_checked, create_found,
  create_app,
}
use aira_relay.Apps.Rows.{OwnId, HasNone, Inserted, none-HasNone, save_lem}
use aira_relay.Apps.Outcomes.{SameRows, call-SameRows, check-SameRows, service-SameRows}

module _ (table : AppsTable) (services : Services) {S : Type 0} (exists : Text → M S Bool) where
  abbrev W : Type 0
  W = S × Store table

  -- What a creation leaves and answers.
  abbrev pub Created : App → table.Rows → W × Result (Option App) → Type 0
  Created app d (v, err x) = v.1.rows ≡ d
  Created app d (v, ok o) = (o ≡ some app) × Inserted table app d v.1.rows

  hook-SameRows :
      (app : App) (d : table.Rows) (u : W)
      → u.1.rows ≡ d
      → SameRows table services exists d (create_hook table services exists app u)
  hook-SameRows app d u h =
      when_then (SameRows table services exists d) (not_disabled app.enabled)
        (call table services exists (before_created app)) u (λ _. h)
        (λ _. call-SameRows table services exists _ u ∙ h)

  save_app-Created :
      (app : App) (d : table.Rows) (u : W)
      → u.1.rows ≡ d
      → table.first d app.id ≡ none
      → (app.app ≡ chatwoot) ⊎ (app.app ≡ calls)
      → HasNone table d app.session app.app
      → Created app d (save_app table services exists app u)
  unfolding save_app
  save_app-Created app d u h free supported alone =
      let (e, saved, rows) = save_lem table app u.1 (ap (λ r. table.first r app.id) h ∙ free) in
      rw saved (
        refl,
        record {
          free = free;
          supported = supported;
          alone = alone;
          rows = λ i.
              rows i ∙ ap (λ r. if text_eq app.id i then some (new_row app) else table.first r i) h;
        },
      )

  -- The steps of a creation after its checks.
  create_checked-Created :
      (app : App) (u : W)
      → table.first u.1.rows app.id ≡ none
      → (app.app ≡ chatwoot) ⊎ (app.app ≡ calls)
      → HasNone table u.1.rows app.session app.app
      → Created app u.1.rows (create_checked table services exists app u)
  unfolding create_checked
  create_checked-Created app u free supported alone =
      let d = u.1.rows in
      let hook = create_hook table services exists app in
      let save = save_app table services exists app in
      let valid = call table services exists (validate app) in
      through (Created app d) (SameRows table services exists d)
        (require_service table services exists app.app) (λ _. valid >> (hook >> save)) u
        (service-SameRows table services exists app.app u) (λ e v h. h)
        λ _ v h.
          through (Created app d) (SameRows table services exists d) valid (λ _. hook >> save) v
            (call-SameRows table services exists (validate app) v ∙ h) (λ e v h. h)
            λ _ v h.
              through (Created app d) (SameRows table services exists d) hook (λ _. save) v
                (hook-SameRows app d v h) (λ e v h. h)
                λ _ v h. save_app-Created app d v h free supported alone

  pub first-get_by_id :
      (i : Text) (w : Store table) → get_by_id i w ≡ none → table.first w.rows i ≡ none
  unfolding get_by_id
  first-get_by_id i w h = ground arith

  -- The checks leave apps of the two kinds that the session does not have.
  checked-HasNone :
      (app : App) (w : Store table)
      → one_of_kind chatwoot app (existing_apps table services exists app w) ≡ true
      → one_of_kind calls app (existing_apps table services exists app w) ≡ true
      → (app.app ≡ chatwoot) ⊎ (app.app ≡ calls)
      → HasNone table w.rows app.session app.app
  unfolding name_eq
  checked-HasNone app w a b (inl e) =
      rw e (none-HasNone table w app.session chatwoot (ground (arith)))
  checked-HasNone app w a b (inr e) = rw e (none-HasNone table w app.session calls (ground (arith)))

  name_cases : (a : AppName) → ((a ≡ chatwoot) ⊎ (a ≡ calls)) ⊎ ((t : Text) × (a ≡ unsupported t))
  name_cases chatwoot = inl (inl refl)
  name_cases calls = inl (inr refl)
  name_cases (unsupported t) = inr (t, refl)

  create_unsupported-Created :
      (app : App) (t : Text) (u : W)
      → app.app ≡ unsupported t
      → Created app u.1.rows (create_checked table services exists app u)
  unfolding create_checked require_service get_app_service
  create_unsupported-Created app t u e = rw e refl

  create_found-Created :
      (app : App) (u : W) → Created app u.1.rows (create_found table services exists app u)
  unfolding create_found
  create_found-Created app u =
      let P = λ (x : W × Result (Option App)). Created app u.1.rows x in
      let checked = create_checked table services exists app in
      let list = existing_apps table services exists app in
      let existing = list u.1 in
      let calls_check =
        λ (apps : List App). require (one_of_kind calls app apps) internal >> checked in
      require_then P (not (is_some (get_by_id app.id u.1))) internal
        (in_store table services exists list >>= λ (apps : List App).
          require (one_of_kind chatwoot app apps) internal >> calls_check apps)
        u refl
        λ free.
          require_then P (one_of_kind chatwoot app existing) internal (calls_check existing) u refl
            λ a. require_then P (one_of_kind calls app existing) internal checked u refl λ b.
              elim (name_cases app.app) [
                | inl k ↦
                    create_checked-Created app u (first-get_by_id app.id u.1 (ground arith)) k
                      (checked-HasNone app u.1 a b k)
                | inr (t, e) ↦ create_unsupported-Created app t u e
              ]

  -- What a request for a creation leaves and answers.
  abbrev pub CreatedAs : App → table.Rows → W × Result (Option App) → Type 0
  CreatedAs app d (v, err x) = v.1.rows ≡ d
  CreatedAs app d (v, ok o) =
      (id : Text) × OwnId app id
      × (o ≡ some (record app { id = id }))
      × Inserted table (record app { id = id }) d v.1.rows

  as_made :
      (app : App) (id : Text) (d : table.Rows) (x : W × Result (Option App))
      → OwnId app id
      → Created (record app { id = id }) d x
      → CreatedAs app d x
  as_made app id d (v, err x) own h = h
  as_made app id d (v, ok o) own h = (id, own, h.0, h.1)

  -- The choice of the id.
  abbrev Chosen : App → table.Rows → W × Result Text → Type 0
  Chosen app d (v, err e) = v.1.rows ≡ d
  Chosen app d (v, ok id) = (v.1.rows ≡ d) × OwnId app id

  choose_id-Chosen :
      (app : App) (d : table.Rows) (u : W)
      → u.1.rows ≡ d
      → Chosen app d (choose_id table services exists app.id u)
  unfolding choose_id
  choose_id-Chosen app d u h = chosen app.id refl
    where
      chosen : (id : Text) → app.id ≡ id → Chosen app d (choose_id table services exists id u)
      chosen [] e = (h, λ n. absurd (ground arith))
      chosen (c ∷ id) e = (h, λ n. sym e)

  pub create_app-CreatedAs :
      (app : App) (u : W) → CreatedAs app u.1.rows (create_app table services exists app u)
  unfolding create_app
  create_app-CreatedAs app u =
      let d = u.1.rows in
      let P = λ (x : W × Result (Option App)). CreatedAs app d x in
      let found = λ (id : Text). create_found table services exists (record app { id = id }) in
      through P (SameRows table services exists d)
        (check_session_exists table services exists app.session)
        (λ _. choose_id table services exists app.id >>= found) u
        (check-SameRows table services exists app.session u) (λ e v h. h)
        λ _ v h.
          through P (Chosen app d) (choose_id table services exists app.id) found v
            (choose_id-Chosen app d v h) (λ e v h. h)
            λ id v (h, own). as_made app id d (found id v) own (
              subst (λ r. Created (record app { id = id }) r (found id v)) h
                (create_found-Created (record app { id = id }) v))
