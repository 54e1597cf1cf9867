-- ===== src/Apps/Creating.antt =====
-- When `create` of waha-plus/src/apps/app_sdk/services/AppsEnabledService.ts succeeds.
use aira_relay.Base.{
  Bool, true, not, if◌then◌else◌, Option, none, some, is_some, List, [], ◌∷◌, ◌++◌, Text, text_eq,
  ◌≡◌, inl, inr, Bool-cases, refl, sym, ap, ◌∙◌, subst, arith,
}
use aira_relay.Base.Results.{internal, not_found, Result, ok, M, ◌>>=◌, ◌>>◌, require}
use aira_relay.Manager.Lifecycle.{bind_ok}
use aira_relay.Manager.Controller.{is_named}
use aira_relay.Apps.{chatwoot, calls, name_eq, App, AppsTable}
use aira_relay.Apps.Repository.{
  Hook, validate, before_created, Store, get_by_id, new_row, get_all_by_session,
}
use aira_relay.Apps.Service.{
  find_app, not_disabled, one_of_kind, Services, returns, in_store, is_null, call,
  check_session_exists, get_app_service, require_service, choose_id, existing_apps, create_hook,
  save_app, create_checked, create_found, create_app,
}
use aira_relay.Apps.Rows.{save_lem}

module _ (table : AppsTable) (services : Services) {S : Type 0} (exists : Text → M S Bool)
    (app : App) (kind : app.app ≡ calls) (there : services.calls_service ≡ true) where
  abbrev W : Type 0
  W = S × Store table

  -- The calls of the app's service for a creation.
  abbrev pub creation_hooks : List Hook
  creation_hooks = validate app ∷ (if not_disabled app.enabled then before_created app ∷ [] else [])

  abbrev called : Hook → W → W
  called h u = (u.0, record u.1 { hooks = u.1.hooks ++ (h ∷ []) })

  abbrev created_hook : W → W
  created_hook u = if not_disabled app.enabled then called (before_created app) u else u

  service_ok :
      (u : W)
      → ◌≡◌ {A = W × Result (Unit {0})} (require_service table services exists app.app u) (u, ok tt)
  unfolding require_service get_app_service
  service_ok u = rw (kind, there) refl

  valid_ok :
      (u : W)
      → ◌≡◌ {A = W × Result (Unit {0})}
          (call table services exists (validate app) u)
          (called (validate app) u, ok tt)
  unfolding call returns
  valid_ok u = rw kind refl

  hook_ok :
      (u : W)
      → ◌≡◌ {A = W × Result (Unit {0})}
          (create_hook table services exists app u)
          (created_hook u, ok tt)
  unfolding call returns
  hook_ok u = elim (Bool-cases (not_disabled app.enabled)) [
    | inl e ↦ rw (e, kind) refl
    | inr e ↦ rw e refl
  ]

  hook_rows : (u : W) → (created_hook u).1.rows ≡ u.1.rows
  hook_rows u = ground arith

  hook_state : (u : W) → (created_hook u).0 ≡ u.0
  hook_state u = ground arith

  require_ok :
      {A : Type 0} (b : Bool) (m : M W A) (u : W)
      → b ≡ true
      → ◌≡◌ {A = W × Result A} ((require b internal >> m) u) (m u)
  require_ok b m u h = rw h refl

  save_ok :
      (u : W)
      → table.first u.1.rows app.id ≡ none
      → (e : table.Rows) × ◌≡◌ {A = W × Result (Option App)}
          (save_app table services exists app u)
          ((u.0, record u.1 { rows = e }), ok (some app))
        × ((i : Text)
            → table.first e i
              ≡ (if text_eq app.id i then some (new_row app) else table.first u.1.rows i))
  unfolding save_app
  save_ok u free = let (e, s, rows) = save_lem table app u.1 free in (e, rw s refl, rows)

  abbrev Makes : table.Rows → S → W × Result (Option App) → Type 0
  Makes d s x =
      (x.1 ≡ ok (some app))
      × (x.0.0 ≡ s)
      × ((i : Text)
          → table.first x.0.1.rows i
            ≡ (if text_eq app.id i then some (new_row app) else table.first d i))

  save-Makes :
      (d : table.Rows) (u : W)
      → u.1.rows ≡ d
      → table.first d app.id ≡ none
      → Makes d u.0 (save_app table services exists app u)
  save-Makes d u h free =
      let (e, s, rows) = save_ok u (ap (λ x. table.first x app.id) h ∙ free) in
      subst (Makes d u.0) (sym s) (
        refl,
        refl,
        λ i. rows i ∙ ap (λ x. if text_eq app.id i then some (new_row app) else table.first x i) h,
      )

  checked-Makes :
      (u : W)
      → table.first u.1.rows app.id ≡ none
      → Makes u.1.rows u.0 (create_checked table services exists app u)
  unfolding create_checked
  checked-Makes u free =
      let save = save_app table services exists app in
      let hook = create_hook table services exists app in
      let valid = call table services exists (validate app) in
      let v = called (validate app) u in
      subst (Makes u.1.rows u.0)
        (sym (
          bind_ok (require_service table services exists app.app) (λ _. valid >> (hook >> save))
            (service_ok u)
          ∙ bind_ok valid (λ _. hook >> save) (valid_ok u)
          ∙ bind_ok hook (λ _. save) (hook_ok v)))
        (subst (λ s. Makes u.1.rows s (save (created_hook v))) (hook_state v)
          (save-Makes u.1.rows (created_hook v) (hook_rows v) free))

  found-Makes :
      (u : W)
      → table.first u.1.rows app.id ≡ none
      → find_app calls (get_all_by_session app.session u.1) ≡ none
      → Makes u.1.rows u.0 (create_found table services exists app u)
  unfolding create_found get_by_id name_eq
  found-Makes u free alone =
      let checked = create_checked table services exists app in
      let list = existing_apps table services exists app in
      let calls_check =
        λ (apps : List App). require (one_of_kind calls app apps) internal >> checked in
      let checks =
        λ (apps : List App). require (one_of_kind chatwoot app apps) internal >> calls_check apps in
      let new : not (is_some (get_by_id app.id u.1)) ≡ true = ground arith in
      let first : one_of_kind chatwoot app (list u.1) ≡ true = rw kind refl in
      let second : one_of_kind calls app (list u.1) ≡ true = rw (kind, alone) refl in
      subst (Makes u.1.rows u.0)
        (sym (
          require_ok (not (is_some (get_by_id app.id u.1)))
            (in_store table services exists list >>= checks) u new
          ∙ require_ok (one_of_kind chatwoot app (list u.1)) (calls_check (list u.1)) u first
          ∙ require_ok (one_of_kind calls app (list u.1)) checked u second))
        (checked-Makes u free)

  check_ok :
      (s t : S) (w : Store table) (found : Bool)
      → ◌≡◌ {A = S × Result Bool} (exists app.session s) (t, ok found)
      → ◌≡◌ {A = W × Result (Unit {0})}
          (check_session_exists table services exists app.session (s, w))
          ((t, w), ok tt)
  unfolding check_session_exists
  check_ok s t w found e =
      ap
        (λ (p : S × Result Bool).
          ((λ (u : W). ((p.0, w), p.1)) >>= λ session. require (not (is_null session)) not_found)
            (s, w))
        e

  choose_ok :
      (u : W)
      → is_named app.id ≡ true
      → ◌≡◌ {A = W × Result Text} (choose_id table services exists app.id u) (u, ok app.id)
  unfolding choose_id
  choose_ok u n = chosen app.id n
    where
      chosen :
          (id : Text)
          → is_named id ≡ true
          → ◌≡◌ {A = W × Result Text} (choose_id table services exists id u) (u, ok id)
      chosen [] h = absurd (ground arith)
      chosen (c ∷ id) h = refl

  -- An app for calls is created for any session, whether the session manager answers that the session
  -- exists or that it does not: when `exists` returns, the service of the app is there, the app has an
  -- id that is free, and the session has no app for calls. The row is that of the request, and no
  -- other row changes.
  pub create_app-calls :
      (s t : S) (w : Store table) (found : Bool)
      → ◌≡◌ {A = S × Result Bool} (exists app.session s) (t, ok found)
      → is_named app.id ≡ true
      → table.first w.rows app.id ≡ none
      → find_app calls (get_all_by_session app.session w) ≡ none
      → ((create_app table services exists app (s, w)).1 ≡ ok (some app))
        × ((create_app table services exists app (s, w)).0.0 ≡ t)
        × ((i : Text)
            → table.first (create_app table services exists app (s, w)).0.1.rows i
              ≡ (if text_eq app.id i then some (new_row app) else table.first w.rows i))
  unfolding create_app
  create_app-calls s t w found e n free alone =
      let choose = choose_id table services exists app.id in
      let found_as = λ (id : Text). create_found table services exists (record app { id = id }) in
      subst (Makes w.rows t)
        (sym (
          bind_ok (check_session_exists table services exists app.session)
            (λ _. choose >>= found_as) (check_ok s t w found e)
          ∙ bind_ok choose found_as (choose_ok (t, w) n)))
        (found-Makes (t, w) free alone)
