-- ===== src/Apps/Exact.antt =====
-- What `syncSessionApps` of waha-plus/src/apps/app_sdk/services/AppsEnabledService.ts leaves as a whole.
use aira_relay.Base.{
  Bool, true, ◌||◌, some, is_some, List, [], ◌∷◌, Text, text_eq_iff, contains, All, ◌≡◌, ◌≢◌, ap,
  subst, arith,
}
use aira_relay.Base.Results.{Result, ok, err, M}
use aira_relay.Base.Keeping.{through}
use aira_relay.Apps.{AppName, name_eq_iff, App, Row, AppsTable}
use aira_relay.Apps.Repository.{Store, get_all_by_session}
use aira_relay.Apps.Service.{find_app, Services, list_apps}
use aira_relay.Apps.Untouched.{Untouched}
use aira_relay.Apps.Others.{get_all-Known, sync-Untouched}
use aira_relay.Apps.Syncing.{upsert_each, delete_others, sync_session_apps}
use aira_relay.Apps.Synced.{AllDiffer, Kept, AllKept}
use aira_relay.Apps.Replaced.{
  rev_append, app_ids, Known, Upserted, upsert_each-Upserted, Only, delete_others-Only,
}

module _ (table : AppsTable) (services : Services) {S : Type 0} (exists : Text → M S Bool)
    (session : Text) where
  abbrev W : Type 0
  W = S × Store table

  All-rev_append :
      (P : App → Type 0) (given done : List App)
      → All P (rev_append given done)
      → All P given × All P done
  All-rev_append P [] done h = (tt, h)
  All-rev_append P (a ∷ given) done h =
      let (g, (p, d)) = All-rev_append P given (a ∷ done) h in ((p, g), d)

  find_app-rev_append :
      (k : AppName) (given done : List App)
      → is_some (find_app k (rev_append given done)) ≡ true
      → (is_some (find_app k given) || is_some (find_app k done)) ≡ true
  find_app-rev_append k [] done h = h
  find_app-rev_append k (a ∷ given) done h =
      ground (arith, find_app-rev_append k given (a ∷ done) h)

  each_found :
      (e : table.Rows) (given : List App) (ids : List Text)
      → AllKept table session e given ids
      → All (λ a. (i : Text) × Kept table session e a i) given
  each_found e [] [] k = tt
  each_found e [] (i ∷ ids) k = absurd k
  each_found e (a ∷ given) [] k = absurd k
  each_found e (a ∷ given) (i ∷ ids) (k, ks) = ((i, k), each_found e given ids ks)

  kept_kind :
      (e : table.Rows) (given : List App) (ids : List Text) (i : Text) (r : Row)
      → AllKept table session e given ids
      → table.first e i ≡ some r
      → contains ids i ≡ true
      → is_some (find_app r.app given) ≡ true
  unfolding contains
  kept_kind e [] [] i r k f c = ground arith
  kept_kind e [] (j ∷ ids) i r k f c = absurd k
  kept_kind e (a ∷ given) [] i r k f c = absurd k
  kept_kind e (a ∷ given) (j ∷ ids) i r ((q, k), ks) f c = ground (
    arith,
    kept_kind e given ids i r ks f,
    k.row,
    k.of_kind,
    text_eq_iff j i,
    name_eq_iff a.app r.app,
    ap (table.first e),
  )

  -- The apps that are given are kept, under some ids, and the session has no other ids.
  abbrev Exactly : {A : Type 0} → List App → W × Result A → Type 0
  Exactly given (v, err e) = Unit
  Exactly given (v, ok _) =
      (ids : List Text) × AllKept table session v.1.rows given ids
      × Known table services exists session v.1.rows ids []

  Only-Exactly :
      {A : Type 0} (given : List App) (ids : List Text) (x : W × Result A)
      → Only table services exists session given ids [] x
      → Exactly given x
  Only-Exactly given ids (v, err e) h = tt
  Only-Exactly given ids (v, ok _) h = (ids, h.0, h.1)

  sync-Exactly :
      (apps : List App) (u : W)
      → AllDiffer [] apps
      → Exactly (rev_append apps []) (sync_session_apps table services exists session apps u)
  unfolding sync_session_apps list_apps
  sync-Exactly apps u w =
      let existing = get_all_by_session session u.1 in
      let given = rev_append apps [] in
      through (λ x. Exactly given x)
        (λ x. Upserted table services exists session given (app_ids existing) x)
        (upsert_each table services exists session existing apps [])
        (λ ids. delete_others table services exists ids existing) u
        (upsert_each-Upserted table services exists session existing [] apps [] (app_ids existing) u
          w tt (get_all-Known table services exists session u.1))
        (λ e v h. tt)
        (λ ids v h.
          Only-Exactly given ids (delete_others table services exists ids existing v)
            (delete_others-Only table services exists session given existing ids v h.0 h.1))

  -- When a synchronisation with apps of pairwise different kinds succeeds, each of them stands in the
  -- table for this session, under its own id if it has one, with its configuration, and enabled as
  -- it says; the session has no app of another kind; and every other session has the apps that it
  -- had.
  pub sync_session_apps_lem :
      (apps : List App) (u v : W)
      → AllDiffer [] apps
      → ◌≡◌ {A = W × Result (Unit {0})}
          (sync_session_apps table services exists session apps u)
          (v, ok tt)
      → All (λ a. (i : Text) × Kept table session v.1.rows a i) apps
        × ((i : Text) (r : Row)
            → table.first v.1.rows i ≡ some r
            → r.session ≡ session
            → is_some (find_app r.app apps) ≡ true)
        × ((s : Text) → session ≢ s → Untouched table s u.1.rows v.1.rows)
  unfolding contains
  sync_session_apps_lem apps u v w e =
      let (ids, kept, known) = subst (Exactly (rev_append apps [])) e (sync-Exactly apps u w) in
      (
        (All-rev_append (λ a. (i : Text) × Kept table session v.1.rows a i) apps []
            (each_found v.1.rows (rev_append apps []) ids kept)).0,
        λ i r f s.
            let listed : contains ids i ≡ true = ground (arith, known i r f s) in
            ground (
              arith,
              find_app-rev_append r.app apps []
                  (kept_kind v.1.rows (rev_append apps []) ids i r kept f listed),
            ),
        λ s other.
            subst (λ (x : W × Result (Unit {0})). Untouched table s u.1.rows x.0.1.rows) e
              (sync-Untouched table services exists session s other apps u),
      )
