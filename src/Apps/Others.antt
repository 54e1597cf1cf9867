-- ===== src/Apps/Others.antt =====
-- What `syncSessionApps` of waha-plus/src/apps/app_sdk/services/AppsEnabledService.ts starts from, and
-- that it leaves the apps of other sessions alone.
use aira_relay.Base.{
  Bool, true, false, not, if◌then◌else◌, none, some, List, [], ◌∷◌, Text, text_eq_iff, text_eq_refl,
  contains, map, All, Distinct, ◌≡◌, ◌≢◌, inr, refl, ap, ◌∙◌, arith,
}
use aira_relay.Base.Results.{Result, ok, err, M, ◌>>◌, when, pure}
use aira_relay.Base.Keeping.{through, when_then}
use aira_relay.Apps.{App, Row, AppsTable, find_id}
use aira_relay.Apps.Repository.{Store, deserialize, of_session, get_all_by_session}
use aira_relay.Apps.Service.{Services, delete_app, list_apps}
use aira_relay.Apps.Changes.{upsert_app-UpsertedTo, DeletedFrom, delete_app-DeletedFrom}
use aira_relay.Apps.Untouched.{
  Untouched, refl-Untouched, trans-Untouched, update-Keeps, Deleted-Untouched,
}
use aira_relay.Apps.Syncing.{
  sync_app, upserted_id, upsert_app, upsert_each, delete_others, sync_session_apps,
}
use aira_relay.Apps.Replaced.{app_ids, Known}

-- The rows of a list have different ids, so each is found by its own.
contains-find_id :
    (i : Text) (r : Row) (rs : List Row)
    → find_id i rs ≡ some r
    → contains (map (λ (x : Row). x.id) rs) i ≡ true
unfolding contains
contains-find_id i r [] h = ground arith
contains-find_id i r (x ∷ rs) h = ground (arith, contains-find_id i r rs)

abbrev Found : List Row → List Row → Type 0
Found rs = All (λ (r : Row). find_id r.id rs ≡ some r)

Found-cons :
    (x : Row) (rs some_rows : List Row)
    → contains (map (λ (r : Row). r.id) rs) x.id ≡ false
    → Found rs some_rows
    → Found (x ∷ rs) some_rows
Found-cons x rs [] c h = tt
Found-cons x rs (r ∷ more) c (f, fs) = (
  ground (
    arith,
    contains-find_id r.id r rs f,
    text_eq_iff x.id r.id,
    ap (contains (map (λ (r : Row). r.id) rs)),
  ),
  Found-cons x rs more c fs,
)

Found-Distinct : (rs : List Row) → Distinct (map (λ (r : Row). r.id) rs) → Found rs rs
Found-Distinct [] d = tt
Found-Distinct (x ∷ rs) (c, d) =
    (rw (text_eq_refl x.id) refl, Found-cons x rs rs c (Found-Distinct rs d))

module _ (table : AppsTable) where
  -- The apps stand in the table, each in the session.
  abbrev Listed : table.Rows → Text → List App → Type 0
  Listed d session = All (λ a. (r : Row) × (table.first d a.id ≡ some r) × (r.session ≡ session))

  Listed-rows :
      (d : table.Rows) (session : Text) (rs some_rows : List Row)
      → ((i : Text)
          → find_id i rs ≡ (elim (table.first d i) [
            | none ↦ none
            | some r ↦ if of_session session r then some r else none
          ]))
      → Found rs some_rows
      → Listed d session (map (deserialize table) some_rows)
  unfolding deserialize
  Listed-rows d session rs [] h f = tt
  Listed-rows d session rs (r ∷ more) h (f, fs) = (
    (r, ground (arith, h r.id), ground (arith, h r.id, text_eq_iff r.session session)),
    Listed-rows d session rs more h fs,
  )

  get_all-Listed :
      (session : Text) (w : Store table) → Listed w.rows session (get_all_by_session session w)
  unfolding get_all_by_session
  get_all-Listed session w =
      let rs = table.select_where w.rows (of_session session) in
      Listed-rows w.rows session rs rs (table.find_id-select_where w.rows (of_session session))
        (Found-Distinct rs (table.select_where-Distinct w.rows (of_session session)))

  contains-app_ids :
      (i : Text) (r : Row) (rs : List Row)
      → find_id i rs ≡ some r
      → contains (app_ids (map (deserialize table) rs)) i ≡ true
  unfolding contains deserialize
  contains-app_ids i r [] h = ground arith
  contains-app_ids i r (x ∷ rs) h = ground (arith, contains-app_ids i r rs)

  -- Every app of the session is in the list of the apps that were there.
  pub get_all-Known :
      (services : Services) {S : Type 0} (exists : Text → M S Bool) (session : Text)
      (w : Store table)
      → Known table services exists session w.rows [] (app_ids (get_all_by_session session w))
  unfolding get_all_by_session
  get_all-Known services exists session w i r f s = inr (
      contains-app_ids i r (table.select_where w.rows (of_session session)) (
        table.find_id-select_where w.rows (of_session session) i
        ∙ rw (f, s, text_eq_refl session) refl))

module _ (table : AppsTable) (services : Services) {S : Type 0} (exists : Text → M S Bool)
    (session : Text) where
  abbrev W : Type 0
  W = S × Store table

  -- Other sessions.
  module _ (s : Text) (other : session ≢ s) where
    upsert_each-Untouched :
        (existing given : List App) (ids : List Text) (d : table.Rows) (u : W)
        → Untouched table s d u.1.rows
        → Untouched table s d
            (upsert_each table services exists session existing given ids u).0.1.rows
    unfolding upsert_each
    upsert_each-Untouched existing [] ids d u h = h
    upsert_each-Untouched existing (a ∷ given) ids d u h =
        let b = sync_app session existing a in
        let x = upsert_app table services exists b u in
        through (λ x. Untouched table s d x.0.1.rows) (λ x. Untouched table s d x.0.1.rows)
          (upsert_app table services exists b)
          (λ saved.
            upsert_each table services exists session existing given (upserted_id b saved ∷ ids))
          u
          (trans-Untouched table s d u.1.rows x.0.1.rows h (
            update-Keeps table services exists s b u.1.rows x other
              (upsert_app-UpsertedTo table services exists b u)))
          (λ e v k. k)
          (λ saved v k. upsert_each-Untouched existing given (upserted_id b saved ∷ ids) d v k)

    deleted-Untouched :
        (id : Text) (d : table.Rows) (u : W) (x : W × Result App) (r : Row)
        → table.first d id ≡ some r
        → r.session ≡ session
        → Untouched table s d u.1.rows
        → DeletedFrom table services exists id u.1.rows x
        → Untouched table s d x.0.1.rows
    deleted-Untouched id d u (v, err e) r f k h g =
        trans-Untouched table s d u.1.rows v.1.rows h (refl-Untouched table s u.1.rows v.1.rows g)
    deleted-Untouched id d u (v, ok a) r f k h (old, i, _, g) =
        trans-Untouched table s d u.1.rows v.1.rows h (
          Deleted-Untouched table s old u.1.rows v.1.rows
            (λ e. other (ground (arith, f, k, e, (h old.id old e).1 g.found, ap (table.first d) i)))
            g)

    delete_others-Untouched :
        (ids : List Text) (existing : List App) (d : table.Rows) (u : W)
        → Listed table d session existing
        → Untouched table s d u.1.rows
        → Untouched table s d (delete_others table services exists ids existing u).0.1.rows
    unfolding delete_others
    delete_others-Untouched ids [] d u l h = h
    delete_others-Untouched ids (app ∷ rest) d u ((r, f, k), l) h =
        let delete = delete_app table services exists app.id in
        through (λ x. Untouched table s d x.0.1.rows) (λ x. Untouched table s d x.0.1.rows)
          (when (not (contains ids app.id)) (delete >> pure tt))
          (λ _. delete_others table services exists ids rest) u
          (when_then (λ x. Untouched table s d x.0.1.rows) (not (contains ids app.id))
            (delete >> pure tt) u (λ _. h)
            (λ _.
              through (λ x. Untouched table s d x.0.1.rows) (λ x. Untouched table s d x.0.1.rows)
                delete (λ _. pure tt) u
                (deleted-Untouched app.id d u (delete u) r f k h
                  (delete_app-DeletedFrom table services exists app.id u))
                (λ e v j. j) (λ _ v j. j)))
          (λ e v j. j) (λ _ v j. delete_others-Untouched ids rest d v l j)

    pub sync-Untouched :
        (apps : List App) (u : W)
        → Untouched table s u.1.rows
            (sync_session_apps table services exists session apps u).0.1.rows
    unfolding sync_session_apps list_apps
    sync-Untouched apps u =
        let d = u.1.rows in
        let existing = get_all_by_session session u.1 in
        through (λ x. Untouched table s d x.0.1.rows) (λ x. Untouched table s d x.0.1.rows)
          (upsert_each table services exists session existing apps [])
          (λ ids. delete_others table services exists ids existing) u
          (upsert_each-Untouched existing apps [] d u (refl-Untouched table s d d refl))
          (λ e v k. k)
          (λ ids v k. delete_others-Untouched ids existing d v (get_all-Listed table session u.1) k)
