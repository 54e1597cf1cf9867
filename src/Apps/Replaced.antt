-- ===== src/Apps/Replaced.antt =====
-- The two loops of `syncSessionApps` of waha-plus/src/apps/app_sdk/services/AppsEnabledService.ts.
use aira_relay.Base.{
  Bool, true, false, not, Option, some, List, [], ◌∷◌, Text, text_eq, text_eq_iff, contains, map,
  ◌≡◌, ◌⊎◌, inl, inr, refl, sym, ap, ◌∙◌, subst, arith, Bool-cases,
}
use aira_relay.Base.Results.{Result, ok, err, M, ◌>>◌, when, pure}
use aira_relay.Base.Keeping.{through, when_then}
use aira_relay.Apps.{App, Row, AppsTable}
use aira_relay.Apps.Repository.{Store, deserialize, changed}
use aira_relay.Apps.Service.{Services, delete_app}
use aira_relay.Apps.Rows.{Inserted, Updated, Deleted}
use aira_relay.Apps.Creation.{CreatedAs}
use aira_relay.Apps.Changes.{UpdatedTo, upsert_app-UpsertedTo, DeletedFrom, delete_app-DeletedFrom}
use aira_relay.Apps.Syncing.{sync_app, upserted_id, upsert_app, upsert_each, delete_others}
use aira_relay.Apps.Synced.{
  Differ, AllDiffer, AllKept, Inserted-Kept, Updated-Kept, Inserted-stays, Deleted-stays, all_stay,
  all_others_stay,
}

-- The apps in the order in which the loop is done with them.
abbrev pub rev_append : List App → List App → List App
rev_append [] done = done
rev_append (a ∷ given) done = rev_append given (a ∷ done)

abbrev pub app_ids : List App → List Text
app_ids = map (λ (a : App). a.id)

module _ (table : AppsTable) (services : Services) {S : Type 0} (exists : Text → M S Bool)
    (session : Text) where
  abbrev W : Type 0
  W = S × Store table

  -- Every app of the session has one of these ids.
  abbrev pub Known : table.Rows → (ids more : List Text) → Type 0
  Known e ids more =
      (i : Text) (r : Row)
      → table.first e i ≡ some r
      → r.session ≡ session
      → (contains ids i ≡ true) ⊎ (contains more i ≡ true)

  Inserted-Known :
      (b : App) (d e : table.Rows) (ids more : List Text)
      → Inserted table b d e
      → Known d ids more
      → Known e (b.id ∷ ids) more
  unfolding contains
  Inserted-Known b d e ids more h n i r f s = elim (Bool-cases (text_eq b.id i)) [
    | inl same ↦ inl (rw same refl)
    | inr other ↦ rw other (n i r (ground (arith, h.rows i)) s)
  ]

  Updated-Known :
      (b : App) (old : Row) (d e : table.Rows) (ids more : List Text)
      → Updated table b old d e
      → Known d ids more
      → Known e (b.id ∷ ids) more
  unfolding contains
  Updated-Known b old d e ids more h n i r f s = elim (Bool-cases (text_eq b.id i)) [
    | inl same ↦ inl (rw same refl)
    | inr other ↦ rw other (n i r (ground (arith, h.rows i)) s)
  ]

  Deleted-Known :
      (old : Row) (d e : table.Rows) (ids more : List Text)
      → Deleted table old d e
      → Known d ids (old.id ∷ more)
      → Known e ids more
  unfolding contains
  Deleted-Known old d e ids more h n i r f s =
      let other : text_eq old.id i ≡ false = ground (arith, h.rows i) in
      rw other at (n i r (ground (arith, h.rows i)) s)

  listed-Known :
      (k : Text) (d : table.Rows) (ids more : List Text)
      → contains ids k ≡ true
      → Known d ids (k ∷ more)
      → Known d ids more
  unfolding contains
  listed-Known k d ids more h n i r f s = elim (n i r f s) [
    | inl l ↦ inl l
    | inr l ↦ ground (arith, text_eq_iff k i, ap (contains ids))
  ]

  -- One round of the first loop.
  abbrev Round :
      List App → List App → List Text → List Text → App → W × Result (Option App) → Type 0
  Round existing done ids more a (v, err e) = Unit
  Round existing done ids more a (v, ok saved) =
      let i = upserted_id (sync_app session existing a) saved in
      AllKept table session v.1.rows (a ∷ done) (i ∷ ids) × Known v.1.rows (i ∷ ids) more

  created-Round :
      (existing done : List App) (ids more : List Text) (a : App) (d : table.Rows)
      (x : W × Result (Option App))
      → AllKept table session d done ids
      → Known d ids more
      → CreatedAs table services exists (sync_app session existing a) d x
      → Round existing done ids more a x
  created-Round existing done ids more a d (v, err e) k n h = tt
  created-Round existing done ids more a d (v, ok saved) k n (i, own, e, h) =
      let b = record (sync_app session existing a) { id = i } in
      rw e (
        (
          Inserted-Kept table session existing a i d v.1.rows own h,
          all_stay table session d v.1.rows done ids
              (λ c j. Inserted-stays table session b d v.1.rows c j h) k,
        ),
        λ j r f s. Inserted-Known b d v.1.rows ids more h n j r f s,
      )

  updated-Round :
      (existing done : List App) (ids more : List Text) (a : App) (d : table.Rows)
      (x : W × Result (Option App))
      → Differ a done
      → AllKept table session d done ids
      → Known d ids more
      → UpdatedTo table services exists (sync_app session existing a) d x
      → Round existing done ids more a x
  unfolding deserialize changed
  updated-Round existing done ids more a d (v, err e) u k n h = tt
  updated-Round existing done ids more a d (v, ok saved) u k n (old, h, e) =
      let b = sync_app session existing a in
      rw e (
        (
          Updated-Kept table session existing a old d v.1.rows h,
          all_others_stay table session b old d v.1.rows done ids u h k,
        ),
        λ j r f s. Updated-Known b old d v.1.rows ids more h n j r f s,
      )

  upsert-Round :
      (existing done : List App) (ids more : List Text) (a : App) (u : W)
      → Differ a done
      → AllKept table session u.1.rows done ids
      → Known u.1.rows ids more
      → Round existing done ids more a
          (upsert_app table services exists (sync_app session existing a) u)
  upsert-Round existing done ids more a u w k n =
      let b = sync_app session existing a in
      let x = upsert_app table services exists b u in
      elim (upsert_app-UpsertedTo table services exists b u) [
        | inl h ↦ created-Round existing done ids more a u.1.rows x k n h.1
        | inr h ↦ updated-Round existing done ids more a u.1.rows x w k n h
      ]

  -- The first loop.
  abbrev pub Upserted : List App → List Text → W × Result (List Text) → Type 0
  Upserted given more (v, err e) = Unit
  Upserted given more (v, ok ids) =
      AllKept table session v.1.rows given ids × Known v.1.rows ids more

  pub upsert_each-Upserted :
      (existing done given : List App) (ids more : List Text) (u : W)
      → AllDiffer done given
      → AllKept table session u.1.rows done ids
      → Known u.1.rows ids more
      → Upserted
          (rev_append given done)
          more
          (upsert_each table services exists session existing given ids u)
  unfolding upsert_each
  upsert_each-Upserted existing done [] ids more u w k n = (k, n)
  upsert_each-Upserted existing done (a ∷ given) ids more u (w, ws) k n =
      let b = sync_app session existing a in
      through (Upserted (rev_append given (a ∷ done)) more) (Round existing done ids more a)
        (upsert_app table services exists b)
        (λ saved.
          upsert_each table services exists session existing given (upserted_id b saved ∷ ids))
        u (upsert-Round existing done ids more a u w k n) (λ e v h. tt)
        λ saved v h.
          upsert_each-Upserted existing (a ∷ done) given (upserted_id b saved ∷ ids) more v ws h.0
            h.1

  -- The second loop leaves what the first kept, and no other app of the session.
  all_left_stay :
      (old : Row) (d e : table.Rows) (given : List App) (ids : List Text)
      → contains ids old.id ≡ false
      → Deleted table old d e
      → AllKept table session d given ids
      → AllKept table session e given ids
  unfolding contains
  all_left_stay old d e [] [] c h k = tt
  all_left_stay old d e [] (i ∷ ids) c h k = k
  all_left_stay old d e (a ∷ given) [] c h k = k
  all_left_stay old d e (a ∷ given) (i ∷ ids) c h (k, ks) = (
    Deleted-stays table session old d e a i
        (ground (arith, text_eq_iff old.id i, text_eq_iff i old.id)) h k,
    all_left_stay old d e given ids (ground arith) h ks,
  )

  abbrev pub Only : {A : Type 0} → List App → (ids more : List Text) → W × Result A → Type 0
  Only given ids more (v, err e) = Unit
  Only given ids more (v, ok _) = AllKept table session v.1.rows given ids × Known v.1.rows ids more

  deleted-Only :
      (given : List App) (ids more : List Text) (id : Text) (d : table.Rows) (x : W × Result App)
      → contains ids id ≡ false
      → AllKept table session d given ids
      → Known d ids (id ∷ more)
      → DeletedFrom table services exists id d x
      → Only given ids more x
  deleted-Only given ids more id d (v, err e) c k n h = tt
  deleted-Only given ids more id d (v, ok a) c k n (old, i, _, h) = (
    all_left_stay old d v.1.rows given ids (ap (contains ids) i ∙ c) h k,
    Deleted-Known old d v.1.rows ids more h (subst (λ j. Known d ids (j ∷ more)) (sym i) n),
  )

  pub delete_others-Only :
      (given existing : List App) (ids : List Text) (u : W)
      → AllKept table session u.1.rows given ids
      → Known u.1.rows ids (app_ids existing)
      → Only given ids [] (delete_others table services exists ids existing u)
  unfolding delete_others
  delete_others-Only given [] ids u k n = (k, n)
  delete_others-Only given (app ∷ rest) ids u k n =
      let more = app_ids rest in
      let delete = delete_app table services exists app.id in
      through (λ x. Only given ids [] x) (λ x. Only given ids more x)
        (when (not (contains ids app.id)) (delete >> pure tt))
        (λ _. delete_others table services exists ids rest) u
        (when_then (λ x. Only given ids more x) (not (contains ids app.id)) (delete >> pure tt) u
          (λ c. (k, listed-Known app.id u.1.rows ids more (ground arith) n))
          (λ c.
            through (λ x. Only given ids more x) (λ x. Only given ids more x) delete (λ _. pure tt)
              u
              (deleted-Only given ids more app.id u.1.rows (delete u) (ground arith) k n
                (delete_app-DeletedFrom table services exists app.id u))
              (λ e v h. tt) (λ a v h. h)))
        (λ e v h. tt) (λ _ v h. delete_others-Only given rest ids v h.0 h.1)
