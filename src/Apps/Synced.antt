-- ===== src/Apps/Synced.antt =====
-- What `syncSessionApps` of waha-plus/src/apps/app_sdk/services/AppsEnabledService.ts leaves, step by
-- step: the apps that were given so far are kept, each under its id.
use aira_relay.Base.{
  Bool, false, some, List, [], ◌∷◌, Text, text_eq, text_eq_iff, text_eq_refl, ◌≡◌, ◌≢◌, refl, ap,
  ◌∙◌, arith,
}
use aira_relay.Apps.{App, Row, AppsTable}
use aira_relay.Apps.Repository.{new_row, changed}
use aira_relay.Apps.Rows.{OwnId, Inserted, Updated, Deleted}
use aira_relay.Apps.Syncing.{sync_id, sync_app}

-- The app stands in the table as it was given: under its own id, if it has one, and enabled as it says,
-- if it does.
pub record IsKept (table : AppsTable) (session : Text) (e : table.Rows) (a : App) (i : Text)
    (r : Row) : Type 0 where
  pub row : table.first e i ≡ some r
  pub of_session : r.session ≡ session
  pub of_kind : r.app ≡ a.app
  pub configured : r.config ≡ a.config
  pub enabled : (b : Bool) → a.enabled ≡ some b → r.enabled ≡ b
  pub own : OwnId a i

-- The apps are of pairwise different kinds, and of others than those done before.
abbrev pub Differ : App → List App → Type 0
Differ a [] = Unit
Differ a (b ∷ bs) = (b.app ≢ a.app) × Differ a bs

abbrev pub AllDiffer : (done : List App) → List App → Type 0
AllDiffer done [] = Unit
AllDiffer done (a ∷ given) = Differ a done × AllDiffer (a ∷ done) given

module _ (table : AppsTable) (session : Text) where
  abbrev pub Kept : table.Rows → App → Text → Type 0
  Kept e a i = (r : Row) × IsKept table session e a i r

  -- The apps and their ids, one by one.
  abbrev pub AllKept : table.Rows → List App → List Text → Type 0
  AllKept e [] [] = Unit
  AllKept e [] (i ∷ ids) = ⊥
  AllKept e (a ∷ given) [] = ⊥
  AllKept e (a ∷ given) (i ∷ ids) = Kept e a i × AllKept e given ids

  own-sync_id :
      (existing : List App) (a : App) (i : Text) → OwnId (sync_app session existing a) i → OwnId a i
  unfolding sync_id
  own-sync_id existing a i own = own_of a.id refl
    where
      own_of : (id : Text) → a.id ≡ id → OwnId a i
      own_of [] e n = absurd (ground arith)
      own_of (c ∷ id) e n = ground (arith)

  pub Inserted-Kept :
      (existing : List App) (a : App) (i : Text) (d e : table.Rows)
      → OwnId (sync_app session existing a) i
      → Inserted table (record (sync_app session existing a) { id = i }) d e
      → Kept e a i
  unfolding new_row
  Inserted-Kept existing a i d e own h =
      let b = record (sync_app session existing a) { id = i } in
      (
        new_row b,
        record {
          row = h.rows i ∙ rw (text_eq_refl i) refl;
          of_session = refl;
          of_kind = refl;
          configured = refl;
          enabled = λ x k. rw k refl;
          own = own-sync_id existing a i own;
        },
      )

  pub Updated-Kept :
      (existing : List App) (a : App) (old : Row) (d e : table.Rows)
      → Updated table (sync_app session existing a) old d e
      → Kept e a (sync_id existing a)
  unfolding changed
  Updated-Kept existing a old d e h =
      let b = sync_app session existing a in
      (
        changed b old,
        record {
          row = h.rows b.id ∙ rw (text_eq_refl b.id) refl;
          of_session = refl;
          of_kind = refl;
          configured = refl;
          enabled = λ x k. rw k refl;
          own = own-sync_id existing a b.id (λ _. refl);
        },
      )

  -- A row stays through what happens to other rows.
  stays :
      (d e : table.Rows) (a : App) (i : Text) (k : Kept d a i)
      → table.first e i ≡ table.first d i
      → Kept e a i
  stays d e a i (r, k) h = (
    r,
    record {
      row = h ∙ k.row;
      of_session = k.of_session;
      of_kind = k.of_kind;
      configured = k.configured;
      enabled = k.enabled;
      own = k.own;
    },
  )

  pub Inserted-stays :
      (b : App) (d e : table.Rows) (a : App) (i : Text)
      → Inserted table b d e
      → Kept d a i
      → Kept e a i
  Inserted-stays b d e a i h (r, k) =
      stays d e a i (r, k)
        (ground (arith, h.rows i, h.free, k.row, text_eq_iff b.id i, ap (table.first d)))

  Updated-stays :
      (b : App) (old : Row) (d e : table.Rows) (a : App) (i : Text)
      → a.app ≢ b.app
      → Updated table b old d e
      → Kept d a i
      → Kept e a i
  Updated-stays b old d e a i n h (r, k) =
      stays d e a i (r, k)
        (ground (
          arith,
          n,
          h.rows i,
          h.found,
          h.same_app,
          k.row,
          k.of_kind,
          text_eq_iff b.id i,
          ap (table.first d),
        ))

  pub Deleted-stays :
      (old : Row) (d e : table.Rows) (a : App) (i : Text)
      → text_eq old.id i ≡ false
      → Deleted table old d e
      → Kept d a i
      → Kept e a i
  Deleted-stays old d e a i n h k = stays d e a i k (ground (arith, h.rows i))

  -- So all that were kept are, where every one of them is.
  pub all_stay :
      (d e : table.Rows) (given : List App) (ids : List Text)
      → ((a : App) (i : Text) → Kept d a i → Kept e a i)
      → AllKept d given ids
      → AllKept e given ids
  all_stay d e [] [] h k = tt
  all_stay d e [] (i ∷ ids) h k = k
  all_stay d e (a ∷ given) [] h k = k
  all_stay d e (a ∷ given) (i ∷ ids) h (k, ks) = (h a i k, all_stay d e given ids h ks)

  pub all_others_stay :
      (b : App) (old : Row) (d e : table.Rows) (given : List App) (ids : List Text)
      → Differ b given
      → Updated table b old d e
      → AllKept d given ids
      → AllKept e given ids
  all_others_stay b old d e [] [] n h k = tt
  all_others_stay b old d e [] (i ∷ ids) n h k = k
  all_others_stay b old d e (a ∷ given) [] n h k = k
  all_others_stay b old d e (a ∷ given) (i ∷ ids) (n, ns) h (k, ks) =
      (Updated-stays b old d e a i n h k, all_others_stay b old d e given ids ns h ks)
