-- ===== src/Apps.antt =====
-- The apps of sessions: waha-plus/src/apps/app_sdk/dto/app.dto.ts, apps/name.ts, apps/definition.ts,
-- apps/AppRuntime.ts and the table that storage/AppRepository.ts and migrations describe.
pub mod Repository
pub mod Service
pub mod Rows
pub mod Outcomes
pub mod Creation
pub mod Changes
pub mod Syncing
pub mod Synced
pub mod Replaced
pub mod Others
pub mod Exact
pub mod Replacing
pub mod Creating
pub mod Paging
pub mod Paged
pub mod Samples
pub mod Tests
pub mod Routes
pub mod Kinds
pub mod Untouched
pub mod Isolation
use aira_relay.Base.{
  ℕ, Bool, true, false, not, ◌&&◌, ◌||◌, if◌then◌else◌, Option, none, some, is_some, get_or, List,
  [], ◌∷◌, ◌++◌, Text, codes, text_eq, text_eq_iff, contains, any, filter, map, Distinct, ◌≡◌, ◌⊎◌,
  inl, inr, refl, arith,
}

-- `AppName`; a request or a row may hold any other text.
pub data AppName : Type 0 where
  chatwoot calls : AppName
  unsupported : Text → AppName

unfoldable pub name_eq : AppName → AppName → Bool
name_eq chatwoot chatwoot = true
name_eq calls calls = true
name_eq (unsupported s) (unsupported t) = text_eq s t
name_eq _ _ = false

pub name_eq_iff : (a b : AppName) → (name_eq a b ≡ true → a ≡ b) × (a ≡ b → name_eq a b ≡ true)
unfolding name_eq
name_eq_iff chatwoot chatwoot = (λ _. refl, λ _. refl)
name_eq_iff calls calls = (λ _. refl, λ _. refl)
name_eq_iff (unsupported s) (unsupported t) =
    (λ h. ground (arith, text_eq_iff s t), λ h. ground (arith, text_eq_iff s t))
name_eq_iff chatwoot calls = (λ h. cc, λ h. cc)
name_eq_iff chatwoot (unsupported t) = (λ h. cc, λ h. cc)
name_eq_iff calls chatwoot = (λ h. cc, λ h. cc)
name_eq_iff calls (unsupported t) = (λ h. cc, λ h. cc)
name_eq_iff (unsupported s) chatwoot = (λ h. cc, λ h. cc)
name_eq_iff (unsupported s) calls = (λ h. cc, λ h. cc)

-- `config` is the JSON text of the app's configuration. An app that does not say whether it is enabled
-- has `none`.
pub record App : Type 0 where
  pub id : Text
  pub session : Text
  pub app : AppName
  pub enabled : Option Bool
  pub config : Text

-- A row of the table `apps`; its number `pk` is never given out.
pub record Row : Type 0 where
  pub id : Text
  pub session : Text
  pub app : AppName
  pub enabled : Bool
  pub config : Text

-- What the driver returns for a Boolean column.
pub data Column : Type 0 where
  undefined null : Column
  boolean : Bool → Column
  number : ℕ → Column
  string : Text → Column

-- `array.find(a => a.id === id)`, and `array.find(a => a.app === app)`.
abbrev pub find_id : Text → List Row → Option Row
find_id i [] = none
find_id i (r ∷ rs) = if text_eq r.id i then some r else find_id i rs

-- What the repository uses of the table `apps`, whose `id` is unique, through Knex: `insert` fails,
-- which is `none`, exactly if the id is there; `select_where` returns the rows that fit, one to an
-- id; an `update` of the row with an id replaces its columns. A Boolean column comes back as it was
-- written or, from SQLite, as a number.
pub record AppsTable : Type 1 where
  pub Rows : Type 0
  pub first : Rows → Text → Option Row
  pub select_where : Rows → (Row → Bool) → List Row
  pub insert : Rows → Row → Option Rows
  pub update_where_id : Rows → Text → (Row → Row) → Rows
  pub delete_where : Rows → (Row → Bool) → Rows
  pub column : Bool → Column
  pub first-id : (d : Rows) (i : Text) (r : Row) → first d i ≡ some r → r.id ≡ i
  pub find_id-select_where :
      (d : Rows) (p : Row → Bool) (i : Text)
      → find_id i (select_where d p)
        ≡ (elim (first d i) [ none ↦ none | some r ↦ if p r then some r else none ])
  pub select_where-Distinct :
      (d : Rows) (p : Row → Bool) → Distinct (map (λ (r : Row). r.id) (select_where d p))
  pub insert-free : (d : Rows) (r : Row) → first d r.id ≡ none → is_some (insert d r) ≡ true
  pub first-insert :
      (d : Rows) (r : Row) (e : Rows) (i : Text)
      → insert d r ≡ some e
      → (first d r.id ≡ none) × (first e i ≡ (if text_eq r.id i then some r else first d i))
  pub first-update_where_id :
      (d : Rows) (k : Text) (f : Row → Row) (i : Text)
      → ((r : Row) → (f r).id ≡ k)
      → first (update_where_id d k f) i ≡ (
          if text_eq k i
          then (elim (first d i) [ none ↦ none | some r ↦ some (f r) ])
          else first d i)
  pub first-delete_where :
      (d : Rows) (p : Row → Bool) (i : Text)
      → first (delete_where d p) i
        ≡ (elim (first d i) [ none ↦ none | some r ↦ if p r then none else some r ])
  pub column-true : (column true ≡ boolean true) ⊎ (column true ≡ number 1)
  pub column-false : (column false ≡ boolean false) ⊎ (column false ≡ number 0)

-- `AppDefinition` and `APPS`.
pub record AppDefinition : Type 0 where
  pub name : AppName
  pub plainkey : Bool
  pub queue : Bool
  pub migrations : Bool

abbrev pub apps : List AppDefinition
apps =
    record { name = calls; plainkey = false; queue = false; migrations = false }
    ∷ record { name = chatwoot; plainkey = true; queue = true; migrations = true }
    ∷ []

-- `AppEnv`, read from the environment.
pub record AppEnv : Type 0 where
  pub enabled : Bool
  pub on : Option (List Text)
  pub off : Option (List Text)

abbrev name_text : AppName → Text
name_text chatwoot = codes "chatwoot"
name_text calls = codes "calls"
name_text (unsupported t) = t

-- A filter by a list that is given and not empty.
abbrev listed : Option (List Text) → Bool → AppDefinition → Bool
listed none within d = true
listed (some []) within d = true
listed (some (t ∷ ts)) within d =
    if within
    then contains (t ∷ ts) (name_text d.name)
    else not (contains (t ∷ ts) (name_text d.name))

-- `AppRuntimeConfigC.FromEnv`; `none` if apps are disabled.
unfoldable pub from_env : AppEnv → Option (List AppDefinition)
from_env env =
    if env.enabled
    then some (filter (listed env.off false) (filter (listed env.on true) apps))
    else none

-- `GetApps`, `HasApp`, `HasAppsRequiringPlainKey` and `HasAppsRequiringQueue`.
abbrev pub get_apps : Option (List AppDefinition) → List AppDefinition
get_apps runtime = get_or runtime []

unfoldable pub has_app : Option (List AppDefinition) → AppName → Bool
has_app runtime a = any (λ d. name_eq d.name a) (get_apps runtime)

unfoldable pub has_apps_requiring_plain_key : Option (List AppDefinition) → Bool
has_apps_requiring_plain_key runtime = any (λ (d : AppDefinition). d.plainkey) (get_apps runtime)

unfoldable pub has_apps_requiring_queue : Option (List AppDefinition) → Bool
has_apps_requiring_queue runtime = any (λ (d : AppDefinition). d.queue) (get_apps runtime)
