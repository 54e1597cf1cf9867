-- ===== src/Apps/Outcomes.antt =====
-- The steps of waha-plus/src/apps/app_sdk/services/AppsEnabledService.ts that leave the table as it is.
use aira_relay.Base.{Bool, Text, ◌≡◌, refl, arith}
use aira_relay.Base.Results.{Result, M}
use aira_relay.Apps.{AppName, chatwoot, calls, unsupported, AppsTable}
use aira_relay.Apps.Repository.{Hook, Store}
use aira_relay.Apps.Service.{Services, call, check_session_exists, get_app_service, require_service}

module _ (table : AppsTable) (services : Services) {S : Type 0} (exists : Text → M S Bool) where
  abbrev W : Type 0
  W = S × Store table

  abbrev pub SameRows : {A : Type 0} → table.Rows → W × Result A → Type 0
  SameRows d x = x.0.1.rows ≡ d

  pub call-SameRows : (h : Hook) (u : W) → SameRows u.1.rows (call table services exists h u)
  unfolding call
  call-SameRows h u = refl

  pub check-SameRows :
      (name : Text) (u : W) → SameRows u.1.rows (check_session_exists table services exists name u)
  unfolding check_session_exists
  check-SameRows name u = ground arith

  pub service-SameRows :
      (name : AppName) (u : W) → SameRows u.1.rows (require_service table services exists name u)
  unfolding require_service get_app_service
  service-SameRows chatwoot u = ground arith
  service-SameRows calls u = ground arith
  service-SameRows (unsupported t) u = refl

  pub get_app_service-SameRows :
      (name : AppName) (u : W) → SameRows u.1.rows (get_app_service table services exists name u)
  unfolding get_app_service
  get_app_service-SameRows chatwoot u = refl
  get_app_service-SameRows calls u = refl
  get_app_service-SameRows (unsupported t) u = refl
