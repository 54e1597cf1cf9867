-- ===== src/Auth/Abilities.antt =====
-- Abilities and policies: casl.rules.ts, casl.ability.ts, casl.types.ts, policies.ts and
-- policies.guard.ts of waha-plus/src/core/auth.
use aira_relay.Base.{
  ℕ, Bool, true, false, ◌&&◌, ◌||◌, ◌==◌, leb, if◌then◌else◌, Option, none, some, get_or, List, [],
  ◌∷◌, Text, text_eq, all, any, filter, ◌≡◌,
}
use aira_relay.Base.Results.{bad_request, forbidden, Result, ok, err}
use aira_relay.Auth.{User, is_truthy}

pub data Action : Type 0 where
  manage list read create delete use_session : Action

abbrev pub action_eq : Action → Action → Bool
action_eq manage manage = true
action_eq list list = true
action_eq read read = true
action_eq create create = true
action_eq delete delete = true
action_eq use_session use_session = true
action_eq _ _ = false

-- What a check is about: a session of a name, or a kind.
pub data Subject : Type 0 where
  session_named : Text → Subject
  session_kind server_kind : Subject

pub data RuleSubject : Type 0 where
  all_subjects sessions server : RuleSubject

-- A rule with its condition on the session's name, if it has one.
pub record Rule : Type 0 where
  pub action : Action
  pub subject : RuleSubject
  pub name : Option Text

unfoldable pub admin_rules : List Rule
admin_rules = record { action = manage; subject = all_subjects; name = none } ∷ []

unfoldable pub session_rules : Text → List Rule
session_rules name =
    record { action = read; subject = server; name = none }
    ∷ record { action = list; subject = sessions; name = none }
    ∷ record { action = read; subject = sessions; name = some name }
    ∷ record { action = use_session; subject = sessions; name = some name }
    ∷ []

-- What the documentation of CASL says of one rule: `manage` is any action and `all` any subject, a
-- condition is on the fields of an object, and a check of a kind passes over the conditions.
abbrev pub subject_matches : RuleSubject → Option Text → Subject → Bool
subject_matches all_subjects name s = true
subject_matches sessions none (session_named n) = true
subject_matches sessions (some m) (session_named n) = text_eq n m
subject_matches sessions name session_kind = true
subject_matches server name server_kind = true
subject_matches _ _ _ = false

abbrev pub matches : Action → Subject → Rule → Bool
matches a s r =
    (action_eq r.action manage || action_eq r.action a) && subject_matches r.subject r.name s

-- `createMongoAbility` and `can` of the CASL package, for rules that allow.
pub record Casl : Type 0 where
  pub can : List Rule → Action → Subject → Bool
  pub can_rules : (rs : List Rule) (a : Action) (s : Subject) → can rs a s ≡ any (matches a s) rs

unfoldable pub create_for_user : Option User → List Rule
unfolding admin_rules session_rules
create_for_user none = admin_rules
create_for_user (some user) =
    if user.is_admin
    then admin_rules
    else if is_truthy user.session
    then session_rules (get_or user.session [])
    else []

-- What `trim` takes off.
abbrev pub is_space : ℕ → Bool
is_space c =
    (leb 9 c && leb c 13)
    || (c == 32
        || c == 160
        || c == 0x1680
        || (leb 0x2000 c && leb c 0x200a)
        || c == 0x2028
        || c == 0x2029
        || c == 0x202f
        || c == 0x205f
        || c == 0x3000
        || c == 0xfeff)

unfoldable pub require_session_name : Option Text → Result Text
require_session_name none = err bad_request
require_session_name (some name) = if all is_space name then err bad_request else ok name

module _ (casl : Casl) where
  -- `FilterSessions`, by the sessions' names.
  unfoldable pub filter_sessions : List Rule → Action → List Text → List Text
  filter_sessions ability action = filter (λ n. casl.can ability action (session_named n))

  -- `CanSession`: without a name, and with what the request has in the name's place.
  unfoldable pub can_session_kind : Action → List Rule → Result Bool
  can_session_kind action ability = ok (casl.can ability action session_kind)

  unfoldable pub can_session : Action → Option Text → List Rule → Result Bool
  unfolding require_session_name
  can_session action name ability = elim (require_session_name name) [
    | err e ↦ err e
    | ok n ↦ ok (casl.can ability action (session_named n))
  ]

  unfoldable pub can_server : Action → List Rule → Result Bool
  can_server action ability = ok (casl.can ability action server_kind)

-- `handlers.every(...)`: the first that is false or throws ends it.
unfoldable pub every : List (List Rule → Result Bool) → List Rule → Result Bool
every [] ability = ok true
every (handler ∷ handlers) ability = elim (handler ability) [
  | err e ↦ err e
  | ok false ↦ ok false
  | ok true ↦ every handlers ability
]

-- `PoliciesGuard.canActivate`.
unfoldable pub can_activate : List (List Rule → Result Bool) → Option User → Result Bool
unfolding create_for_user every
can_activate handlers user = elim (every handlers (create_for_user user)) [
  | err e ↦ err e
  | ok true ↦ ok true
  | ok false ↦ err forbidden
]
