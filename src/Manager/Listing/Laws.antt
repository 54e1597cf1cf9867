-- ===== src/Manager/Listing/Laws.antt =====
-- What `getSessions` and `getSessionInfo` of waha-plus/src/plus/manager.plus.ts list.
use aira_relay.Base.{
  true, false, if◌then◌else◌, Option, none, some, is_some, or_else, List, [], ◌∷◌, map, filter,
  Text, text_eq, text_eq_iff, lookup, keys, contains, Distinct, contains-keys, ◌≡◌, refl, subst, ap,
  ◌∙◌, arith, inl, inr, Bool-cases,
}
use mathlib.Core.Option
use aira_relay.Manager.{Database, World}
use aira_relay.Manager.Repositories.{get_all_configs, get_config}
use aira_relay.Manager.Controller.{is_named}
use aira_relay.Manager.Listing.{
  SessionInfo, runtime_info, named, runtime_infos, offline_info, get_runtime_sessions,
  get_offline_sessions, get_session_info,
}

-- The listed session of a name.
abbrev pub find_named : Text → List SessionInfo → Option SessionInfo
find_named k [] = none
find_named k (s ∷ infos) = if text_eq s.name k then some s else find_named k infos

-- Each entry is filed under its own name.
abbrev Filed : List (Text × SessionInfo) → Type 0
Filed [] = Unit
Filed ((k, s) ∷ d) = (s.name ≡ k) × Filed d

-- A name that stands once in a list is found once.
filter-Distinct :
    (k : Text) (names : List Text)
    → Distinct names
    → filter (λ n. text_eq n k) names ≡ (if contains names k then k ∷ [] else [])
unfolding contains
filter-Distinct k [] h = refl
filter-Distinct k (n ∷ names) h = elim (Bool-cases (text_eq n k)) [
  | inl e ↦
      let same : n ≡ k = (text_eq_iff n k).0 e in
      let rest = filter-Distinct k names h.1 in
      let absent : contains names k ≡ false = subst (λ x. contains names x ≡ false) same h.0 in
      ground (arith, rest, same, absent)
  | inr e ↦ rw e (filter-Distinct k names h.1)
]

module _ {db : Database} (w : World db) where
  -- What the database knows of a session.
  abbrev pub kept_info : Text → Option SessionInfo
  kept_info k = if is_some (get_config k w) then some (offline_info w k) else none

  contains-get_all_configs : (k : Text) → contains (get_all_configs w) k ≡ is_some (get_config k w)
  contains-get_all_configs k =
      contains-keys k (db.sessions.find w.configs)
      ∙ ap is_some (db.sessions.lookup-find w.configs k)

  -- `getSessionInfo` of the manager, for a name that is not empty, when neither the memory nor the database
  -- lists a name twice: a session in memory is shown as it runs, another as the database keeps it,
  -- stopped, and nothing if neither knows the name.
  pub get_session_info_lem :
      (name : Text)
      → is_named name ≡ true
      → Distinct (keys w.runtimes)
      → Distinct (get_all_configs w)
      → get_session_info name w
        ≡ or_else (Option.map (runtime_info name) (lookup name w.runtimes)) (kept_info name)
  unfolding get_session_info get_runtime_sessions get_offline_sessions named runtime_infos
  get_session_info_lem name h d e = ground (
    arith,
    filter-Distinct name (keys w.runtimes) d,
    filter-Distinct name (get_all_configs w) e,
    contains-keys name w.runtimes,
    contains-get_all_configs name,
  )
