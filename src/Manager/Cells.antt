-- ===== src/Manager/Cells.antt =====
-- What the manager promises of one session: a cell with all that is kept about it, the operations on
-- that cell alone, and the relation between an operation of the manager and one of the cell.
use aira_relay.Base.{
  Bool, true, false, not, ◌&&◌, if◌then◌else◌, Option, none, some, is_some, get_or, Text, text_eq,
  text_eq_iff, lookup, Bool-cases, inl, inr, ◌≡◌, refl, ap, arith,
}
use mathlib.Core.Option
use aira_relay.Base.Results.{internal, Result, ok, err, M, ◌>>◌, pure, modify, require}
use aira_relay.Session.{MeInfo, new_session, failed, set_status, is_failed, start, stop}
use aira_relay.Manager.{
  SessionConfig, empty_config, Database, Runtime, World, ServerConfig, Answers,
}
use aira_relay.Manager.Settings.{get_webhooks, ignore_chats_config}
use aira_relay.Manager.Operations.{SessionDto, dto, told_me}
use aira_relay.Manager.Repositories.{session_db_name}

-- The proxy of a running session is the one setting that depends on other sessions: it is left out.
pub record Cell : Type 0 where
  pub config : Option SessionConfig
  pub me : Option MeInfo
  pub worker : Option Text
  pub auth : Bool
  pub runtime : Option Runtime

abbrev pub erase : Runtime → Runtime
erase r = record r { proxy = none }

unfoldable pub view : {db : Database} → Text → World db → Cell
view {db} name w = record {
  config = db.sessions.find_one w.configs name;
  me = db.mes.find_one w.mes name;
  worker = db.workers.find_one w.workers name;
  auth = w.auth (session_db_name name);
  runtime = Option.map erase (lookup name w.runtimes);
}

-- What an operation on session `name` that left the cell `c` does to another session's: the two have the
-- same credentials if the names of their databases agree, and nothing else in common.
unfoldable pub shared : Text → Cell → Text → Cell → Cell
shared name c j d = record d {
  auth = if text_eq (session_db_name name) (session_db_name j) then c.auth else d.auth;
}

pub same_auth :
    (f : Text → Bool) (name j : Text)
    → (if text_eq (session_db_name name) (session_db_name j)
        then f (session_db_name name)
        else f (session_db_name j))
      ≡ f (session_db_name j)
same_auth f name j = ground (arith, text_eq_iff (session_db_name name) (session_db_name j), ap f)

-- An operation that leaves the credentials of its session leaves the cell of another.
pub shared_keeps :
    {db : Database} (name j : Text) (c : Cell) (w : World db)
    → c.auth ≡ (view name w).auth
    → shared name c j (view j w) ≡ view j w
unfolding shared view
shared_keeps name j c w e = rw (e, same_auth w.auth name j) refl

pub shared-shared :
    (name j : Text) (a b d : Cell) → shared name a j (shared name b j d) ≡ shared name a j d
unfolding shared
shared-shared name j a b d =
    ground (arith, Bool-cases (text_eq (session_db_name name) (session_db_name j)))

-- Another worker's assignment stays.
abbrev pub without : Text → Option Text → Option Text
without worker none = none
without worker (some v) = if text_eq v worker then none else some v

-- The account that is kept after a stop: the session's own if it tells it, and the kept one if not.
abbrev pub told_or : Option MeInfo → Option MeInfo → Option MeInfo
told_or none kept = kept
told_or (some me) kept = some me

abbrev pub account_after : Cell → Option MeInfo
account_after c = elim c.runtime [ none ↦ c.me | some r ↦ told_or (told_me r.session) c.me ]

module _ (server : ServerConfig) (answers : Answers) (name : Text) where
  unfoldable pub cell_exists : M Cell Bool
  cell_exists c = if is_some c.config then (c, ok true) else elim (answers.engine_found name) [
    | some true ↦ (record c { config = some empty_config }, ok true)
    | _ ↦ (c, ok false)
  ]

  unfoldable pub cell_upsert : Option SessionConfig → M Cell (Unit {0})
  cell_upsert config c = (record c { config = some (get_or config empty_config) }, ok tt)

  unfoldable pub cell_delete : M Cell (Unit {0})
  cell_delete c =
      if answers.remove_apps name
      then (record c { config = none; me = none; worker = none; auth = false }, ok tt)
      else (c, err internal)

  unfoldable pub cell_prepare : Cell → Runtime
  cell_prepare c =
      let fresh = new_session name in
      record {
        session = if answers.before_start name then fresh else set_status failed fresh;
        config = c.config;
        proxy = none;
        ignore = ignore_chats_config server c.config;
        webhooks = get_webhooks server c.config;
      }

  unfoldable pub cell_run : Runtime → M Cell (Option SessionDto)
  cell_run r c =
      if is_failed r.session.status
      then (record c { runtime = some r }, ok (dto name r))
      else (let started = record r { session = start r.session } in
            do
              modify (λ k. record k { runtime = some started })
              require (answers.session_start name) internal
              require (answers.after_start name) internal
              pure (dto name started))
          c

  unfoldable pub cell_start : M Cell (Option SessionDto)
  cell_start c =
      if is_some c.runtime
      then (c, ok none)
      else if not (answers.media_ready name)
      then (c, err internal)
      else cell_run (cell_prepare c) c

  unfoldable pub cell_stop : Bool → M Cell (Unit {0})
  cell_stop silent c = elim c.runtime [
    | none ↦ (c, ok tt)
    | some r ↦
        let told = record c { me = account_after c } in
        if not (answers.session_stop name) && not silent
        then (record told { runtime = some (record r { session = stop r.session }) }, err internal)
        else (record told { runtime = none }, ok tt)
  ]

  unfoldable pub cell_unpair : M Cell (Unit {0})
  cell_unpair c = (c, ok tt)

  unfoldable pub cell_logout : M Cell (Unit {0})
  cell_logout c = (record c { auth = false; me = none }, ok tt)

  unfoldable pub cell_assign : M Cell (Unit {0})
  cell_assign c = (record c { worker = some server.worker_id }, ok tt)

  unfoldable pub cell_unassign : M Cell (Unit {0})
  cell_unassign c = (record c { worker = without server.worker_id c.worker }, ok tt)

-- An operation of the manager on session `name` is that of the cell: it has its result, it does to the
-- session's cell what the cell's operation does, and to another what the credentials in common do.
pub record Refines {db : Database} {A : Type 0} (name : Text) (m : M (World db) A) (c : M Cell A)
    : Type 0 where
  pub result : (w : World db) → (m w).1 ≡ (c (view name w)).1
  pub inside : (w : World db) → view name (m w).0 ≡ (c (view name w)).0
  pub outside :
      (w : World db) (j : Text)
      → text_eq name j ≡ false
      → view j (m w).0 ≡ shared name (view name (m w).0) j (view j w)

-- The same at one state and one cell: `m` answers as `c` does, and the cell of `j` afterwards is what `c`
-- leaves if `j` is the session's name, and what it was, but for credentials in common, if not.
abbrev pub Simulates :
    {db : Database} {A : Type 0} → Text → World db → Text → M (World db) A → M Cell A → Type 0
Simulates name w j m c =
    ((m w).1 ≡ (c (view name w)).1)
    × (view j (m w).0 ≡ (
        if text_eq name j
        then (c (view name w)).0
        else shared name (c (view name w)).0 j (view j w)))

pub simulate :
    {db : Database} {A : Type 0} {name : Text} {m : M (World db) A} {c : M Cell A}
    → Refines name m c
    → (w : World db) (j : Text) → Simulates name w j m c
simulate {name} {m} {c} h w j = (
  h.result w,
  elim (Bool-cases (text_eq name j)) [
    | inl e ↦ rw (e, ← (text_eq_iff name j).0 e) (h.inside w)
    | inr e ↦ rw (e, ← h.inside w) (h.outside w j e)
  ],
)

-- The outcome of an operation on its own cell.
pub outcome :
    {db : Database} {A : Type 0} {name : Text} {m : M (World db) A} {c : M Cell A}
    → Refines name m c
    → (w : World db) → ◌≡◌ {A = Cell × Result A} (view name (m w).0, (m w).1) (c (view name w))
outcome h w i = (h.inside w i, h.result w i)
