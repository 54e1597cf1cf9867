-- ===== src/Manager/Refinement.antt =====
-- Each operation of the manager refines that of the cell, and so does what is composed of them.
pub mod Starting
use aira_relay.Base.{
  Option, Bool, true, false, is_some, get_or, Text, text_eq, text_eq_refl, lookup, insert,
  lookup-insert, lookup-remove, ◌≡◌, refl, sym, ◌∙◌, arith, ap, inl, inr, Option-cases, Bool-cases,
  none, some, if◌then◌else◌,
}
use aira_relay.Base.Results.{Error, Result, ok, err, M, ◌>>=◌, pure, throw, require}
use aira_relay.Session.{MeInfo, start, stop}
use aira_relay.Manager.{
  SessionConfig, empty_config, Database, Runtime, World, ServerConfig, Answers,
}
use aira_relay.Manager.Operations.{
  is_running, exists, upsert, delete, prepare, run_engine, start_new, start_session, stop_session,
  unpair, logout, assign, unassign, put_runtime, update_sessions, told_me,
}
use aira_relay.Manager.Repositories.{session_db_name}
use aira_relay.Manager.Cells.{
  Cell, erase, view, cell_exists, cell_upsert, cell_delete, cell_prepare, cell_run, cell_start,
  cell_stop, cell_unpair, cell_logout, cell_assign, cell_unassign, Refines, shared, same_auth,
  shared_keeps, shared-shared, account_after, told_or,
}

module _ {db : Database} (name : Text) where
  pub own_shared : (w : World db) (j : Text) → view j w ≡ shared name (view name w) j (view j w)
  own_shared w j = sym (shared_keeps name j (view name w) w refl)

  pub pure-Refines : {A : Type 0} (a : A) → Refines {db = db} name (pure a) (pure a)
  pure-Refines a = record {
    result = λ w. refl;
    inside = λ w. refl;
    outside = λ w j h. own_shared w j;
  }

  pub throw-Refines : (A : Type 0) (e : Error) → Refines {db = db} {A = A} name (throw e) (throw e)
  throw-Refines A e = record {
    result = λ w. refl;
    inside = λ w. refl;
    outside = λ w j h. own_shared w j;
  }

  pub require-Refines : (b : Bool) (e : Error) → Refines {db = db} name (require b e) (require b e)
  require-Refines true e = pure-Refines tt
  require-Refines false e = throw-Refines Unit e

  -- Two operations in a row.
  module _ {A B : Type 0} {f : A → M (World db) B} {g : A → M Cell B}
      (k : (a : A) → Refines name (f a) (g a)) where
    continue-result :
        (r : Result A) (w : World db)
        → (((λ u. (u, r)) >>= f) w).1 ≡ (((λ u. (u, r)) >>= g) (view name w)).1
    continue-result (ok a) w = (k a).result w
    continue-result (err e) w = refl

    continue-inside :
        (r : Result A) (w : World db)
        → view name (((λ u. (u, r)) >>= f) w).0 ≡ (((λ u. (u, r)) >>= g) (view name w)).0
    continue-inside (ok a) w = (k a).inside w
    continue-inside (err e) w = refl

    continue-outside :
        (r : Result A) (w : World db) (j : Text)
        → text_eq name j ≡ false
        → let v = (((λ u. (u, r)) >>= f) w).0 in view j v ≡ shared name (view name v) j (view j w)
    continue-outside (ok a) w j d = (k a).outside w j d
    continue-outside (err e) w j d = own_shared w j

    pub >>=-Refines :
        {m : M (World db) A} {c : M Cell A} → Refines name m c → Refines name (m >>= f) (c >>= g)
    >>=-Refines {m} {c} h = record {
      result = λ w.
          continue-result (m w).1 (m w).0
          ∙ ap (λ p. (((λ u. p) >>= g) (view name w)).1) (outcome w);
      inside = λ w.
          continue-inside (m w).1 (m w).0
          ∙ ap (λ p. (((λ u. p) >>= g) (view name w)).0) (outcome w);
      outside = λ w j d.
          continue-outside (m w).1 (m w).0 j d
          ∙ (ap (λ c. shared name (view name ((m >>= f) w).0) j c) (h.outside w j d)
              ∙ shared-shared name j (view name ((m >>= f) w).0) (view name (m w).0) (view j w));
    }
      where
        outcome :
            (w : World db)
            → ◌≡◌ {A = Cell × Result A} (view name (m w).0, (m w).1) (c (view name w))
        outcome w i = (h.inside w i, h.result w i)

-- The account that is kept after the event of a stop.
find_told :
    (db : Database) (name : Text) (me : Option MeInfo) (d : db.mes.Docs) (j : Text)
    → db.mes.find_one (elim me [ none ↦ d | some m ↦ db.mes.replace_one d name m ]) j
      ≡ (if text_eq name j then told_or me (db.mes.find_one d j) else db.mes.find_one d j)
find_told db name none d j = ground (arith, Bool-cases (text_eq name j))
find_told db name (some m) d j = db.mes.find_one-replace_one d name m j

module _ {db : Database} (server : ServerConfig) (answers : Answers) (name : Text) where
  pub exists-Refines :
      Refines {db = db} name (exists server answers name) (cell_exists server answers name)
  unfolding exists cell_exists view shared
  exists-Refines = record {
    result = λ w. ground arith;
    inside = λ w. ground (
      arith,
      text_eq_refl name,
      db.sessions.find_one-replace_one w.configs name empty_config name,
    );
    outside = λ w j d. ground (
      arith,
      same_auth w.auth name j,
      db.sessions.find_one-replace_one w.configs name empty_config j,
    );
  }

  pub upsert-Refines :
      (config : Option SessionConfig)
      → Refines {db = db} name
          (upsert server answers name config)
          (cell_upsert server answers name config)
  unfolding upsert cell_upsert view shared
  upsert-Refines config = record {
    result = λ w. refl;
    inside = λ w. ground (
      arith,
      text_eq_refl name,
      db.sessions.find_one-replace_one w.configs name (get_or config empty_config) name,
    );
    outside = λ w j d. ground (
      arith,
      same_auth w.auth name j,
      db.sessions.find_one-replace_one w.configs name (get_or config empty_config) j,
    );
  }

  pub delete-Refines :
      Refines {db = db} name (delete server answers name) (cell_delete server answers name)
  unfolding delete cell_delete view shared
  delete-Refines = record {
    result = λ w. ground arith;
    inside = λ w. ground (
      arith,
      text_eq_refl name,
      text_eq_refl (session_db_name name),
      db.sessions.find_one-delete_one w.configs name name,
      db.mes.find_one-delete_one w.mes name name,
      db.workers.find_one-delete_many w.workers name (λ v. true) name,
    );
    outside = λ w j d. ground (
      arith,
      same_auth w.auth name j,
      text_eq_refl (session_db_name name),
      db.sessions.find_one-delete_one w.configs name j,
      db.mes.find_one-delete_one w.mes name j,
      db.workers.find_one-delete_many w.workers name (λ v. true) j,
    );
  }

  pub stop_session-Refines :
      (silent : Bool)
      → Refines {db = db} name
          (stop_session server answers name silent)
          (cell_stop server answers name silent)
  unfolding stop_session cell_stop view shared
  stop_session-Refines silent = record {
    result = λ w. ground arith;
    inside = λ w. elim (Option-cases (lookup name w.runtimes)) [
      | inl e ↦ ground (arith, e)
      | inr (r, e) ↦
          let halted = insert name (record r { session = stop r.session }) w.runtimes in
          ground (
            arith,
            e,
            text_eq_refl name,
            find_told db name (told_me r.session) w.mes name,
            lookup-insert name name (record r { session = stop r.session }) w.runtimes,
            lookup-remove name name halted,
          )
    ];
    outside = λ w j d. elim (Option-cases (lookup name w.runtimes)) [
      | inl e ↦ rw (stop_session, e) (own_shared name w j)
      | inr (r, e) ↦
          let halted = insert name (record r { session = stop r.session }) w.runtimes in
          ground (
            arith,
            e,
            same_auth w.auth name j,
            find_told db name (told_me r.session) w.mes j,
            lookup-insert name j (record r { session = stop r.session }) w.runtimes,
            lookup-remove name j halted,
          )
    ];
  }

  pub unpair-Refines :
      Refines {db = db} name (unpair server answers name) (cell_unpair server answers name)
  unfolding unpair cell_unpair
  unpair-Refines = pure-Refines name tt

  pub logout-Refines :
      Refines {db = db} name (logout server answers name) (cell_logout server answers name)
  unfolding logout cell_logout view shared
  logout-Refines = record {
    result = λ w. refl;
    inside = λ w. ground (
      arith,
      text_eq_refl name,
      text_eq_refl (session_db_name name),
      db.mes.find_one-delete_one w.mes name name,
    );
    outside = λ w j d. ground (
      arith,
      same_auth w.auth name j,
      text_eq_refl (session_db_name name),
      db.mes.find_one-delete_one w.mes name j,
    );
  }

  pub assign-Refines :
      Refines {db = db} name (assign server answers name) (cell_assign server answers name)
  unfolding assign cell_assign view shared
  assign-Refines = record {
    result = λ w. refl;
    inside = λ w. ground (
      arith,
      text_eq_refl name,
      db.workers.find_one-replace_one w.workers name server.worker_id name,
    );
    outside = λ w j d. ground (
      arith,
      same_auth w.auth name j,
      db.workers.find_one-replace_one w.workers name server.worker_id j,
    );
  }

  pub unassign-Refines :
      Refines {db = db} name (unassign server answers name) (cell_unassign server answers name)
  unfolding unassign cell_unassign view shared
  unassign-Refines = record {
    result = λ w. refl;
    inside = λ w. ground (
      arith,
      text_eq_refl name,
      db.workers.find_one-delete_many w.workers name (λ v. text_eq v server.worker_id) name,
    );
    outside = λ w j d. ground (
      arith,
      same_auth w.auth name j,
      db.workers.find_one-delete_many w.workers name (λ v. text_eq v server.worker_id) j,
    );
  }
