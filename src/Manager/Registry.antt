-- ===== src/Manager/Registry.antt =====
-- The sessions in memory and the list of those whose events are merged, through every operation of
-- waha-plus/src/plus/manager.plus.ts.
pub mod Reachability
use aira_relay.Base.{
  Bool, true, if◌then◌else◌, Option, none, some, is_some, List, [], ◌∷◌, Text, text_eq,
  text_eq_refl, text_eq_iff, lookup, insert, remove, keys, Distinct, lookup-insert, insert-Distinct,
  remove-Distinct, ◌≡◌, refl, sym, subst, ap, ◌∙◌, arith, inl, inr, Option-cases, Bool-cases,
}
use aira_relay.Session.{Session, MeInfo, new_session, set_status, start, stop}
use aira_relay.Manager.{SessionConfig, Database, Runtime, World, ServerConfig, Answers}
use aira_relay.Manager.Operations.{
  exists, upsert, delete, start_session, stop_session, logout, assign, unassign, put_runtime,
  update_sessions, drop_runtime, run_engine, start_new, prepare, is_running, on_session_status,
}

-- Every session in memory is the one of its name.
abbrev pub Named : List (Text × Runtime) → Type 0
Named [] = Unit
Named ((k, r) ∷ d) = (r.session.name ≡ k) × Named d

-- `this.sessions` has one entry to a name, each session is that of its name, and the stream of all
-- events is merged of exactly the sessions in memory.
pub record IsConsistent {db : Database} (w : World db) : Type 0 where
  pub distinct : Distinct (keys w.runtimes)
  pub named : Named w.runtimes
  pub merged : w.merged ≡ keys w.runtimes

insert-Named :
    (k : Text) (r : Runtime) (d : List (Text × Runtime))
    → r.session.name ≡ k
    → Named d
    → Named (insert k r d)
unfolding insert
insert-Named k r [] e h = (e, tt)
insert-Named k r ((j, s) ∷ d) e h = elim (Bool-cases (text_eq j k)) [
  | inl t ↦ rw t (e, h.1)
  | inr t ↦ rw t (h.0, insert-Named k r d e h.1)
]

remove-Named : (k : Text) (d : List (Text × Runtime)) → Named d → Named (remove k d)
unfolding remove
remove-Named k [] h = tt
remove-Named k ((j, s) ∷ d) h = elim (Bool-cases (text_eq j k)) [
  | inl t ↦ rw t (remove-Named k d h.1)
  | inr t ↦ rw t (h.0, remove-Named k d h.1)
]

-- A session that is there already keeps its place.
keys-insert :
    (k : Text) (r : Runtime) (d : List (Text × Runtime))
    → is_some (lookup k d) ≡ true
    → keys (insert k r d) ≡ keys d
unfolding lookup insert
keys-insert k r [] h = ground arith
keys-insert k r ((j, s) ∷ d) h = elim (Bool-cases (text_eq j k)) [
  | inl t ↦ rw t (ap (λ x. x ∷ keys d) (sym ((text_eq_iff j k).0 t)))
  | inr t ↦ rw t (
      ap (λ x. j ∷ x)
        (keys-insert k r d (subst (λ b. is_some (if b then some s else lookup k d) ≡ true) t h)))
]

pub lookup-Named :
    (k : Text) (r : Runtime) (d : List (Text × Runtime))
    → Named d
    → lookup k d ≡ some r
    → r.session.name ≡ k
unfolding lookup
lookup-Named k r [] h e = ground arith
lookup-Named k r ((j, s) ∷ d) h e = ground (arith, lookup-Named k r d h.1, text_eq_iff j k, h.0)

start_named : (s : Session) → (start s).name ≡ s.name
unfolding start set_status
start_named s = ground arith

stop_named : (s : Session) → (stop s).name ≡ s.name
unfolding stop set_status
stop_named s = ground arith

-- Operations that leave the memory alone.
abbrev pub SameMemory : {db : Database} → World db → World db → Type 0
SameMemory v w = (v.runtimes ≡ w.runtimes) × (v.merged ≡ w.merged)

pub same_memory :
    {db : Database} {v w : World db} → SameMemory v w → IsConsistent w → IsConsistent v
same_memory e h = record {
  distinct = subst (λ d. Distinct (keys d)) (sym e.0) h.distinct;
  named = subst Named (sym e.0) h.named;
  merged = e.1 ∙ (h.merged ∙ ap keys (sym e.0));
}

module _ {db : Database} (server : ServerConfig) where
  module _ (answers : Answers) (name : Text) where
    pub put_runtime-IsConsistent :
        (r s : Runtime) (w : World db)
        → IsConsistent w
        → lookup name w.runtimes ≡ some s
        → r.session.name ≡ name
        → IsConsistent (put_runtime server answers name r w)
    unfolding put_runtime
    put_runtime-IsConsistent r s w h e n =
        let there : is_some (lookup name w.runtimes) ≡ true = rw e refl in
        record {
          distinct = insert-Distinct name r w.runtimes h.distinct;
          named = insert-Named name r w.runtimes n h.named;
          merged = h.merged ∙ sym (keys-insert name r w.runtimes there);
        }

    new_runtime-IsConsistent :
        (r : Runtime) (w : World db)
        → IsConsistent w
        → r.session.name ≡ name
        → IsConsistent (update_sessions server answers (put_runtime server answers name r w))
    unfolding put_runtime update_sessions
    new_runtime-IsConsistent r w h n = record {
      distinct = insert-Distinct name r w.runtimes h.distinct;
      named = insert-Named name r w.runtimes n h.named;
      merged = refl;
    }

    drop_runtime-IsConsistent :
        (w : World db) → IsConsistent w → IsConsistent (drop_runtime server answers name w)
    unfolding drop_runtime update_sessions
    drop_runtime-IsConsistent w h = record {
      distinct = remove-Distinct name w.runtimes h.distinct;
      named = remove-Named name w.runtimes h.named;
      merged = refl;
    }

    prepare_named : (w : World db) → (prepare server answers name w).session.name ≡ name
    unfolding prepare new_session set_status
    prepare_named w = ground arith

    lookup-put_runtime :
        (r : Runtime) (w : World db)
        → lookup name (put_runtime server answers name r w).runtimes ≡ some r
    unfolding put_runtime
    lookup-put_runtime r w = ground (arith, lookup-insert name name r w.runtimes, text_eq_refl name)

    run_engine-IsConsistent :
        (r s : Runtime) (w : World db)
        → IsConsistent w
        → lookup name w.runtimes ≡ some s
        → r.session.name ≡ name
        → IsConsistent (run_engine server answers name r w).0
    unfolding run_engine
    run_engine-IsConsistent r s w h e n =
        let started = record r { session = start r.session } in
        ground (arith, put_runtime-IsConsistent started s w h e (start_named r.session ∙ n))

    pub stop_session-IsConsistent :
        (silent : Bool) (w : World db)
        → IsConsistent w
        → IsConsistent (stop_session server answers name silent w).0
    unfolding stop_session
    stop_session-IsConsistent silent w h = elim (Option-cases (lookup name w.runtimes)) [
      | inl e ↦ rw (e, stop_session) h
      | inr (r, e) ↦
          let halted = record r { session = stop r.session } in
          let kept =
            put_runtime-IsConsistent halted r w h e
              (stop_named r.session ∙ lookup-Named name r w.runtimes h.named e) in
          let gone = drop_runtime-IsConsistent (put_runtime server answers name halted w) kept in
          ground (arith, kept, gone)
    ]

    pub start_session-IsConsistent :
        (w : World db) → IsConsistent w → IsConsistent (start_session server answers name w).0
    unfolding start_session start_new is_running update_sessions
    start_session-IsConsistent w h =
        let r = prepare server answers name w in
        ground (
          arith,
          run_engine-IsConsistent r r
              (update_sessions server answers (put_runtime server answers name r w))
              (new_runtime-IsConsistent r w h (prepare_named w)) (lookup-put_runtime r w)
              (prepare_named w),
        )

    pub exists-SameMemory : (w : World db) → SameMemory (exists server answers name w).0 w
    unfolding exists
    exists-SameMemory w = ground arith

    pub delete-SameMemory : (w : World db) → SameMemory (delete server answers name w).0 w
    unfolding delete
    delete-SameMemory w = ground arith

    pub status-SameMemory :
        (me : Option MeInfo) (w : World db)
        → SameMemory (on_session_status server answers name me w) w
    unfolding on_session_status
    status-SameMemory me w = (refl, refl)
