-- ===== src/Manager/Registry/Reachability.antt =====
-- The operations of waha-plus/src/plus/manager.plus.ts in any order, as steps.
use aira_relay.Base.{Bool, Option, some, Text, lookup, ◌≡◌, refl, ◌∙◌}
use aira_relay.Session.{Session, MeInfo}
use aira_relay.Manager.{SessionConfig, Database, Runtime, World, ServerConfig, Answers}
use aira_relay.Manager.Operations.{
  exists, upsert, delete, start_session, stop_session, logout, assign, unassign, put_runtime,
  on_session_status,
}
use aira_relay.Manager.Registry.{
  IsConsistent, same_memory, exists-SameMemory, delete-SameMemory, status-SameMemory,
  start_session-IsConsistent, stop_session-IsConsistent, put_runtime-IsConsistent, lookup-Named,
}

module _ {db : Database} (server : ServerConfig) where
  -- One operation of the manager, whatever its collaborators answer, or a change of a session in
  -- memory by the session itself.
  pub data Step (w : World db) : World db → Type 0 where
    exists_step : (a : Answers) (k : Text) → Step w (exists server a k w).0
    upsert_step :
        (a : Answers) (k : Text) (c : Option SessionConfig) → Step w (upsert server a k c w).0
    delete_step : (a : Answers) (k : Text) → Step w (delete server a k w).0
    start_step : (a : Answers) (k : Text) → Step w (start_session server a k w).0
    stop_step :
        (a : Answers) (k : Text) (silent : Bool) → Step w (stop_session server a k silent w).0
    logout_step : (a : Answers) (k : Text) → Step w (logout server a k w).0
    assign_step : (a : Answers) (k : Text) → Step w (assign server a k w).0
    unassign_step : (a : Answers) (k : Text) → Step w (unassign server a k w).0
    status_step :
        (a : Answers) (k : Text) (me : Option MeInfo) → Step w (on_session_status server a k me w)
    session_step :
        (a : Answers) (k : Text) (r : Runtime) (s : Session)
        → lookup k w.runtimes ≡ some r
        → s.name ≡ r.session.name
        → Step w (put_runtime server a k (record r { session = s }) w)

  pub data Reach (w : World db) : World db → Type 0 where
    here : Reach w w
    next : {u v : World db} → Reach w u → Step u v → Reach w v

  Step-IsConsistent : {w v : World db} → Step w v → IsConsistent w → IsConsistent v
  unfolding upsert logout assign unassign
  Step-IsConsistent {w} (exists_step a k) h = same_memory (exists-SameMemory server a k w) h
  Step-IsConsistent {w} (upsert_step a k c) h = same_memory (refl, refl) h
  Step-IsConsistent {w} (delete_step a k) h = same_memory (delete-SameMemory server a k w) h
  Step-IsConsistent {w} (start_step a k) h = start_session-IsConsistent server a k w h
  Step-IsConsistent {w} (stop_step a k silent) h = stop_session-IsConsistent server a k silent w h
  Step-IsConsistent {w} (logout_step a k) h = same_memory (refl, refl) h
  Step-IsConsistent {w} (assign_step a k) h = same_memory (refl, refl) h
  Step-IsConsistent {w} (unassign_step a k) h = same_memory (refl, refl) h
  Step-IsConsistent {w} (status_step a k me) h = same_memory (status-SameMemory server a k me w) h
  Step-IsConsistent {w} (session_step a k r s e n) h =
      put_runtime-IsConsistent server a k (record r { session = s }) r w h e
        (n ∙ lookup-Named k r w.runtimes h.named e)

  -- From a consistent state on, however the operations follow each other and whatever the engine and
  -- the apps answer, the sessions in memory have different names, each is filed under its own name, and
  -- the stream of all events is merged of exactly the sessions in memory.
  pub Reach-IsConsistent : {w v : World db} → IsConsistent w → Reach w v → IsConsistent v
  Reach-IsConsistent h here = h
  Reach-IsConsistent h (next r s) = Step-IsConsistent s (Reach-IsConsistent h r)
