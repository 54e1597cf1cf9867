-- ===== src/Manager/Lifecycle/Routes.antt =====
-- The handlers of waha-plus/src/api/sessions.controller.ts on the manager's whole state.
use aira_relay.Base.{
  Bool, true, false, if◌then◌else◌, Option, none, some, Text, text_eq, text_eq_iff, ◌≡◌, ◌≢◌, sym,
  subst, ap, ◌∙◌, Bool-cases, inl, inr,
}
use aira_relay.Base.Results.{unprocessable, Result, ok, err, M}
use aira_relay.Manager.{SessionConfig, Database, Runtime, World, ServerConfig, Answers}
use aira_relay.Manager.Cells.{Cell, view, Refines, outcome, shared, shared_keeps}
use aira_relay.Manager.Controller.{
  plus, cells, create, update, delete_session, start_route, stop_route, logout_route, restart,
}
use aira_relay.Manager.Handlers.{
  create-Refines, update-Refines, delete_session-Refines, start_route-Refines, stop_route-Refines,
  logout_route-Refines, restart-Refines,
}
use aira_relay.Manager.Lifecycle.Creation.{CreateMakes, create_cell}
use aira_relay.Manager.Lifecycle.{
  empty_cell, Ready, UpdateKeeps, update_cell, create_existing_cell, delete_cell, LogoutKeeps,
  logout_cell, RestartMakes, restart_cell, RefusedStop, stop_failed_cell,
}

-- What holds of the cell's operation holds of the manager's.
carry :
    {db : Database} {A : Type 0} {name : Text} {m : M (World db) A} {c : M Cell A}
    → Refines name m c
    → (P : Cell × Result A → Type 0) (w : World db) → P (c (view name w))
    → P (view name (m w).0, (m w).1)
carry h P w = subst P (sym (outcome h w))

-- The others' cells stay, but for credentials in common.
others :
    {db : Database} {A : Type 0} {name : Text} {m : M (World db) A} {c : M Cell A}
    → Refines name m c
    → (w : World db) (j : Text)
    → view j (m w).0
      ≡ (if text_eq name j then view name (m w).0 else shared name (view name (m w).0) j (view j w))
others {name} {m} h w j = elim (Bool-cases (text_eq name j)) [
  | inl e ↦ rw e (ap (λ k. view k (m w).0) (sym ((text_eq_iff name j).0 e)))
  | inr e ↦ rw e (h.outside w j e)
]

-- They stay altogether where the credentials do.
others_keep :
    {db : Database} {A : Type 0} {name : Text} {m : M (World db) A} {c : M Cell A}
    → Refines name m c
    → (w : World db) (j : Text) → (view name (m w).0).auth ≡ (view name w).auth
    → view j (m w).0 ≡ (if text_eq name j then view name (m w).0 else view j w)
others_keep {name} {m} h w j e =
    subst (λ c. view j (m w).0 ≡ (if text_eq name j then view name (m w).0 else c))
      (shared_keeps name j (view name (m w).0) w e) (others h w j)

with_config :
    (P : Cell → Type 0) (c : Cell) {config : Option SessionConfig}
    → c.config ≡ config
    → P (record c { config = config })
    → P c
with_config P c e = subst P (λ i. record c { config = sym e i })

with_runtime :
    (P : Cell → Type 0) (c : Cell) {runtime : Option Runtime}
    → c.runtime ≡ runtime
    → P (record c { runtime = runtime })
    → P c
with_runtime P c e = subst P (λ i. record c { runtime = sym e i })

module _ {db : Database} (server : ServerConfig) (answers : Answers) (name : Text) (w : World db)
    (j : Text) where
  -- Deleting a session whose apps can be removed succeeds and leaves nothing of it: no configuration,
  -- no account, no assignment, no credentials, nothing in memory. Every other session stays as it is,
  -- but for the credentials, which are gone too where the names of the two databases agree.
  pub delete_session_lem :
      answers.remove_apps name ≡ true
      → let (v, r) = delete_session (plus server answers) answers name w in
        (r ≡ ok tt)
        × (view j v ≡ (if text_eq name j then empty_cell else shared name empty_cell j (view j w)))
  delete_session_lem h =
      let all =
        carry (delete_session-Refines server answers name) (λ p. (p.1 ≡ ok tt) × (p.0 ≡ empty_cell))
          w (delete_cell server answers name (view name w) h) in
      (
        all.0,
        subst
            (λ x.
              view j (delete_session (plus server answers) answers name w).0
              ≡ (if text_eq name j then x else shared name x j (view j w)))
            all.1 (others (delete_session-Refines server answers name) w j),
      )

  -- Updating a session that is kept, when every collaborator of its start answers: it succeeds, the
  -- session has the new configuration (the empty one if none is given), it is in memory exactly if it
  -- was, and then runs with the new configuration; the credentials and the assignment stay, and so does
  -- every other session. The account that is kept is the one that the session in memory had and told as
  -- it stopped; without one, it stays.
  pub update_lem :
      (config : Option SessionConfig) (apps : Bool) (old : SessionConfig)
      → (view name w).config ≡ some old
      → Ready answers name
      → let (v, r) = update (plus server answers) answers name config apps w in
        UpdateKeeps server answers name config (view name w) (view name v, r)
        × (view j v ≡ (if text_eq name j then view name v else view j w))
  update_lem config apps old e h =
      let made =
        carry (update-Refines server answers name config apps)
          (UpdateKeeps server answers name config (view name w)) w
          (with_config
            (λ k.
              UpdateKeeps server answers name config k
                (update (cells server answers) answers name config apps k))
            (view name w) e
            (update_cell server answers name config apps old (view name w).runtime (view name w)
              h)) in
      (made, others_keep (update-Refines server answers name config apps) w j made.5)

  -- Creating a session that is neither kept, nor in memory, nor known to the engine, when every
  -- collaborator answers: it succeeds, the configuration that is given is kept (the empty one if none
  -- is), and the session is in memory, starting with that configuration and assigned to this worker,
  -- exactly if a start was asked for. Every other session stays.
  pub create_lem :
      (config : Option SessionConfig) (apps begin : Bool)
      → (view name w).config ≡ none
      → (view name w).runtime ≡ none
      → answers.engine_found name ≢ some true
      → Ready answers name
      → let (v, r) = create (plus server answers) answers name config apps begin w in
        CreateMakes server answers name config begin (view name w) (view name v, r)
        × (view j v ≡ (if text_eq name j then view name v else view j w))
  create_lem config apps begin e f n h =
      let made =
        carry (create-Refines server answers name config apps begin)
          (CreateMakes server answers name config begin (view name w)) w
          (with_config P (view name w) e (
            with_runtime (λ k. P (record k { config = none })) (view name w) f
              (create_cell server answers name config apps begin (view name w) h n))) in
      (made, others_keep (create-Refines server answers name config apps begin) w j made.6)
    where
      P : Cell → Type 0
      P k =
          CreateMakes server answers name config begin k
            (create (cells server answers) answers name config apps begin k)

  -- Creating a session that is kept already is refused as unprocessable, and nothing changes, of this
  -- session or of another.
  pub create_existing_lem :
      (config : Option SessionConfig) (apps begin : Bool) (old : SessionConfig)
      → (view name w).config ≡ some old
      → let (v, r) = create (plus server answers) answers name config apps begin w in
        (r ≡ err unprocessable) × (view j v ≡ view j w)
  create_existing_lem config apps begin old e =
      let made =
        with_config
          (λ k.
            ◌≡◌ {A = Cell × Result (Unit {0})}
              (create (cells server answers) answers name config apps begin k)
              (k, err unprocessable))
          (view name w) e
          (create_existing_cell server answers name config apps begin old (view name w)) in
      let all =
        carry (create-Refines server answers name config apps begin)
          (λ p. ◌≡◌ {A = Cell × Result (Unit {0})} p (view name w, err unprocessable)) w made in
      (
        ap (λ p. p.1) all,
        elim (Bool-cases (text_eq name j)) [
          | inl h ↦
              subst
                (λ k.
                  view k (create (plus server answers) answers name config apps begin w).0
                  ≡ view k w)
                ((text_eq_iff name j).0 h) (ap (λ p. p.0) all)
          | inr h ↦
              (create-Refines server answers name config apps begin).outside w j h
              ∙ shared_keeps name j
                  (view name (create (plus server answers) answers name config apps begin w).0) w
                  (ap (λ p. p.0.auth) all)
        ],
      )

  -- Logging out of a session that is kept, when every collaborator of its start answers: it succeeds,
  -- the credentials and the account are gone, the configuration and the assignment stay, and the
  -- session is in memory, starting, exactly if it was in memory. Every other session stays, but for the
  -- credentials, which are gone too where the names of the two databases agree.
  pub logout_lem :
      (old : SessionConfig)
      → (view name w).config ≡ some old
      → Ready answers name
      → let (v, r) = logout_route (plus server answers) answers name w in
        LogoutKeeps server answers name (view name w) (view name v, r)
        × (view j v
            ≡ (if text_eq name j then view name v else shared name (view name v) j (view j w)))
  logout_lem old e h = (
    carry (logout_route-Refines server answers name) (LogoutKeeps server answers name (view name w))
        w
        (with_config
          (λ k.
            LogoutKeeps server answers name k (logout_route (cells server answers) answers name k))
          (view name w) e
          (logout_cell server answers name old (view name w).runtime (view name w) h)),
    others (logout_route-Refines server answers name) w j,
  )

  -- Restarting a session that is kept, whether it is in memory or not, when every collaborator of its
  -- start answers: it succeeds and leaves the session starting, with the configuration that is kept
  -- and assigned to this worker; its credentials, its configuration and every other session stay. The
  -- account that is kept is the one that the session in memory had and told as it stopped; without one,
  -- it stays.
  pub restart_lem :
      (old : SessionConfig)
      → (view name w).config ≡ some old
      → Ready answers name
      → let (v, r) = restart (plus server answers) answers name w in
        RestartMakes server answers name (view name w) (view name v, r)
        × (view j v ≡ (if text_eq name j then view name v else view j w))
  restart_lem old e h =
      let made =
        carry (restart-Refines server answers name) (RestartMakes server answers name (view name w))
          w
          (with_config
            (λ k.
              RestartMakes server answers name k (restart (cells server answers) answers name k))
            (view name w) e
            (restart_cell server answers name old (view name w).runtime (view name w) h)) in
      (made, others_keep (restart-Refines server answers name) w j made.6)

  -- When the engine refuses to stop a session that is kept and in memory, the stop fails and leaves the
  -- session in memory, stopped. A start after it answers success and assigns the session to this
  -- worker, but leaves the same stopped session in memory: it starts nothing.
  pub stop_failed_lem :
      (old : SessionConfig) (r : Runtime)
      → (view name w).config ≡ some old
      → (view name w).runtime ≡ some r
      → answers.session_stop name ≡ false
      → let (v, e) = stop_route (plus server answers) answers name w in
        let (u, s) = start_route (plus server answers) answers name v in
        RefusedStop server answers name (view name w) (view name v, e) (view name u, s)
  stop_failed_lem old r e f h =
      let v = (stop_route (plus server answers) answers name w).0 in
      let P : Cell → Type 0 = λ k.
        let d = stop_route (cells server answers) answers name k in
        RefusedStop server answers name k d (start_route (cells server answers) answers name d.0) in
      subst
        (λ p.
          RefusedStop server answers name (view name w)
            (view name v, (stop_route (plus server answers) answers name w).1) p)
        (sym (outcome (start_route-Refines server answers name) v))
        (carry (stop_route-Refines server answers name)
          (λ p.
            RefusedStop server answers name (view name w) p
              (start_route (cells server answers) answers name p.0))
          w
          (with_config P (view name w) e (
            with_runtime (λ k. P (record k { config = some old })) (view name w) f
              (stop_failed_cell server answers name old r (view name w) h))))
