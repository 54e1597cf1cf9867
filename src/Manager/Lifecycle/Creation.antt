-- ===== src/Manager/Lifecycle/Creation.antt =====
-- The creation of a session, `create` of waha-plus/src/api/sessions.controller.ts, on its cell.
use aira_relay.Base.{
  Option, Bool, true, false, not, if◌then◌else◌, none, some, get_or, Text, ◌≡◌, ◌≢◌, refl, sym,
  subst, ap, ◌∙◌, arith,
}
use aira_relay.Base.Results.{unprocessable, internal, Result, ok, M, pure, ◌>>◌, require, when}
use aira_relay.Session.{starting, start}
use aira_relay.Manager.{SessionConfig, empty_config, ServerConfig, Answers}
use aira_relay.Manager.Cells.{Cell, cell_exists, cell_upsert, cell_start, cell_assign}
use aira_relay.Manager.Controller.{cells, create}
use aira_relay.Manager.Lifecycle.{
  Ready, bind_ok, start-Ready, fresh_status, status_of, running_config,
}

module _ (server : ServerConfig) (answers : Answers) (name : Text) where
  -- What the creation of a session leaves.
  abbrev pub CreateMakes : Option SessionConfig → Bool → Cell → Cell × Result (Unit {0}) → Type 0
  CreateMakes config start c (d, r) =
      (r ≡ ok tt)
      × (d.config ≡ some (get_or config empty_config))
      × (status_of d ≡ (if start then some starting else none))
      × (running_config d ≡ (if start then d.config else none))
      × (d.worker ≡ (if start then some server.worker_id else c.worker))
      × (d.me ≡ c.me)
      × (d.auth ≡ c.auth)

  -- A session that is neither kept nor known to the engine does not exist.
  cell_unknown :
      (c : Cell)
      → c.config ≡ none
      → answers.engine_found name ≢ some true
      → cell_exists server answers name c ≡ (c, ok false)
  unfolding cell_exists
  cell_unknown c e n = ground arith

  -- What a creation does after it asked whether the session exists.
  abbrev after_exists : Option SessionConfig → (apps start : Bool) → Bool → M Cell (Unit {0})
  after_exists config apps start found = do
    require (not found) unprocessable
    cell_upsert server answers name config
    when apps (require (answers.sync_apps name) internal)
    when start (cell_assign server answers name >> (cell_start server answers name >> pure tt))

  when-Ready :
      (config : Option SessionConfig) (apps start : Bool) (c : Cell)
      → Ready answers name
      → let k = record c { config = some (get_or config empty_config); runtime = none } in
        ◌≡◌ {A = Cell × Result (Unit {0})}
          (after_exists config apps start false (record c { config = none; runtime = none }))
          (when start
            (cell_assign server answers name >> (cell_start server answers name >> pure tt))
            k)
  unfolding cell_upsert
  when-Ready config true start c h = rw h.apps refl
  when-Ready config false start c h = refl

  create_known_cell :
      (config : Option SessionConfig) (apps start : Bool) (c : Cell)
      → Ready answers name
      → let k = record c { config = none; runtime = none } in
        CreateMakes config start k (after_exists config apps start false k)
  unfolding cell_upsert cell_assign
  create_known_cell config apps true c h =
      let k = record c { config = none; runtime = none } in
      let assigned = record k {
        config = some (get_or config empty_config);
        worker = some server.worker_id;
      } in
      subst (CreateMakes config true k)
        (sym (
          when-Ready config apps true c h
          ∙ bind_ok (cell_start server answers name) (λ _. pure tt)
              (start-Ready server answers name assigned h)))
        (
          refl,
          refl,
          ap some (fresh_status server answers name (some (get_or config empty_config))),
          refl,
          refl,
          refl,
          refl,
        )
  create_known_cell config apps false c h =
      subst (CreateMakes config false (record c { config = none; runtime = none }))
        (sym (when-Ready config apps false c h)) (refl, refl, refl, refl, refl, refl, refl)

  pub create_cell :
      (config : Option SessionConfig) (apps start : Bool) (c : Cell)
      → Ready answers name
      → answers.engine_found name ≢ some true
      → let k = record c { config = none; runtime = none } in
        CreateMakes config start k (create (cells server answers) answers name config apps start k)
  unfolding create
  create_cell config apps start c h n =
      let k = record c { config = none; runtime = none } in
      subst (CreateMakes config start k)
        (sym (
          bind_ok (cell_exists server answers name) (after_exists config apps start)
            (cell_unknown k refl n)))
        (create_known_cell config apps start c h)
