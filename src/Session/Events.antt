-- ===== src/Session/Events.antt =====
-- What holds of a session through engine events, activity, timeouts and calls.
use aira_relay.Base.{
  ℕ, ◌≡◌, Bool, true, false, not, ◌||◌, if◌then◌else◌, some, List, [], ◌∷◌, Text, arith,
}
use aira_relay.Session.{
  Status, stopped, scan_qr_code, is_working, PresenceStatus, is_online, is_chat_presence, Session,
  is_filled, set_presence_field, PresenceConfig, begin_activity, end_activity,
  maintain_presence_online, set_presence, end_timeout, presence_timeout, EngineEvent, connected,
  qr_channel_item, handle, handle_all, start_failed, stop,
}

-- The last status that a list of published ones tells, newest first.
abbrev pub latest : Status → List Status → Status
latest d [] = d
latest d (v ∷ _) = v

-- A QR code that is shown is there, and the status is the last one that listeners were told.
pub record Inv (s : Session) : Type 0 where
  pub scannable : s.status ≡ scan_qr_code → is_filled s.qr ≡ true
  pub told : s.status ≡ latest stopped s.published

module _ (jid_normalized to_cus_format : Text → Text) (config : PresenceConfig) where
  -- One step of a running session, up to where it waits. An activity, a request for a presence and the
  -- timeout end whenever the engine answers, whatever happened in between.
  pub data Step (s : Session) : Session → Type 0 where
    engine_event : (e : EngineEvent) → Step s (handle jid_normalized to_cus_format e s)
    activity_begins : (now : ℕ) → Step s (begin_activity config now s)
    activity_ends : (later : ℕ) → Step s (end_activity config later s)
    request_ends : (p : PresenceStatus) → Step s (set_presence_field (some p) s)
    timeout_ends : Step s (end_timeout s)
    refuse : Step s (start_failed s)
    halt : Step s (stop s)

  pub data Reach (s : Session) : Session → Type 0 where
    here : Reach s s
    next : {t u : Session} → Reach s t → Step t u → Reach s u

  -- What happens while a call waits is a sequence of steps.
  abbrev pub IsRun : (Session → Session) → Type 0
  IsRun f = (s t : Session) → Reach s t → Reach s (f t)

  answered :
      {s t : Session} (b : Bool) {u : Session} → Reach s t → Step t u → Reach s (if b then u else t)
  answered true r st = next r st
  answered false r st = r

  waited : {s a b : Session} (c : Bool) → Reach s a → Reach s b → Reach s (if c then a else b)
  waited true r q = r
  waited false r q = q

  -- Every call is such a sequence, with what happens while it waits.
  pub maintain-IsRun :
      (now later : ℕ) (sent : Bool) (meanwhile : Session → Session)
      → IsRun meanwhile
      → IsRun (maintain_presence_online config now later sent meanwhile)
  unfolding maintain_presence_online
  maintain-IsRun now later sent meanwhile m s t r =
      waited (not config.enabled || not (is_working t.status) || is_online t.presence)
        (next r (activity_begins now))
        (answered sent (m s (begin_activity config now t) (next r (activity_begins now)))
          (activity_ends later))

  pub set_presence-IsRun :
      (now later : ℕ) (kept sent : Bool) (first second : Session → Session) (p : PresenceStatus)
      → IsRun first
      → IsRun second
      → IsRun (set_presence config now later kept sent first second p)
  unfolding set_presence
  set_presence-IsRun now later kept sent first second p m n s t r =
      answered sent
        (n s
          (if is_chat_presence p then maintain_presence_online config now later kept first t else t)
          (waited (is_chat_presence p) (maintain-IsRun now later kept first m s t r) r))
        (request_ends p)

  pub timeout-IsRun :
      (meanwhile : Session → Session) → IsRun meanwhile → IsRun (presence_timeout meanwhile)
  unfolding presence_timeout
  timeout-IsRun meanwhile m s t r =
      waited (not (is_working t.status) || not (is_online t.presence)) r
        (next (m s t r) timeout_ends)

  handle_unpairing :
      (e : EngineEvent) (s : Session)
      → s.unpairing ≡ true
      → let t = handle jid_normalized to_cus_format e s in
        (t.unpairing ≡ true) × (t.status ≡ s.status) × (t.published ≡ s.published)
  unfolding handle
  handle_unpairing (connected id lid name) s h = ground arith
  handle_unpairing (qr_channel_item item code) s h = ground arith
  handle_unpairing e s h = ground arith

  -- While it is being unpaired, a session tells nothing of what the engine does and keeps its status,
  -- until it stops.
  pub handle_all_unpairing :
      (es : List EngineEvent) (s : Session)
      → s.unpairing ≡ true
      → let t = handle_all jid_normalized to_cus_format es s in
        (t.status ≡ s.status)
        × (t.published ≡ s.published)
        × ((stop t).status ≡ stopped)
        × ((stop t).published ≡ stopped ∷ s.published)
  unfolding handle_all stop
  handle_all_unpairing [] s h = ground arith
  handle_all_unpairing (e ∷ es) s h = ground (
    arith,
    handle_unpairing e s h,
    handle_all_unpairing es (handle jid_normalized to_cus_format e s),
  )
