-- ===== src/Session.antt =====
-- The runtime session: waha-plus/src/core/abc/session.abc.ts (status, presence, activity) and the
-- engine event handlers of waha-plus/src/core/engines/gows/session.gows.core.ts.
pub mod Events
pub mod Presence
pub mod Publishing
pub mod Stream
pub mod Tests
use aira_relay.Base.{
  ℕ, ◌+◌, Bool, true, false, not, ◌&&◌, ◌||◌, if◌then◌else◌, Option, none, some, is_some, or_else,
  List, [], ◌∷◌, Text, codes, text_eq,
}

pub data Status : Type 0 where
  stopped starting scan_qr_code working failed : Status

pub data PresenceStatus : Type 0 where
  offline online typing recording paused : PresenceStatus

abbrev pub is_stopped : Status → Bool
is_stopped stopped = true
is_stopped _ = false

abbrev pub is_starting : Status → Bool
is_starting starting = true
is_starting _ = false

abbrev pub is_working : Status → Bool
is_working working = true
is_working _ = false

abbrev pub is_scan_qr_code : Status → Bool
is_scan_qr_code scan_qr_code = true
is_scan_qr_code _ = false

abbrev pub is_failed : Status → Bool
is_failed failed = true
is_failed _ = false

abbrev pub is_online : Option PresenceStatus → Bool
is_online (some online) = true
is_online _ = false

-- `MeInfo`. A push name may come before the ids do.
pub record MeInfo : Type 0 where
  pub id : Option Text
  pub push_name : Option Text
  pub lid : Option Text
  pub jid : Option Text

-- `published` holds what went into `status$`, newest first. `timer` is the time at which the pending
-- presence timeout is due.
pub record Session : Type 0 where
  pub name : Text
  pub status : Status
  pub presence : Option PresenceStatus
  pub unpairing : Bool
  pub me : Option MeInfo
  pub qr : Option Text
  pub last_activity : Option ℕ
  pub timer : Option ℕ
  pub published : List Status

-- The constructor.
unfoldable pub new_session : Text → Session
new_session name = record {
  name = name;
  status = stopped;
  presence = none;
  unpairing = false;
  me = none;
  qr = none;
  last_activity = none;
  timer = none;
  published = [];
}

-- `set status`.
unfoldable pub set_status : Status → Session → Session
set_status value s =
    if s.unpairing && not (is_stopped value)
    then s
    else record s { status = value; published = value ∷ s.published }

-- `set presence`: chat presences are ignored.
unfoldable pub set_presence_field : Option PresenceStatus → Session → Session
set_presence_field none s = record s { presence = none }
set_presence_field (some online) s = record s { presence = some online }
set_presence_field (some offline) s = record s { presence = some offline }
set_presence_field (some typing) s = s
set_presence_field (some recording) s = s
set_presence_field (some paused) s = s

unfoldable pub cleanup_presence_timeout : Session → Session
cleanup_presence_timeout s = record s { timer = none }

-- `presenceAutoOnlineConfig`.
pub record PresenceConfig : Type 0 where
  pub enabled : Bool
  pub duration : ℕ

-- `maintainPresenceOnline` at time `now`, up to where it waits for the engine: a session that is online
-- already has nothing to wait for.
unfoldable pub begin_activity : PresenceConfig → ℕ → Session → Session
unfolding set_presence_field cleanup_presence_timeout
begin_activity config now s =
    if not config.enabled
    then s
    else if not (is_working s.status)
    then s
    else let active = record s { last_activity = some now } in
      if is_online s.presence
      then record (cleanup_presence_timeout active) { timer = some (now + config.duration) }
      else set_presence_field (some online) active

-- Its end, once the engine took the presence, at time `later`.
unfoldable pub end_activity : PresenceConfig → ℕ → Session → Session
unfolding set_presence_field cleanup_presence_timeout
end_activity config later s =
    record (cleanup_presence_timeout (set_presence_field (some online) s)) {
      timer = some (later + config.duration);
    }

-- The whole of it. `sent` says whether the engine took the presence, and `meanwhile` is what happens to
-- the session while it waits for that.
unfoldable pub maintain_presence_online :
    PresenceConfig
    → (now later : ℕ) (sent : Bool) (meanwhile : Session → Session) → Session
    → Session
unfolding begin_activity end_activity
maintain_presence_online config now later sent meanwhile s =
    if not config.enabled || not (is_working s.status) || is_online s.presence
    then begin_activity config now s
    else let waited = meanwhile (begin_activity config now s) in
      if sent then end_activity config later waited else waited

abbrev pub is_chat_presence : PresenceStatus → Bool
is_chat_presence online = false
is_chat_presence offline = false
is_chat_presence typing = true
is_chat_presence recording = true
is_chat_presence paused = true

-- `setPresence` of the engine: chat presences count as activity, and the field is set once the engine
-- answered. `kept` and `sent` are its answers to the online presence and to the request itself, `first`
-- and `second` what happens while it is waited for; an error leaves the field alone.
unfoldable pub set_presence :
    PresenceConfig
    → (now later : ℕ) (kept sent : Bool) (first second : Session → Session) → PresenceStatus
    → Session
    → Session
unfolding maintain_presence_online set_presence_field
set_presence config now later kept sent first second p s =
    let active =
      if is_chat_presence p then maintain_presence_online config now later kept first s else s in
    let waited = second active in if sent then set_presence_field (some p) waited else waited

-- The end of the callback of the timeout: whether the engine takes the presence or not, it is set.
unfoldable pub end_timeout : Session → Session
unfolding set_presence_field cleanup_presence_timeout
end_timeout s = cleanup_presence_timeout (set_presence_field (some offline) s)

-- The callback of the timeout: the engine is asked to go offline, and `meanwhile` happens before it
-- answers.
unfoldable pub presence_timeout : (meanwhile : Session → Session) → Session → Session
unfolding end_timeout
presence_timeout meanwhile s =
    if not (is_working s.status) || not (is_online s.presence) then s else end_timeout (meanwhile s)

-- The engine events that `subscribeEvents` handles, with the fields that it reads. A missing `Event`
-- or `Code` of a QR item is `none`; an empty one is falsy too.
pub data EngineEvent : Type 0 where
  connected : (id lid push_name : Text) → EngineEvent
  disconnected keep_alive_timeout keep_alive_restored logged_out : EngineEvent
  qr_channel_item : (event code : Option Text) → EngineEvent
  push_name_setting : (name : Text) → EngineEvent

abbrev pub drop_presence : Session → Session
drop_presence s = set_presence_field none (cleanup_presence_timeout s)

abbrev pub is_filled : Option Text → Bool
is_filled none = false
is_filled (some []) = false
is_filled (some (_ ∷ _)) = true

abbrev pub is_text : Text → Option Text → Bool
is_text t none = false
is_text t (some e) = text_eq e t

unfoldable pub qr_item : Option Text → Option Text → Session → Session
unfolding set_status
qr_item event code s =
    if not (is_filled event)
    then s
    else if is_text (codes "success") event
    then s
    else if not (is_text (codes "code") event)
    then set_status failed s
    else if not (is_filled code)
    then s
    else set_status scan_qr_code (record s { qr = code })

unfoldable pub push_name : Text → Option MeInfo → MeInfo
push_name name none = record { id = none; push_name = some name; lid = none; jid = none }
push_name name (some me) = record me { push_name = some name }

-- `jid_normalized` is `jidNormalizedUser` of the Baileys package, `to_cus_format` that of jids.ts.
module _ (jid_normalized to_cus_format : Text → Text) where
  unfoldable pub handle : EngineEvent → Session → Session
  unfolding set_status set_presence_field cleanup_presence_timeout qr_item push_name
  handle (connected id lid name) s = record (set_status working s) {
    me = some (record {
      id = some (to_cus_format (jid_normalized id));
      push_name = some name;
      lid = some (jid_normalized lid);
      jid = some id;
    });
  }
  handle disconnected s =
      if not (is_starting s.status) then set_status starting (drop_presence s) else s
  handle keep_alive_timeout s =
      if not (is_starting s.status) then set_status starting (drop_presence s) else s
  handle keep_alive_restored s = if not (is_working s.status) then set_status working s else s
  handle logged_out s = set_status failed s
  handle (qr_channel_item event code) s = qr_item event code s
  handle (push_name_setting name) s = record s { me = some (push_name name s.me) }

  unfoldable pub handle_all : List EngineEvent → Session → Session
  handle_all [] s = s
  handle_all (e ∷ es) s = handle_all es (handle e s)

-- `start`: the engine's reply comes later. `buildAuth` may throw after the status is set.
unfoldable pub start : Session → Session
unfolding set_status
start s = set_status starting s

-- The rejected `StartSession` call.
unfoldable pub start_failed : Session → Session
unfolding set_status
start_failed s = set_status failed s

-- `stop`, up to the engine's `StopSession`.
unfoldable pub stop : Session → Session
unfolding set_status cleanup_presence_timeout
stop s = set_status stopped (cleanup_presence_timeout s)
