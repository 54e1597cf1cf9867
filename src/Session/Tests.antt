-- ===== src/Session/Tests.antt =====
-- Runs and instances of the session's theorems.
use aira_relay.Base.{true, false, none, some, List, [], ◌∷◌, Text, codes, ◌≡◌, refl}
use aira_relay.Jids.{to_cus_format}
use aira_relay.Session.{
  Status, starting, working, failed, online, Session, new_session, PresenceConfig, begin_activity,
  maintain_presence_online, EngineEvent, connected, disconnected, qr_channel_item, handle, start,
}
use aira_relay.Session.Stream.{Push, settle, distinct_until_changed, bodies, scan, session_status}
use aira_relay.Session.Publishing.{final, told, last_push, session_status-final}

-- A stand-in for the package's function: an id with no device stays.
abbrev keep : Text → Text
keep jid = jid

abbrev config : PresenceConfig
config = record { enabled = true; duration = 25000 }

abbrev begun : Session
begun = start (new_session (codes "default"))

abbrev linked : Session
linked =
    handle keep to_cus_format (connected (codes "12@s.whatsapp.net") (codes "7@lid") (codes "A"))
      begun

abbrev active : Session
active = begin_activity config 5 linked

abbrev unpaired : Session
unpaired = record linked { unpairing = true }

abbrev two_events : List EngineEvent
two_events = disconnected ∷ qr_channel_item (some (codes "code")) (some (codes "x")) ∷ []

-- A session that works, with no presence yet.
abbrev idle : Session
idle = record {
  name = codes "default";
  status = working;
  presence = none;
  unpairing = false;
  me = none;
  qr = none;
  last_activity = none;
  timer = none;
  published = working ∷ [];
}

-- STARTING, WORKING with no account yet and again with it, FAILED.
abbrev first : Push
first = record { at = 0; status = starting; has_me = false }

abbrev later : List Push
later =
    record { at = 100; status = working; has_me = false }
    ∷ record { at = 400; status = working; has_me = true }
    ∷ record { at = 9000; status = failed; has_me = true }
    ∷ []

told_run :
    told (session_status [] (first ∷ later)) ≡ some starting ∷ some working ∷ some failed ∷ []
unfolding session_status settle distinct_until_changed bodies scan
told_run = refl

session_status-final_example :
    final none (told (session_status [] (first ∷ later))) ≡ some (some (last_push first later))
session_status-final_example = session_status-final [] first later

abbrev two_statuses : List Status
two_statuses = starting ∷ working ∷ []

-- The engine disconnects while an activity waits for it: the session is STARTING, shows itself online and
-- has a pending timeout.
abbrev interrupted : Session
interrupted =
    maintain_presence_online config 5 9 true (λ s. handle keep to_cus_format disconnected s) idle

interrupted_run :
    (interrupted.status ≡ starting)
    × (interrupted.presence ≡ some online)
    × (interrupted.timer ≡ some 25009)
unfolding maintain_presence_online handle
interrupted_run = (refl, refl, refl)
