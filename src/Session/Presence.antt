-- ===== src/Session/Presence.antt =====
-- Automatic presence: activity keeps a session online, silence takes it offline.
use aira_relay.Base.{ℕ, ◌+◌, ◌≡◌, Bool, true, false, none, some, ◌⊎◌, arith}
use aira_relay.Session.{
  working, online, offline, is_online, Session, PresenceConfig, maintain_presence_online,
  presence_timeout,
}

-- With automatic presence enabled, the last of two activities of a working session that is online, or
-- whose engine takes the presence, nothing else happening meanwhile, sets the time of the timeout and is the session's last activity, and
-- when the timeout is over the session is offline, whether the engine takes that or not.
pub maintain_twice :
    (config : PresenceConfig) (now later : ℕ) (sent : Bool) (s : Session)
    → config.enabled ≡ true
    → s.status ≡ working
    → (is_online s.presence ≡ true) ⊎ (sent ≡ true)
    → let t =
        maintain_presence_online config later later sent
          (λ s. s)
          (maintain_presence_online config now now sent (λ s. s) s) in
      (t.presence ≡ some online)
      × (t.timer ≡ some (later + config.duration))
      × (t.last_activity ≡ some later)
      × (t.published ≡ s.published)
      × ((presence_timeout (λ s. s) t).presence ≡ some offline)
      × ((presence_timeout (λ s. s) t).timer ≡ none)
unfolding maintain_presence_online presence_timeout
maintain_twice config now later sent s e w o = ground arith

-- With automatic presence enabled, when the engine refuses the first presence of an activity of a
-- working session that is not online, and nothing else happens meanwhile, the session counts as online all the same: it has no new timeout,
-- and what the engine answers no longer matters, since the next activity does not ask it.
pub maintain_refused :
    (config : PresenceConfig) (now later : ℕ) (sent : Bool) (s : Session)
    → config.enabled ≡ true
    → s.status ≡ working
    → is_online s.presence ≡ false
    → let t = maintain_presence_online config now now false (λ s. s) s in
      (t.presence ≡ some online)
      × (t.timer ≡ s.timer)
      × (maintain_presence_online config later later sent (λ s. s) t
          ≡ maintain_presence_online config later later false (λ s. s) t)
unfolding maintain_presence_online
maintain_refused config now later sent s e w o = ground arith
