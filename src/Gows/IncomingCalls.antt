-- ===== src/Gows/IncomingCalls.antt =====
-- What the calls app asks of the session for an incoming call.
use aira_relay.Base.{
  Bool, true, false, not, ◌&&◌, ◌||◌, if◌then◌else◌, Option, none, some, get_or, List, [], ◌∷◌,
  ◌++◌, append_assoc, append-nil, Text, ◌≡◌, refl, ap, ◌∙◌, arith, Bool-cases, Option-cases,
}
use aira_relay.Base.Results.{internal, Result, ok, err, M, ◌>>◌, pure, throw, modify, when, attempt}
use aira_relay.Messages.{is_filled}
use aira_relay.Gows.Calls.{
  CallData, ChannelConfig, CallsConfig, ListenerAction, reject_call, typing, paused, sleep,
  send_text, ask, set_typing, set_paused, reply_with_typing, config_for, handle_with, handle_call,
}
use aira_relay.Gows.Blanks.{has_words, trim_filled, inner, trim_lem}

-- The rules for calls of groups, and for those of direct chats.
abbrev pub rules_of : Option CallsConfig → (is_group : Bool) → Option ChannelConfig
rules_of none is_group = none
rules_of (some config) true = config.group
rules_of (some config) false = config.dm

rules_lem :
    (config : Option CallsConfig) (call : CallData)
    → config_for config call ≡ rules_of config call.is_group
unfolding config_for
rules_lem none call = refl
rules_lem (some config) call = ground (arith, Bool-cases call.is_group)

module _ (answers : ListenerAction → Bool) where
  -- Typing, a pause of two seconds if the session could show it, and the text.
  unfoldable pub reply : (chat_id text : Text) → List ListenerAction
  reply chat_id text =
      typing chat_id
      ∷ ((if answers (typing chat_id) then sleep 2000 ∷ [] else [])
          ++ (paused chat_id ∷ send_text chat_id text ∷ []))

  -- The rejection is not asked for, or done.
  unfoldable pub reject_done : ChannelConfig → (from id : Text) → Bool
  reject_done config from id = not config.reject || answers (reject_call from id)

  abbrev pub words : ChannelConfig → Bool
  words config = has_words (get_or config.message [])

  -- The rejection comes first, and the reply only after it succeeded.
  unfoldable pub handled : ChannelConfig → (from id : Text) → List ListenerAction
  unfolding reply reject_done
  handled config from id =
      (if config.reject then reject_call from id ∷ [] else [])
      ++ (if reject_done config from id && words config
          then reply from (inner (get_or config.message []))
          else [])

  -- The listener fails with what it needs.
  unfoldable pub outcome : ChannelConfig → (from id : Text) → Result (Unit {0})
  unfolding reject_done
  outcome config from id =
      if reject_done config from id
        && (not (words config) || answers (send_text from (inner (get_or config.message []))))
      then ok tt
      else err internal

  answered :
      (b : Bool) (u : List ListenerAction)
      → (if b then pure tt else throw internal) u ≡ (u, if b then ok tt else err internal)
  answered true u = refl
  answered false u = refl

  ask_lem :
      (a : ListenerAction) (done : List ListenerAction)
      → ask answers a done ≡ (done ++ (a ∷ []), if answers a then ok tt else err internal)
  unfolding ask
  ask_lem a done = answered (answers a) (done ++ (a ∷ []))

  typed_lem :
      (b : Bool) (u : List ListenerAction)
      → attempt
          ((if b then pure tt else throw internal) >> modify (λ done. done ++ (sleep 2000 ∷ [])))
          u
        ≡ (u ++ (if b then sleep 2000 ∷ [] else []), ok tt)
  typed_lem true u = refl
  typed_lem false u = rw (append-nil u) refl

  set_typing_lem :
      (chat_id : Text) (done : List ListenerAction)
      → set_typing answers chat_id done ≡ (
        (done ++ (typing chat_id ∷ []))
            ++ (if answers (typing chat_id) then sleep 2000 ∷ [] else []),
        ok tt,
      )
  unfolding set_typing ask
  set_typing_lem chat_id done = typed_lem (answers (typing chat_id)) (done ++ (typing chat_id ∷ []))

  set_paused_lem :
      (chat_id : Text) (done : List ListenerAction)
      → set_paused answers chat_id done ≡ (done ++ (paused chat_id ∷ []), ok tt)
  unfolding set_paused
  set_paused_lem chat_id done = rw (ask_lem (paused chat_id) done) refl

  then_done :
      (m k : M (List ListenerAction) (Unit {0})) (done after : List ListenerAction)
      → m done ≡ (after, ok tt)
      → (m >> k) done ≡ k after
  then_done m k done after h =
      ap
        (λ r. elim r.1 as (λ _. List ListenerAction × Result (Unit {0})) [
          | ok a ↦ k r.0
          | err e ↦ (r.0, err e)
        ])
        h

  reply_lem :
      (chat_id text : Text) (done : List ListenerAction)
      → reply_with_typing answers chat_id text done ≡ (
        done ++ reply chat_id text,
        if answers (send_text chat_id text) then ok tt else err internal,
      )
  unfolding reply_with_typing reply
  reply_lem chat_id text done =
      let typed =
        (done ++ (typing chat_id ∷ []))
        ++ (if answers (typing chat_id) then sleep 2000 ∷ [] else []) in
      let calm = typed ++ (paused chat_id ∷ []) in
      then_done (set_typing answers chat_id >> set_paused answers chat_id)
        (ask answers (send_text chat_id text)) done calm
        (then_done (set_typing answers chat_id) (set_paused answers chat_id) done typed
            (set_typing_lem chat_id done)
          ∙ set_paused_lem chat_id typed)
      ∙ (ask_lem (send_text chat_id text) calm ∙ simp (append_assoc))

  -- What is left to do once the rejection was asked for, with the answer `b`.
  replied_lem :
      (b w : Bool) (from text : Text) (done : List ListenerAction)
      → ((if b then pure tt else throw internal) >> when w (reply_with_typing answers from text))
          done
        ≡ (
          done ++ (if b && w then reply from text else []),
          if b && (not w || answers (send_text from text)) then ok tt else err internal,
        )
  replied_lem false w from text done = rw (append-nil done) refl
  replied_lem true false from text done = rw (append-nil done) refl
  replied_lem true true from text done = reply_lem from text done

  handled_lem :
      (r w : Bool) (from id text : Text) (done : List ListenerAction)
      → (when r (ask answers (reject_call from id)) >> when w (reply_with_typing answers from text))
          done
        ≡ (
          done
              ++ ((if r then reject_call from id ∷ [] else [])
                  ++ (if (not r || answers (reject_call from id)) && w
                      then reply from text
                      else [])),
          if (not r || answers (reject_call from id)) && (not w || answers (send_text from text))
              then ok tt
              else err internal,
        )
  unfolding ask
  handled_lem false w from id text done = replied_lem true w from text done
  handled_lem true w from id text done =
      replied_lem (answers (reject_call from id)) w from text (done ++ (reject_call from id ∷ []))
      ∙ rw (append_assoc done (reject_call from id ∷ [])) refl

  handle_with_lem :
      (config : ChannelConfig) (from id : Text) (done : List ListenerAction)
      → handle_with answers config from id done
        ≡ (done ++ handled config from id, outcome config from id)
  unfolding handled outcome reject_done
  handle_with_lem config from id done =
      rw (trim_filled (get_or config.message []), trim_lem (get_or config.message []))
        (handled_lem config.reject (words config) from id (inner (get_or config.message [])) done)

  -- What is asked for a call, and how the listener ends.
  unfoldable pub expected : Option CallsConfig → CallData → List ListenerAction × Result (Unit {0})
  unfolding handled outcome
  expected config call =
      if is_filled call.from && is_filled call.id
      then elim (rules_of config call.is_group) [
        | none ↦ ([], ok tt)
        | some rules ↦ (
          handled rules (get_or call.from []) (get_or call.id []),
          outcome rules (get_or call.from []) (get_or call.id []),
        )
      ]
      else ([], ok tt)

  found_lem :
      (found : Option ChannelConfig) (from id : Text) (done : List ListenerAction)
      → elim found as (λ _. M (List ListenerAction) (Unit {0})) [
        | none ↦ pure tt
        | some rules ↦ handle_with answers rules from id
      ]
          done
        ≡ elim found as (λ _. List ListenerAction × Result (Unit {0})) [
          | none ↦ (done, ok tt)
          | some rules ↦ (done ++ handled rules from id, outcome rules from id)
        ]
  found_lem none from id done = refl
  found_lem (some rules) from id done = handle_with_lem rules from id done

  -- A call without a chat, an id or rules for its kind is left alone. For any other, the listener asks to
  -- reject it if the rules say so, and only after that succeeded, or where they do not, and if the
  -- message has more than blanks, shows typing, waits if it could, shows a pause and sends the message
  -- without its outer blanks; it fails exactly if the rejection or the message does.
  pub handle_call_lem :
      (config : Option CallsConfig) (call : CallData) (done : List ListenerAction)
      → handle_call answers config call done
        ≡ (done ++ (expected config call).0, (expected config call).1)
  unfolding handle_call expected
  handle_call_lem config call done = rw (rules_lem config call) (
      ground (
        arith,
        found_lem (rules_of config call.is_group) (get_or call.from []) (get_or call.id []) done,
        Bool-cases (is_filled call.from),
        Bool-cases (is_filled call.id),
        Option-cases (rules_of config call.is_group),
        append-nil done,
      ))
