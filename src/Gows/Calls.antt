-- ===== src/Gows/Calls.antt =====
-- Calls: the call events of waha-plus/src/core/engines/gows/session.gows.core.ts and the listener of
-- the calls app, apps/calls/services/CallsListener.ts.
use aira_relay.Base.{
  ℕ, Bool, false, not, ◌&&◌, ◌||◌, ◌==◌, leb, if◌then◌else◌, Option, none, some, get_or, List, [],
  ◌∷◌, ◌++◌, any, Text, codes, text_eq,
}
use aira_relay.Base.Results.{internal, M, ◌>>◌, pure, throw, modify, when, attempt}
use aira_relay.Jids.{IgnoreJidConfig, include}
use aira_relay.Messages.{is_filled}
use aira_relay.Gows.{cus}

pub record CallAttrs : Type 0 where
  pub call_id : Option Text
  pub media : Option Text
  pub type : Option Text
  pub group_jid : Option Text

-- `call.Data`. `content` holds the tags where the content is an array.
pub record CallNode : Type 0 where
  pub attrs : Option CallAttrs
  pub content : Option (List Text)

pub record Call : Type 0 where
  pub call_id : Option Text
  pub group_jid : Option Text
  pub from : Option Text
  pub timestamp : Option Text
  pub media : Option Text
  pub reason : Option Text
  pub node : Option CallNode

-- `call?.Data?.Attrs?.x`.
abbrev pub attr : (CallAttrs → Option Text) → Call → Option Text
attr x call = elim call.node [
  | none ↦ none
  | some node ↦ elim node.attrs [ none ↦ none | some attrs ↦ x attrs ]
]

-- `a || b` of strings that may be missing.
abbrev pub or_else : Option Text → Option Text → Option Text
or_else a b = if is_filled a then a else b

-- `x === 'text'`.
abbrev pub is_text : Option Text → Text → Bool
is_text none t = false
is_text (some s) t = text_eq s t

unfoldable pub get_call_id : Call → Option Text
get_call_id call = or_else call.call_id (or_else (attr (λ a. a.call_id) call) none)

unfoldable pub should_process_call_event : IgnoreJidConfig → Option Call → Bool
should_process_call_event ignore none = false
should_process_call_event ignore (some call) =
    (is_filled call.group_jid && include ignore call.group_jid) || include ignore call.from

-- The filter of terminated calls.
unfoldable pub is_ended_here : Call → Bool
is_ended_here call =
    not (is_text call.reason (codes "accepted_elsewhere"))
    && not (is_text call.reason (codes "rejected_elsewhere"))

abbrev pub content_has : Text → Call → Bool
content_has tag call = elim call.node [
  | none ↦ false
  | some node ↦ any (λ t. text_eq t tag) (get_or node.content [])
]

unfoldable pub is_video_call : Call → Bool
is_video_call call =
    is_text call.media (codes "video")
    || is_text (or_else (attr (λ a. a.media) call) (attr (λ a. a.type) call)) (codes "video")
    || content_has (codes "video") call

unfoldable pub is_group_call : Call → Bool
is_group_call call =
    is_filled call.group_jid
    || is_text (attr (λ a. a.type) call) (codes "group")
    || is_filled (attr (λ a. a.group_jid) call)

-- `CallData`, the time in milliseconds of which the source gives out seconds.
pub record CallData : Type 0 where
  pub id : Option Text
  pub from : Option Text
  pub timestamp_ms : ℕ
  pub is_video : Bool
  pub is_group : Bool

-- `time` reads a date, `now` is the clock.
unfoldable pub to_call_data : (time : Text → ℕ) (now : ℕ) → Call → CallData
unfolding get_call_id is_video_call is_group_call
to_call_data time now call =
    let from = or_else call.from call.group_jid in
    record {
      id = get_call_id call;
      from = if is_filled from then cus from else none;
      timestamp_ms = if is_filled call.timestamp then time (get_or call.timestamp []) else now;
      is_video = is_video_call call;
      is_group = is_group_call call;
    }

-- `String.prototype.trim`.
unfoldable pub is_space : ℕ → Bool
is_space c =
    (leb 9 c && leb c 13)
    || c == 32
    || c == 160
    || c == 5760
    || (leb 8192 c && leb c 8202)
    || c == 8232
    || c == 8233
    || c == 8239
    || c == 8287
    || c == 12288
    || c == 65279

unfoldable pub trim_start : Text → Text
trim_start [] = []
trim_start (c ∷ s) = if is_space c then trim_start s else c ∷ s

abbrev pub cons_kept : ℕ → Text → Text
cons_kept c [] = if is_space c then [] else c ∷ []
cons_kept c (d ∷ s) = c ∷ d ∷ s

unfoldable pub trim_end : Text → Text
trim_end [] = []
trim_end (c ∷ s) = cons_kept c (trim_end s)

unfoldable pub trim : Text → Text
unfolding trim_start trim_end
trim s = trim_end (trim_start s)

-- `CallsAppChannelConfig` and `CallsAppConfig`.
pub record ChannelConfig : Type 0 where
  pub reject : Bool
  pub message : Option Text

pub record CallsConfig : Type 0 where
  pub dm : Option ChannelConfig
  pub group : Option ChannelConfig

unfoldable pub config_for : Option CallsConfig → CallData → Option ChannelConfig
config_for none call = none
config_for (some config) call = if call.is_group then config.group else config.dm

-- What the listener asks of the session, in order, and its sleep.
pub data ListenerAction : Type 0 where
  reject_call : (from id : Text) → ListenerAction
  typing paused : (chat_id : Text) → ListenerAction
  sleep : ℕ → ListenerAction
  send_text : (chat_id text : Text) → ListenerAction

-- Whether the session does what it is asked; it throws otherwise.
module _ (answers : ListenerAction → Bool) where
  unfoldable pub ask : ListenerAction → M (List ListenerAction) (Unit {0})
  ask a = modify (λ done. done ++ (a ∷ [])) >> (if answers a then pure tt else throw internal)

  unfoldable pub set_typing : Text → M (List ListenerAction) (Unit {0})
  unfolding ask
  set_typing chat_id = attempt (ask (typing chat_id) >> modify (λ done. done ++ (sleep 2000 ∷ [])))

  unfoldable pub set_paused : Text → M (List ListenerAction) (Unit {0})
  unfolding ask
  set_paused chat_id = attempt (ask (paused chat_id))

  unfoldable pub reply_with_typing : (chat_id message : Text) → M (List ListenerAction) (Unit {0})
  reply_with_typing chat_id message =
      set_typing chat_id >> set_paused chat_id >> ask (send_text chat_id message)

  abbrev pub handle_with : ChannelConfig → (from id : Text) → M (List ListenerAction) (Unit {0})
  handle_with config from id =
      let message = trim (get_or config.message []) in
      when config.reject (ask (reject_call from id))
      >> when (is_filled (some message)) (reply_with_typing from message)

  unfoldable pub handle_call : Option CallsConfig → CallData → M (List ListenerAction) (Unit {0})
  unfolding config_for
  handle_call config call =
      if not (is_filled call.from)
      then pure tt
      else if not (is_filled call.id)
      then pure tt
      else elim (config_for config call) [
        | none ↦ pure tt
        | some channel ↦ handle_with channel (get_or call.from []) (get_or call.id [])
      ]
