-- ===== src/Gows/EventTests.antt =====
-- Runs on events of groups and calls, and instances of the theorems.
use aira_relay.Base.{
  Bool, true, false, ◌&&◌, ◌||◌, none, some, get_or, is_some, [], ◌∷◌, ◌++◌, map, Text, codes, has,
  text_eq, ends_with, first_part, contains, ◌≡◌, refl,
}
use mathlib.Core.Option
use aira_relay.Base.Results.{ok}
use aira_relay.Jids.{
  IgnoreJidConfig, include, to_jid, to_cus_format, is_jid_group, is_jid_broadcast, is_lid_user,
  is_jid_newsletter, is_jid_meta_ai, ensure_suffix, is_pn_user, is_null_jid,
  is_jid_status_broadcast,
}
use aira_relay.Session.{MeInfo}
use aira_relay.Messages.{is_filled}
use aira_relay.Gows.{own_id}
use aira_relay.Gows.Groups.{
  GroupInfoFull, GroupInfoEvent, leave, to_group_v2_join_event, to_group_v2_update_event,
  to_group_v2_leave_event, to_group_v2_participants_events,
}
use aira_relay.Gows.Calls.{
  Call, should_process_call_event, is_space, trim, CallData, CallsConfig, ListenerAction,
  reject_call, typing, paused, send_text, handle_call, config_for, ask, reply_with_typing,
  set_typing, set_paused,
}
use aira_relay.Gows.GroupEvents.{group_events_iff, announce_disagrees}
use aira_relay.Gows.IncomingCalls.{expected, handle_call_lem}

computing : Unit {0}
unfolding has text_eq ends_with first_part to_cus_format is_jid_group is_jid_broadcast is_lid_user
    is_jid_newsletter ensure_suffix
computing = tt

abbrev number : Text
number = codes "4917@s.whatsapp.net"

abbrev mine : Text
mine = codes "4930@s.whatsapp.net"

abbrev group : Text
group = codes "55@g.us"

abbrev me : MeInfo
me = record { id = some (codes "4930@c.us"); push_name = none; lid = none; jid = some mine }

-- Two members, one of them the session's account, were removed, and members may no longer write.
abbrev removal : GroupInfoEvent
removal = record {
  jid = group;
  name = none;
  topic = none;
  announce = some true;
  membership_approval_mode = none;
  new_invite_link = none;
  join = none;
  leave = some (number ∷ mine ∷ []);
  promote = none;
  demote = none;
}

group_events_iff_example :
    (is_some (to_group_v2_leave_event 7 (some me) removal) ≡ (
      is_filled (own_id (some me))
      && contains (get_or removal.leave []) (to_jid (get_or (own_id (some me)) []))))
    × (is_some (to_group_v2_update_event 7 removal) ≡ (
        is_some removal.name
        || is_some removal.topic
        || is_filled removal.new_invite_link
        || is_some removal.announce
        || is_some removal.membership_approval_mode))
group_events_iff_example = group_events_iff 7 (some me) removal

removal_run :
    (is_some (to_group_v2_leave_event 7 (some me) removal) ≡ true)
    × (map (λ e. e.type) (to_group_v2_participants_events 7 removal) ≡ leave ∷ [])
unfolding computing to_group_v2_leave_event to_group_v2_participants_events contains to_jid
    is_jid_meta_ai
removal_run = (refl, refl)

abbrev joined : GroupInfoFull
joined = record {
  jid = group;
  name = codes "G";
  topic = [];
  is_announce = true;
  participants = [];
  member_add_mode = codes "admin_add";
  is_join_approval_required = false;
}

announce_disagrees_example :
    ((to_group_v2_join_event 7 joined).group.members_can_send_messages ≡ some true)
    × (Option.map (λ e. e.group.members_can_send_messages) (to_group_v2_update_event 7 removal)
        ≡ some (some false))
announce_disagrees_example = announce_disagrees 7 joined removal refl

abbrev group_call : Call
group_call = record {
  call_id = some (codes "C1");
  group_jid = some group;
  from = some number;
  timestamp = none;
  media = none;
  reason = none;
  node = none;
}

abbrev no_groups : IgnoreJidConfig
no_groups = record {
  dm = false;
  status = false;
  groups = true;
  channels = false;
  broadcast = false;
}

-- A session that ignores groups is told of a call in a group, by its caller's direct chat.
group_call_run : should_process_call_event no_groups (some group_call) ≡ true
unfolding computing should_process_call_event include is_pn_user is_null_jid is_jid_status_broadcast
group_call_run = refl

abbrev answering : ListenerAction → Bool
answering (typing chat) = false
answering _ = true

abbrev reply_rules : CallsConfig
reply_rules = record {
  dm = some (record { reject = true; message = some (codes " no calls ") });
  group = none;
}

abbrev direct_call : CallData
direct_call = record {
  id = some (codes "C1");
  from = some (codes "4917@c.us");
  timestamp_ms = 7;
  is_video = false;
  is_group = false;
}

handle_call_lem_example : handle_call answering (some reply_rules) direct_call [] ≡ (
  [] ++ (expected answering (some reply_rules) direct_call).0,
  (expected answering (some reply_rules) direct_call).1,
)
handle_call_lem_example = handle_call_lem answering (some reply_rules) direct_call []

handle_call_run : handle_call answering (some reply_rules) direct_call [] ≡ (
  reject_call (codes "4917@c.us") (codes "C1")
      ∷ typing (codes "4917@c.us")
      ∷ paused (codes "4917@c.us")
      ∷ send_text (codes "4917@c.us") (codes "no calls")
      ∷ [],
  ok tt,
)
unfolding handle_call config_for ask reply_with_typing set_typing set_paused trim is_space
handle_call_run = refl
