-- ===== src/Gows/GroupEvents.antt =====
-- What listeners of the group events are told.
use aira_relay.Base.{
  ℕ, Bool, true, false, not, ◌&&◌, ◌||◌, if◌then◌else◌, Option, none, some, get_or, is_some, List,
  [], ◌∷◌, map, filter, Text, contains, ◌≡◌, refl, arith, Bool-cases, Option-cases,
}
use mathlib.Core.Option
use aira_relay.Jids.{to_jid}
use aira_relay.Session.{MeInfo}
use aira_relay.Messages.{is_filled}
use aira_relay.Gows.{own_id}
use aira_relay.Gows.Groups.{
  GroupInfoFull, GroupInfoEvent, ParticipantType, role_after, participants_as, jids_of,
  get_participants, participants_events, types, to_group_v2_participants_events,
  GroupV2ParticipantsEvent, to_group_info, to_group_v2_join_event, to_group_v2_update_event,
  to_group_v2_leave_event, to_group_info_partial, has_any, partial_info,
}

-- The event of one of the four lists.
abbrev pub event_of : (now : ℕ) → GroupInfoEvent → ParticipantType → GroupV2ParticipantsEvent
event_of now event t = record {
  timestamp = now;
  group_id = event.jid;
  type = t;
  participants = participants_as (role_after t) (get_or (jids_of event t) []);
}

participants_events_lem :
    (now : ℕ) (event : GroupInfoEvent) (ts : List ParticipantType)
    → participants_events now event ts
      ≡ map (event_of now event) (filter (λ t. is_some (jids_of event t)) ts)
unfolding participants_events get_participants role_after
participants_events_lem now event [] = refl
participants_events_lem now event (t ∷ ts) =
    let rest = participants_events_lem now event ts in
    ground (arith, rest, Option-cases (jids_of event t))

-- Listeners of group.v2.participants get one event for each list that the engine's event has, those who
-- left first, then those who joined, were promoted and were demoted, with every id of the list in the
-- API's form and the role that the change leaves.
pub to_group_v2_participants_events_lem :
    (now : ℕ) (event : GroupInfoEvent)
    → to_group_v2_participants_events now event
      ≡ map (event_of now event) (filter (λ t. is_some (jids_of event t)) types)
unfolding to_group_v2_participants_events
to_group_v2_participants_events_lem now event = participants_events_lem now event types

left_lem :
    (now : ℕ) (me : Option MeInfo) (event : GroupInfoEvent) (left : Option (List Text))
    → is_some (to_group_v2_leave_event now me (record event { leave = left }))
      ≡ (is_filled (own_id me) && contains (get_or left []) (to_jid (get_or (own_id me) [])))
unfolding to_group_v2_leave_event contains
left_lem now me event none = ground arith
left_lem now me event (some []) = ground arith
left_lem now me event (some (j ∷ js)) = ground arith

changed_lem :
    (name topic link : Option Text) (announce approval : Option Bool)
    → (is_some name
        || is_some topic
        || is_some (if is_filled link then link else none)
        || false
        || is_some (Option.map not announce)
        || is_some approval
        || false)
      ≡ (is_some name || is_some topic || is_filled link || is_some announce || is_some approval)
changed_lem name topic link announce approval =
    ground (arith, Option-cases link, Option-cases announce)

update_lem :
    (now : ℕ) (event : GroupInfoEvent)
    → to_group_v2_update_event now event ≡ (
        if has_any (partial_info event)
        then some (record { timestamp = now; group = partial_info event })
        else none)
unfolding to_group_v2_update_event to_group_info_partial
update_lem now event = ground (arith, Bool-cases (has_any (partial_info event)))

has_announce :
    (event : GroupInfoEvent) (b : Bool)
    → event.announce ≡ some b
    → has_any (partial_info event) ≡ true
unfolding has_any
has_announce event b h = ground (arith, h)

-- A group event tells listeners of group.v2.leave that the session left exactly if the session knows its
-- id and that id, as the engine writes it, is among those who left; and it tells listeners of
-- group.v2.update exactly if it has a name, a topic, a non-empty invite link, or a setting of announce or
-- of approval.
pub group_events_iff :
    (now : ℕ) (me : Option MeInfo) (event : GroupInfoEvent)
    → (is_some (to_group_v2_leave_event now me event) ≡ (
        is_filled (own_id me) && contains (get_or event.leave []) (to_jid (get_or (own_id me) []))))
      × (is_some (to_group_v2_update_event now event) ≡ (
          is_some event.name
          || is_some event.topic
          || is_filled event.new_invite_link
          || is_some event.announce
          || is_some event.membership_approval_mode))
unfolding to_group_v2_leave_event to_group_v2_update_event to_group_info_partial has_any contains
group_events_iff now me event = (
  left_lem now me event event.leave,
  rw (update_lem now event) (
      ground (
        arith,
        changed_lem event.name event.topic event.new_invite_link event.announce
            event.membership_approval_mode,
        Bool-cases (has_any (partial_info event)),
      )),
)

-- A group that the session joins and an update of the same announce setting disagree on whether members
-- can send messages: the first gives the setting, the second its opposite.
pub announce_disagrees :
    (now : ℕ) (group : GroupInfoFull) (event : GroupInfoEvent)
    → event.announce ≡ some group.is_announce
    → ((to_group_v2_join_event now group).group.members_can_send_messages ≡ some group.is_announce)
      × (Option.map (λ e. e.group.members_can_send_messages) (to_group_v2_update_event now event)
          ≡ some (some (not group.is_announce)))
unfolding to_group_v2_join_event to_group_info to_group_v2_update_event to_group_info_partial
    has_any
announce_disagrees now group event h =
    (refl, rw (update_lem now event, has_announce event group.is_announce h, h) refl)
