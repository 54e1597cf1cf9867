-- ===== src/Gows/Groups.antt =====
-- Group events of the GOWS engine: waha-plus/src/core/engines/gows/groups.gows.ts and types.group.ts.
-- `now` is `Date.now()`.
use aira_relay.Base.{
  ℕ, Bool, not, ◌||◌, if◌then◌else◌, Option, none, some, get_or, is_some, List, [], ◌∷◌, map, Text,
  codes, text_eq, contains,
}
use mathlib.Core.Option
use aira_relay.Jids.{to_jid, to_cus_format}
use aira_relay.Session.{MeInfo}
use aira_relay.Messages.{is_filled}
use aira_relay.Gows.{own_id}

-- `GOWSGroupParticipant`.
pub record EngineParticipant : Type 0 where
  pub jid : Text
  pub phone_number : Text
  pub is_admin : Bool
  pub is_super_admin : Bool

-- `GroupInfoFull`, without the fields that nothing reads.
pub record GroupInfoFull : Type 0 where
  pub jid : Text
  pub name : Text
  pub topic : Text
  pub is_announce : Bool
  pub participants : List EngineParticipant
  pub member_add_mode : Text
  pub is_join_approval_required : Bool

-- `GroupInfoEvent`, without the fields that nothing reads. Name, topic, announce and approval mode are
-- records of which one field is read. A list is missing where the engine has none.
pub record GroupInfoEvent : Type 0 where
  pub jid : Text
  pub name : Option Text
  pub topic : Option Text
  pub announce : Option Bool
  pub membership_approval_mode : Option Bool
  pub new_invite_link : Option Text
  pub join : Option (List Text)
  pub leave : Option (List Text)
  pub promote : Option (List Text)
  pub demote : Option (List Text)

-- `GroupParticipantRole`.
pub data Role : Type 0 where
  left participant admin superadmin : Role

pub record GroupParticipant : Type 0 where
  pub id : Text
  pub pn : Option Text
  pub role : Role

pub record GroupInfo : Type 0 where
  pub id : Text
  pub subject : Option Text
  pub description : Option Text
  pub participants : Option (List GroupParticipant)
  pub invite : Option Text
  pub members_can_add_new_member : Option Bool
  pub members_can_send_messages : Option Bool
  pub new_members_approval_required : Option Bool

-- `GroupParticipantType`.
pub data ParticipantType : Type 0 where
  leave join promote demote : ParticipantType

pub record GroupV2Event : Type 0 where
  pub timestamp : ℕ
  pub group : GroupInfo

pub record GroupV2LeaveEvent : Type 0 where
  pub timestamp : ℕ
  pub group_id : Text

pub record GroupV2ParticipantsEvent : Type 0 where
  pub timestamp : ℕ
  pub group_id : Text
  pub type : ParticipantType
  pub participants : List GroupParticipant

unfoldable pub role_in_group : EngineParticipant → Role
role_in_group p = if p.is_super_admin then superadmin else if p.is_admin then admin else participant

unfoldable pub to_group_participants : List EngineParticipant → List GroupParticipant
unfolding role_in_group
to_group_participants [] = []
to_group_participants (p ∷ ps) =
    record {
      id = to_cus_format p.jid;
      pn = some (to_cus_format p.phone_number);
      role = role_in_group p;
    }
    ∷ to_group_participants ps

unfoldable pub to_group_info : GroupInfoFull → GroupInfo
unfolding to_group_participants
to_group_info group = record {
  id = group.jid;
  subject = some group.name;
  description = some group.topic;
  participants = some (to_group_participants group.participants);
  invite = none;
  members_can_add_new_member = some (text_eq group.member_add_mode (codes "all_member_add"));
  members_can_send_messages = some group.is_announce;
  new_members_approval_required = some group.is_join_approval_required;
}

abbrev pub partial_info : GroupInfoEvent → GroupInfo
partial_info group = record {
  id = group.jid;
  subject = group.name;
  description = group.topic;
  participants = none;
  invite = if is_filled group.new_invite_link then group.new_invite_link else none;
  members_can_add_new_member = none;
  members_can_send_messages = Option.map not group.announce;
  new_members_approval_required = group.membership_approval_mode;
}

-- The loop over the fields other than the id.
unfoldable pub has_any : GroupInfo → Bool
has_any info =
    is_some info.subject
    || is_some info.description
    || is_some info.invite
    || is_some info.members_can_add_new_member
    || is_some info.members_can_send_messages
    || is_some info.new_members_approval_required
    || is_some info.participants

unfoldable pub to_group_info_partial : GroupInfoEvent → Option GroupInfo
unfolding has_any
to_group_info_partial group =
    let info = partial_info group in if has_any info then some info else none

unfoldable pub to_group_v2_join_event : (now : ℕ) → GroupInfoFull → GroupV2Event
unfolding to_group_info
to_group_v2_join_event now event = record { timestamp = now; group = to_group_info event }

unfoldable pub to_group_v2_update_event : (now : ℕ) → GroupInfoEvent → Option GroupV2Event
unfolding to_group_info_partial
to_group_v2_update_event now event =
    Option.map (λ group. record { timestamp = now; group = group }) (to_group_info_partial event)

-- An empty list leaves no event, and an account without an id neither.
unfoldable pub to_group_v2_leave_event :
    (now : ℕ) → Option MeInfo → GroupInfoEvent → Option GroupV2LeaveEvent
to_group_v2_leave_event now me event = elim event.leave [
  | none ↦ none
  | some [] ↦ none
  | some (jid ∷ jids) ↦
      if is_filled (own_id me)
      then if contains (jid ∷ jids) (to_jid (get_or (own_id me) []))
        then some (record { timestamp = now; group_id = event.jid })
        else none
      else none
]

-- The switch of `getParticipants`.
unfoldable pub role_after : ParticipantType → Role
role_after join = participant
role_after leave = left
role_after promote = admin
role_after demote = participant

abbrev pub participants_as : Role → List Text → List GroupParticipant
participants_as role jids =
    map (λ jid. record { id = to_cus_format jid; pn = none; role = role }) jids

unfoldable pub get_participants :
    Option (List Text) → ParticipantType → Option (List GroupParticipant)
unfolding role_after
get_participants none type = none
get_participants (some jids) type = some (participants_as (role_after type) jids)

abbrev pub jids_of : GroupInfoEvent → ParticipantType → Option (List Text)
jids_of event leave = event.leave
jids_of event join = event.join
jids_of event promote = event.promote
jids_of event demote = event.demote

-- The loop over the four lists.
unfoldable pub participants_events :
    (now : ℕ) → GroupInfoEvent → List ParticipantType → List GroupV2ParticipantsEvent
unfolding get_participants
participants_events now event [] = []
participants_events now event (t ∷ ts) =
    let rest = participants_events now event ts in
    elim (get_participants (jids_of event t) t) [
      | none ↦ rest
      | some ps ↦
          record { timestamp = now; group_id = event.jid; type = t; participants = ps } ∷ rest
    ]

abbrev pub types : List ParticipantType
types = leave ∷ join ∷ promote ∷ demote ∷ []

unfoldable pub to_group_v2_participants_events :
    (now : ℕ) → GroupInfoEvent → List GroupV2ParticipantsEvent
unfolding participants_events
to_group_v2_participants_events now event = participants_events now event types
