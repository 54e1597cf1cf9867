-- ===== src/Jids/Tests.antt =====
-- Instances of the theorems on ids.
use aira_relay.Base.{true, false, none, some, ◌++◌, Text, codes, ◌≡◌, refl, has, ends_with, text_eq}
use aira_relay.Jids.{
  is_jid_status_broadcast, is_null_jid, is_lid_user, is_pn_user, IgnoreJidConfig, include,
  WaMessageKey,
}
use aira_relay.Jids.Filtering.{include-class}

predicates : Unit {0}
unfolding has ends_with text_eq is_jid_status_broadcast is_null_jid is_lid_user is_pn_user
predicates = tt

abbrev number : Text
number = codes "4917"

abbrev group : Text
group = codes "55@g.us"

abbrev sender : Text
sender = codes "4917@s.whatsapp.net"

abbrev lid : Text
lid = codes "77@lid"

abbrev no_groups : IgnoreJidConfig
no_groups = record { dm = false; status = true; groups = true; channels = false; broadcast = false }

abbrev no_status : IgnoreJidConfig
no_status = record {
  dm = false;
  status = true;
  groups = false;
  channels = false;
  broadcast = false;
}

include-class_example :
    (include no_groups (some (codes "status@broadcast")) ≡ false)
    × (include no_groups (some (number ++ codes "@broadcast")) ≡ true)
    × (include no_groups (some (number ++ codes "@g.us")) ≡ false)
    × (include no_groups (some (number ++ codes "@newsletter")) ≡ true)
    × (include no_groups (some (number ++ codes "@lid")) ≡ true)
    × (include no_groups (some (number ++ codes "@s.whatsapp.net")) ≡ true)
    × (include no_groups (some (number ++ codes "@c.us")) ≡ true)
unfolding predicates
include-class_example = include-class no_groups number refl refl refl

abbrev direct_key : WaMessageKey
direct_key = record {
  id = codes "A";
  from_me = some false;
  remote_jid = some lid;
  remote_jid_alt = some sender;
  participant = none;
  participant_alt = none;
}

abbrev group_key : WaMessageKey
group_key = record {
  id = codes "A";
  from_me = some false;
  remote_jid = some group;
  remote_jid_alt = none;
  participant = some sender;
  participant_alt = some lid;
}
