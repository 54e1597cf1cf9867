-- ===== src/Jids.antt =====
-- waha-plus/src/core/utils/jids.ts: the kinds of WhatsApp ids (JIDs), their conversions, the filter
-- of ignored chats and the ids of a message key. `ensureSuffix` is in core/abc/session.abc.ts.
pub mod Suffixes
pub mod Conversion
pub mod Filtering
pub mod Keys
pub mod Tests
use aira_relay.Base.{
  ℕ, Bool, true, false, not, ◌&&◌, ◌||◌, if◌then◌else◌, ◌==◌, leb, Option, none, some, List, [],
  ◌∷◌, ◌++◌, Text, codes, text_eq, ends_with, has, first_part,
}

-- A predicate on a value that may be missing; the source's predicates are all falsy there.
abbrev pub on : (Text → Bool) → Option Text → Bool
on p none = false
on p (some jid) = p jid

unfoldable pub is_jid_newsletter : Text → Bool
is_jid_newsletter jid = ends_with jid (codes "@newsletter")

unfoldable pub is_jid_cus : Text → Bool
is_jid_cus jid = ends_with jid (codes "@c.us")

unfoldable pub is_jid_group : Text → Bool
is_jid_group jid = ends_with jid (codes "@g.us")

unfoldable pub is_jid_status_broadcast : Text → Bool
is_jid_status_broadcast jid = text_eq jid (codes "status@broadcast")

unfoldable pub is_jid_broadcast : Text → Bool
is_jid_broadcast jid = ends_with jid (codes "@broadcast")

unfoldable pub is_jid_meta_ai : Text → Bool
is_jid_meta_ai jid = ends_with jid (codes "@meta.ai")

unfoldable pub is_lid_user : Text → Bool
is_lid_user jid = ends_with jid (codes "@lid")

unfoldable pub is_null_jid : Text → Bool
is_null_jid jid = text_eq jid (codes "0@c.us") || text_eq jid (codes "0@s.whatsapp.net")

unfoldable pub is_pn_user : Text → Bool
is_pn_user jid =
    if not (ends_with jid (codes "@s.whatsapp.net")) && not (ends_with jid (codes "@c.us"))
    then false
    else if is_null_jid jid
    then false
    else true

abbrev pub is_digit : ℕ → Bool
is_digit c = leb b'0' c && leb c b'9'

abbrev pub at_sign_first : Text → Bool
at_sign_first [] = false
at_sign_first (d ∷ _) = d == b'@'

-- The text matches /^\d+@/.
unfoldable pub device_follows : Text → Bool
device_follows [] = false
device_follows (c ∷ s) = is_digit c && (at_sign_first s || device_follows s)

unfoldable pub skip_digits : Text → Text
skip_digits [] = []
skip_digits (c ∷ s) = if is_digit c then skip_digits s else c ∷ s

-- jid.replace(/:\d+(?=@)/, ''): the first device part goes.
unfoldable pub normalize_jid : Text → Text
normalize_jid [] = []
normalize_jid (c ∷ s) = if c == b':' && device_follows s then skip_digits s else c ∷ normalize_jid s

unfoldable pub to_jid : Text → Text
to_jid chat_id =
    if is_jid_group chat_id
    then chat_id
    else if is_jid_broadcast chat_id
    then chat_id
    else if is_jid_newsletter chat_id
    then chat_id
    else if is_lid_user chat_id
    then chat_id
    else if is_jid_meta_ai chat_id
    then chat_id
    else first_part b'@' chat_id ++ codes "@s.whatsapp.net"

-- session.abc.ts, `ensureSuffix`.
unfoldable pub ensure_suffix : Text → Text
ensure_suffix phone = if has b'@' phone then phone else phone ++ codes "@c.us"

unfoldable pub to_cus_format : Text → Text
to_cus_format [] = []
to_cus_format (c ∷ s) =
    let jid = c ∷ s in
    if is_jid_group jid
    then jid
    else if is_jid_broadcast jid
    then jid
    else if is_lid_user jid
    then normalize_jid jid
    else if is_jid_newsletter jid
    then jid
    else if text_eq jid (codes "me")
    then jid
    else ensure_suffix (first_part b':' (first_part b'@' jid))

pub record IgnoreJidConfig : Type 0 where
  pub dm : Bool
  pub status : Bool
  pub groups : Bool
  pub channels : Bool
  pub broadcast : Bool

-- `JidFilter.include`.
unfoldable pub include : IgnoreJidConfig → Option Text → Bool
include ignore jid =
    if ignore.status && on is_jid_status_broadcast jid
    then false
    else if ignore.broadcast && not (on is_jid_status_broadcast jid) && on is_jid_broadcast jid
    then false
    else if ignore.groups && on is_jid_group jid
    then false
    else if ignore.channels && on is_jid_newsletter jid
    then false
    else if ignore.dm && on is_lid_user jid
    then false
    else if ignore.dm && on is_pn_user jid
    then false
    else true

-- The fields of a message key that the source reads. An engine leaves some of them out.
pub record WaMessageKey : Type 0 where
  pub id : Text
  pub from_me : Option Bool
  pub remote_jid : Option Text
  pub remote_jid_alt : Option Text
  pub participant : Option Text
  pub participant_alt : Option Text

pub record Jids : Type 0 where
  pub lid : Option Text
  pub pn : Option Text

unfoldable pub jids_from_key : WaMessageKey → Option Jids
jids_from_key key =
    if on is_lid_user key.remote_jid
    then some (record { lid = key.remote_jid; pn = key.remote_jid_alt })
    else if on is_pn_user key.remote_jid
    then some (record { lid = key.remote_jid_alt; pn = key.remote_jid })
    else if on is_lid_user key.participant
    then some (record { lid = key.participant; pn = key.participant_alt })
    else if on is_pn_user key.participant
    then some (record { lid = key.remote_jid; pn = key.participant_alt })
    else none
