-- ===== src/Jids/Filtering.antt =====
-- What `JidFilter.include` lets through.
use aira_relay.Base.{
  ◌≡◌, Bool, true, false, not, ◌++◌, Text, codes, arith, Option, some, ◌∙◌, ◌&&◌, ◌||◌,
}
use aira_relay.Jids.{is_jid_status_broadcast, is_null_jid, IgnoreJidConfig, include}
use aira_relay.Jids.Suffixes.{
  Classes, group-Classes, newsletter-Classes, lid-Classes, broadcast-Classes, whatsapp-Classes,
  cus-Classes, status_broadcast-Classes,
}

-- The decision from the answers of the predicates, with no order among them.
abbrev decide : IgnoreJidConfig → (status broadcast group newsletter lid pn : Bool) → Bool
decide g st br gr nl lid pn =
    not (g.status && st)
    && (not (g.broadcast && (not st && br))
        && (not (g.groups && gr) && (not (g.channels && nl) && not (g.dm && (lid || pn)))))

include-decide :
    (g : IgnoreJidConfig) (jid : Text) {st br gr nl lid pn : Bool}
    → Classes jid st br gr nl lid pn
    → include g (some jid) ≡ decide g st br gr nl lid pn
unfolding include
include-decide g jid c = ground arith

-- Each class of ids is governed by its own flag and by no other: statuses, broadcasts other than the status,
-- groups, channels, and for direct chats the LIDs and the phone numbers in the engine's and in the API's
-- form, other than the null ids.
pub include-class :
    (g : IgnoreJidConfig) (p : Text)
    → is_jid_status_broadcast (p ++ codes "@broadcast") ≡ false
    → is_null_jid (p ++ codes "@s.whatsapp.net") ≡ false
    → is_null_jid (p ++ codes "@c.us") ≡ false
    → (include g (some (codes "status@broadcast")) ≡ not g.status)
      × (include g (some (p ++ codes "@broadcast")) ≡ not g.broadcast)
      × (include g (some (p ++ codes "@g.us")) ≡ not g.groups)
      × (include g (some (p ++ codes "@newsletter")) ≡ not g.channels)
      × (include g (some (p ++ codes "@lid")) ≡ not g.dm)
      × (include g (some (p ++ codes "@s.whatsapp.net")) ≡ not g.dm)
      × (include g (some (p ++ codes "@c.us")) ≡ not g.dm)
include-class g p h k l = (
  include-decide g (codes "status@broadcast") status_broadcast-Classes ∙ ground arith,
  include-decide g (p ++ codes "@broadcast") (broadcast-Classes p h) ∙ ground arith,
  include-decide g (p ++ codes "@g.us") (group-Classes p) ∙ ground arith,
  include-decide g (p ++ codes "@newsletter") (newsletter-Classes p) ∙ ground arith,
  include-decide g (p ++ codes "@lid") (lid-Classes p) ∙ ground arith,
  include-decide g (p ++ codes "@s.whatsapp.net") (whatsapp-Classes p k) ∙ ground arith,
  include-decide g (p ++ codes "@c.us") (cus-Classes p l) ∙ ground arith,
)

-- The flags of one configuration that another sets too.
abbrev pub Ignores : IgnoreJidConfig → IgnoreJidConfig → Type 0
Ignores g h =
    ((g.dm && h.dm) ≡ g.dm)
    × ((g.status && h.status) ≡ g.status)
    × ((g.groups && h.groups) ≡ g.groups)
    × ((g.channels && h.channels) ≡ g.channels)
    × ((g.broadcast && h.broadcast) ≡ g.broadcast)

-- A configuration that ignores more lets through no id that the other drops.
pub include_mono :
    (g h : IgnoreJidConfig) (jid : Option Text)
    → Ignores g h
    → include h jid ≡ true
    → include g jid ≡ true
unfolding include
include_mono g h jid sub e = ground arith
