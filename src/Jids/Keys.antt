-- ===== src/Jids/Keys.antt =====
-- What `jidsFromKey` finds in a message key.
use aira_relay.Base.{
  ◌≡◌, refl, Bool, true, false, Text, arith, Option, none, some, ◌⊎◌, inl, inr, ◌≢◌, Bool-cases,
}
use aira_relay.Jids.{on, is_lid_user, is_pn_user, WaMessageKey, Jids, jids_from_key}

-- A field that is missing or of the class.
abbrev pub Of : (Text → Bool) → Option Text → Type 0
Of p none = Unit
Of p (some jid) = p jid ≡ true

Of-on : (p : Text → Bool) (o : Option Text) → on p o ≡ true → Of p o
Of-on p none h = cc
Of-on p (some jid) h = h

-- In a direct chat the two ids of the chat come out, each in its own field, when the alternative id
-- that the engine gives is of the other kind.
pub jids_from_key_direct :
    (key : WaMessageKey)
    → (on is_lid_user key.remote_jid ≡ true) ⊎ (on is_pn_user key.remote_jid ≡ true)
    → (on is_lid_user key.remote_jid ≡ true → Of is_pn_user key.remote_jid_alt)
    → (on is_pn_user key.remote_jid ≡ true → Of is_lid_user key.remote_jid_alt)
    → (jids : Jids) × (jids_from_key key ≡ some jids)
      × Of is_lid_user jids.lid
      × Of is_pn_user jids.pn
unfolding jids_from_key
jids_from_key_direct key d a b = elim (Bool-cases (on is_lid_user key.remote_jid)) [
  | inl l ↦ (
    record { lid = key.remote_jid; pn = key.remote_jid_alt },
    ground arith,
    Of-on is_lid_user key.remote_jid l,
    a l,
  )
  | inr l ↦
      let n : on is_pn_user key.remote_jid ≡ true = ground arith in
      (
        record { lid = key.remote_jid_alt; pn = key.remote_jid },
        ground arith,
        b n,
        Of-on is_pn_user key.remote_jid n,
      )
]

-- In a group, a sender known by phone number loses it: the `lid` that comes out is the group's id,
-- and the `pn` is the alternative id instead of the sender's.
pub jids_from_key_group_number :
    (key : WaMessageKey) (group sender : Text)
    → key.remote_jid ≡ some group
    → key.participant ≡ some sender
    → is_lid_user group ≡ false
    → is_pn_user group ≡ false
    → is_lid_user sender ≡ false
    → is_pn_user sender ≡ true
    → (key.participant_alt ≢ some sender)
    → (jids : Jids) × (jids_from_key key ≡ some jids)
      × (jids.lid ≡ some group)
      × ¬ Of is_lid_user jids.lid
      × (jids.pn ≢ some sender)
unfolding jids_from_key
jids_from_key_group_number key group sender r p a b c d n =
    (record { lid = some group; pn = key.participant_alt }, ground arith, refl, λ q. cc, n)
