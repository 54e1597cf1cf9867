-- ===== src/Labels/Chats.antt =====
-- What `putLabelsToChat` of waha-plus/src/core/engines/gows/session.gows.core.ts asks of the engine.
use aira_relay.Base.{
  not, some, List, [], ◌∷◌, ◌++◌, map, filter, append_assoc, append-nil, Text, contains, ◌≡◌, refl,
  ◌∙◌, arith, Bool-cases,
}
use aira_relay.Base.Results.{ok}
use aira_relay.Jids.{to_jid}
use aira_relay.Manager.Lifecycle.{bind_ok}
use aira_relay.Labels.{
  LabelEngine, difference, get_chat_labels, add_labels, remove_labels, put_labels_to_chat,
}

-- A call that changes the labels of a chat.
pub data ChatCall : Type 0 where
  added removed : (label jid : Text) → ChatCall

-- An engine that answers every call, says which labels a chat has, and keeps the calls that it got.
module _ (labels_of : Text → List Text) where
  abbrev pub recorder : LabelEngine
  recorder = record {
    State = List ChatCall;
    labels = λ d. [];
    labels_by_jid = λ d jid. labels_of jid;
    upsert_label = λ d l. some d;
    delete_label = λ d i. some d;
    add_chat_label = λ d label jid. some (d ++ (added label jid ∷ []));
    remove_chat_label = λ d label jid. some (d ++ (removed label jid ∷ []));
  }

  added_lem :
      (jid : Text) (ids : List Text) (d : List ChatCall)
      → add_labels recorder jid ids d ≡ (d ++ map (λ i. added i jid) ids, ok tt)
  unfolding add_labels
  added_lem jid [] d = rw (append-nil d) refl
  added_lem jid (i ∷ ids) d =
      added_lem jid ids (d ++ (added i jid ∷ [])) ∙ rw (append_assoc d (added i jid ∷ [])) refl

  removed_lem :
      (jid : Text) (ids : List Text) (d : List ChatCall)
      → remove_labels recorder jid ids d ≡ (d ++ map (λ i. removed i jid) ids, ok tt)
  unfolding remove_labels
  removed_lem jid [] d = rw (append-nil d) refl
  removed_lem jid (i ∷ ids) d =
      removed_lem jid ids (d ++ (removed i jid ∷ []))
      ∙ rw (append_assoc d (removed i jid ∷ [])) refl

  difference_lem :
      (ids without : List Text)
      → difference ids without ≡ filter (λ i. not (contains without i)) ids
  unfolding difference
  difference_lem [] without = refl
  difference_lem (i ∷ ids) without =
      ground (arith, difference_lem ids without, Bool-cases (contains without i))

  -- Giving a chat its labels asks the engine to add each given label that the chat does not have, and then
  -- to take off each that it has and that is not given, and asks for nothing else, when the engine answers
  -- every call.
  pub put_labels_lem :
      (chat_id : Text) (given : List Text) (d : List ChatCall)
      → let jid = to_jid chat_id in
        let current = labels_of (to_jid jid) in
        put_labels_to_chat recorder chat_id given d ≡ (
          d
              ++ (map (λ i. added i jid) (filter (λ i. not (contains current i)) given)
                  ++ map (λ i. removed i jid) (filter (λ i. not (contains given i)) current)),
          ok tt,
        )
  unfolding put_labels_to_chat get_chat_labels
  put_labels_lem chat_id given d =
      let jid = to_jid chat_id in
      let current = labels_of (to_jid jid) in
      let new = difference given current in
      let old = difference current given in
      bind_ok (add_labels recorder jid new) (λ _. remove_labels recorder jid old)
        (added_lem jid new d)
      ∙ (removed_lem jid old (d ++ map (λ i. added i jid) new)
          ∙ rw
              (
                difference_lem given current,
                difference_lem current given,
                append_assoc d
                    (map (λ i. added i jid) (filter (λ i. not (contains current i)) given)),
              )
              refl)
