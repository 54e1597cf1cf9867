-- ===== src/Labels/Tests.antt =====
-- Runs on two engines, and instances of the theorems on labels.
use aira_relay.Base.{
  not, none, some, List, [], ◌∷◌, ◌++◌, Text, codes, text_eq, map, filter, contains, ◌≡◌, refl,
}
use aira_relay.Base.Results.{unprocessable, Result, ok, err}
use aira_relay.Jids.{to_jid}
use aira_relay.Labels.{
  at, index_of, to_hex, LabelBody, Label, EngineLabel, to_dto, LabelEngine, get_labels, get_label,
  put_labels_to_chat,
}
use aira_relay.Labels.Controller.{update_label_route}
use aira_relay.Labels.Updating.{to_hex-to_dto, update-same_name}
use aira_relay.Labels.Chats.{added, removed, recorder, put_labels_lem}

abbrev lead : EngineLabel
lead = record { id = codes "7"; name = codes "Lead"; color = some 0 }

-- An engine with one label, of which an upsert makes another.
abbrev list_engine : LabelEngine
list_engine = record {
  State = List EngineLabel;
  labels = λ d. d;
  labels_by_jid = λ d jid. [];
  upsert_label = λ d l. some (l ∷ []);
  delete_label = λ d k. some [];
  add_chat_label = λ d label jid. none;
  remove_chat_label = λ d label jid. none;
}

abbrev world : List EngineLabel
world = lead ∷ []

abbrev new_body : LabelBody
new_body = record { name = codes "New"; color_hex = some (codes "#64c4ff"); color = none }

to_hex-to_dto_example : to_hex (some 1) ≡ some (codes "#64c4ff")
unfolding to_dto index_of text_eq
to_hex-to_dto_example =
    to_hex-to_dto new_body (codes "#64c4ff") (record { name = codes "New"; color = some 1 }) refl
      (λ e. cc) refl

abbrev same_body : LabelBody
same_body = record { name = codes "Lead"; color_hex = none; color = some 3 }

update-same_name_example :
    ◌≡◌ {A = List EngineLabel × Result Label}
      (update_label_route list_engine (codes "7") same_body world)
      (world, err unprocessable)
unfolding get_label get_labels to_dto to_hex text_eq at
update-same_name_example =
    update-same_name list_engine (codes "7") same_body
      (record { name = codes "Lead"; color = some 3 })
      (record {
        id = codes "7";
        name = codes "Lead";
        color = some 0;
        color_hex = some (codes "#ff9485");
      })
      world refl refl refl

-- A chat with the labels 7 and 2 is given 1 and 2.
abbrev labels_of : Text → List Text
labels_of jid = codes "7" ∷ codes "2" ∷ []

abbrev given : List Text
given = codes "1" ∷ codes "2" ∷ []

put_labels_lem_example : put_labels_to_chat (recorder labels_of) (codes "49@c.us") given [] ≡ (
  []
      ++ (map
            (λ i. added i (to_jid (codes "49@c.us")))
            (filter (λ i. not (contains (labels_of []) i)) given)
          ++ map
              (λ i. removed i (to_jid (codes "49@c.us")))
              (filter (λ i. not (contains given i)) (labels_of []))),
  ok tt,
)
put_labels_lem_example = put_labels_lem labels_of (codes "49@c.us") given []
