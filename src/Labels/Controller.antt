-- ===== src/Labels/Controller.antt =====
-- The handlers of waha-plus/src/api/labels.controller.ts that change or delete a label.
use aira_relay.Base.{not, Option, none, some, is_some, Text}
use aira_relay.Base.Results.{
  not_found, unprocessable, Result, M, ◌>>=◌, ◌>>◌, pure, throw, gets, require,
}
use aira_relay.Labels.{
  LabelBody, LabelDto, Label, to_hex, to_dto, find_name, LabelEngine, get_labels, get_label,
  update_label, delete_label,
}

abbrev pub from_result : {S A : Type 0} → Result A → M S A
from_result r s = (s, r)

-- What `update` makes of the label that it found.
abbrev pub relabelled : Label → LabelDto → Label
relabelled label dto = record label {
  name = dto.name;
  color = dto.color;
  color_hex = to_hex dto.color;
}

module _ (engine : LabelEngine) where
  abbrev pub name_free : LabelDto → M engine.State (Unit {0})
  name_free dto = do
    labels ← gets (get_labels engine)
    require (not (is_some (find_name dto.name labels))) unprocessable

  unfoldable pub change_found : LabelBody → Option Label → M engine.State Label
  change_found body none = throw not_found
  change_found body (some label) = do
    dto ← from_result (to_dto body)
    name_free dto
    update_label engine (relabelled label dto)
    pure (relabelled label dto)

  unfoldable pub update_label_route : Text → LabelBody → M engine.State Label
  update_label_route id body = do label ← gets (get_label engine id); change_found body label

  abbrev pub delete_found : Option Label → M engine.State (Unit {0})
  delete_found none = throw not_found
  delete_found (some label) = delete_label engine label

  unfoldable pub delete_label_route : Text → M engine.State (Unit {0})
  delete_label_route id = do label ← gets (get_label engine id); delete_found label
