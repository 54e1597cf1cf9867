-- ===== src/Labels.antt =====
-- Labels: waha-plus/src/structures/labels.dto.ts, the label methods of
-- core/engines/gows/session.gows.core.ts and `getLabel` of core/abc/session.abc.ts, over an interface of
-- the engine's label calls.
pub mod Controller
pub mod Updating
pub mod Chats
pub mod Tests
use aira_relay.Base.{
  ℕ, zero, suc, ◌+◌, ◌<◌, ◌≤◌, Bool, true, false, not, ◌&&◌, ◌||◌, ltb, if◌then◌else◌, Option, none,
  some, is_some, get_or, List, [], ◌∷◌, Text, codes, text_eq, contains, map, filter, length, ◌≡◌,
}
use aira_relay.Base.Results.{
  unprocessable, internal, Result, ok, err, M, ◌>>=◌, ◌>>◌, pure, throw, gets, require,
}
use aira_relay.Jids.{to_jid}
use aira_relay.Messages.{is_filled}

abbrev pub colors : List Text
colors =
    codes "#ff9485"
    ∷ codes "#64c4ff"
    ∷ codes "#ffd429"
    ∷ codes "#dfaef0"
    ∷ codes "#99b6c1"
    ∷ codes "#55ccb3"
    ∷ codes "#ff9dff"
    ∷ codes "#d3a91d"
    ∷ codes "#6d7cce"
    ∷ codes "#d7e752"
    ∷ codes "#00d0e2"
    ∷ codes "#ffc5c7"
    ∷ codes "#93ceac"
    ∷ codes "#f74848"
    ∷ codes "#00a0f2"
    ∷ codes "#83e422"
    ∷ codes "#ffaf04"
    ∷ codes "#b5ebff"
    ∷ codes "#9ba6ff"
    ∷ codes "#9368cf"
    ∷ []

-- `list[i]`, and `list.indexOf(t)` with `none` for -1.
unfoldable pub at : List Text → ℕ → Option Text
at [] i = none
at (c ∷ cs) zero = some c
at (c ∷ cs) (suc i) = at cs i

unfoldable pub index_of : Text → List Text → Option ℕ
index_of t [] = none
index_of t (c ∷ cs) =
    if text_eq c t then some 0 else elim (index_of t cs) [ none ↦ none | some i ↦ some (suc i) ]

-- `Label.toHex`; a color that is missing has no hex.
unfoldable pub to_hex : Option ℕ → Option Text
to_hex none = none
to_hex (some color) = if ltb color (length colors) then at colors color else some (codes "#000000")

-- A color number is a natural number.
pub record LabelBody : Type 0 where
  pub name : Text
  pub color_hex : Option Text
  pub color : Option ℕ

pub record LabelDto : Type 0 where
  pub name : Text
  pub color : Option ℕ

pub record Label : Type 0 where
  pub id : Text
  pub name : Text
  pub color : Option ℕ
  pub color_hex : Option Text

-- The color by its hex, if that is given and not empty.
abbrev pub color_of_hex : LabelBody → Result LabelDto
color_of_hex body =
    if is_filled body.color_hex
    then (elim (index_of (get_or body.color_hex []) colors) [
      | none ↦ err unprocessable
      | some color ↦ ok (record { name = body.name; color = some color })
    ])
    else ok (record { name = body.name; color = body.color })

-- `LabelBody.toDTO`.
unfoldable pub to_dto : LabelBody → Result LabelDto
to_dto body =
    if is_some body.color && is_some body.color_hex
    then err unprocessable
    else if not (is_some body.color) && not (is_some body.color_hex)
    then err unprocessable
    else color_of_hex body

-- A label as the engine keeps it.
pub record EngineLabel : Type 0 where
  pub id : Text
  pub name : Text
  pub color : Option ℕ

-- The engine's label calls over gRPC; one that fails is `none`. Nothing is assumed of what they do.
pub record LabelEngine : Type 1 where
  pub State : Type 0
  pub labels : State → List EngineLabel
  pub labels_by_jid : State → Text → List Text
  pub upsert_label : State → EngineLabel → Option State
  pub delete_label : State → Text → Option State
  pub add_chat_label : State → (label jid : Text) → Option State
  pub remove_chat_label : State → (label jid : Text) → Option State

-- `lodash.difference`.
unfoldable pub difference : List Text → List Text → List Text
difference [] without = []
difference (id ∷ ids) without =
    if contains without id then difference ids without else id ∷ difference ids without

abbrev pub to_label : EngineLabel → Label
to_label l = record { id = l.id; name = l.name; color = l.color; color_hex = to_hex l.color }

-- `lodash.find(labels, { name })`, and by id.
abbrev pub find_name : Text → List Label → Option Label
find_name name [] = none
find_name name (l ∷ ls) = if text_eq l.name name then some l else find_name name ls

abbrev pub find_id : Text → List Label → Option Label
find_id id [] = none
find_id id (l ∷ ls) = if text_eq l.id id then some l else find_id id ls

module _ (engine : LabelEngine) where
  abbrev pub call : (engine.State → Option engine.State) → M engine.State (Unit {0})
  call f d = elim (f d) [ none ↦ (d, err internal) | some e ↦ (e, ok tt) ]

  unfoldable pub get_labels : engine.State → List Label
  get_labels d = map to_label (engine.labels d)

  unfoldable pub get_label : Text → engine.State → Option Label
  get_label id d = find_id id (get_labels d)

  unfoldable pub update_label : Label → M engine.State Label
  update_label label =
      call (λ d.
        engine.upsert_label d (record { id = label.id; name = label.name; color = label.color }))
      >> pure label

  unfoldable pub delete_label : Label → M engine.State (Unit {0})
  delete_label label = call (λ d. engine.delete_label d label.id)

  -- `getChatLabels`, by their ids.
  unfoldable pub get_chat_labels : Text → engine.State → List Text
  get_chat_labels chat_id d = engine.labels_by_jid d (to_jid chat_id)

  -- The two loops of `putLabelsToChat`.
  unfoldable pub add_labels : (jid : Text) → List Text → M engine.State (Unit {0})
  add_labels jid [] = pure tt
  add_labels jid (id ∷ ids) = call (λ d. engine.add_chat_label d id jid) >> add_labels jid ids

  unfoldable pub remove_labels : (jid : Text) → List Text → M engine.State (Unit {0})
  remove_labels jid [] = pure tt
  remove_labels jid (id ∷ ids) =
      call (λ d. engine.remove_chat_label d id jid) >> remove_labels jid ids

  unfoldable pub put_labels_to_chat : Text → List Text → M engine.State (Unit {0})
  put_labels_to_chat chat_id labels =
      let jid = to_jid chat_id in
      do
        current ← gets (get_chat_labels jid)
        add_labels jid (difference labels current)
        remove_labels jid (difference current labels)
