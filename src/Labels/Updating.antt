-- ===== src/Labels/Updating.antt =====
-- What the change of a label, `update` of waha-plus/src/api/labels.controller.ts, makes of its body.
use aira_relay.Base.{
  ℕ, zero, suc, ◌<◌, Bool, true, false, not, some, is_some, List, [], ◌∷◌, Text, text_eq_iff,
  length, ◌≡◌, ◌≢◌, refl, ap, ◌∙◌, arith, inl, inr, Option-cases,
}
use aira_relay.Base.Results.{unprocessable, Result, ok, err, M, ◌>>◌, pure, require}
use aira_relay.Manager.Lifecycle.{bind_ok}
use aira_relay.Labels.{
  colors, at, index_of, to_hex, LabelBody, LabelDto, Label, to_dto, find_name, find_id, LabelEngine,
  get_labels, get_label, update_label,
}
use aira_relay.Labels.Controller.{
  from_result, relabelled, name_free, change_found, update_label_route,
}

index_of-at :
    (t : Text) (cs : List Text) (i : ℕ)
    → index_of t cs ≡ some i
    → (at cs i ≡ some t) × (i < length cs)
unfolding index_of at
index_of-at t [] i h = absurd (ground arith)
index_of-at t (c ∷ cs) zero h = ground (arith, text_eq_iff c t)
index_of-at t (c ∷ cs) (suc i) h = ground (arith, index_of-at t cs i)

-- A label that is asked for by the hex of a color is given that color: the hex comes back as it was.
pub to_hex-to_dto :
    (body : LabelBody) (hex : Text) (dto : LabelDto)
    → body.color_hex ≡ some hex
    → hex ≢ []
    → to_dto body ≡ ok dto
    → to_hex dto.color ≡ some hex
unfolding to_hex to_dto
to_hex-to_dto body [] dto c n h = absurd (n refl)
to_hex-to_dto body (x ∷ hex) dto c n h = elim (Option-cases (index_of (x ∷ hex) colors)) [
  | inl e ↦ absurd (ground arith)
  | inr (i, e) ↦
      let (found, below) = index_of-at (x ∷ hex) colors i e in
      let picked : dto.color ≡ some i = ground arith in
      rw (picked, to_hex) (ground (arith, found, below))
]

to_dto-name : (body : LabelBody) (dto : LabelDto) → to_dto body ≡ ok dto → dto.name ≡ body.name
unfolding to_dto
to_dto-name body dto h = ground arith

find_name-find_id :
    (id : Text) (l : Label) (ls : List Label)
    → find_id id ls ≡ some l
    → is_some (find_name l.name ls) ≡ true
find_name-find_id id l [] f = ground arith
find_name-find_id id l (x ∷ ls) f =
    ground (arith, find_name-find_id id l ls, text_eq_iff x.name l.name)

module _ (engine : LabelEngine) where
  unmet :
      {A : Type 0} (b : Bool) (m : M engine.State A) (d : engine.State)
      → b ≡ false
      → ◌≡◌ {A = engine.State × Result A} ((require b unprocessable >> m) d) (d, err unprocessable)
  unmet b m d h = rw h refl

  -- A label cannot keep its name: a change of the color alone, which gives the name that the label has,
  -- is refused, whatever the color, and changes nothing.
  pub update-same_name :
      (id : Text) (body : LabelBody) (dto : LabelDto) (label : Label) (d : engine.State)
      → get_label engine id d ≡ some label
      → to_dto body ≡ ok dto
      → body.name ≡ label.name
      → ◌≡◌ {A = engine.State × Result Label}
          (update_label_route engine id body d)
          (d, err unprocessable)
  unfolding update_label_route change_found get_label to_dto
  update-same_name id body dto label d f b n =
      let rest = λ (dto : LabelDto).
        name_free engine dto
        >> (update_label engine (relabelled label dto) >> pure (relabelled label dto)) in
      let change = update_label engine (relabelled label dto) >> pure (relabelled label dto) in
      let taken = find_name-find_id id label (get_labels engine d) f in
      let same = to_dto-name body dto b ∙ n in
      rw f (
        bind_ok (from_result (to_dto body)) rest (ap (λ (r : Result LabelDto). (d, r)) b)
        ∙ unmet (not (is_some (find_name dto.name (get_labels engine d)))) change d
            (ground (arith, taken, same, ap (λ k. find_name k (get_labels engine d)) same)))
