-- ===== src/Apps/Samples.antt =====
-- A table of apps as a list of rows with different ids, to run the services of apps on.
use aira_relay.Base.{
  Bool, true, false, not, if◌then◌else◌, Option, none, some, is_some, List, [], ◌∷◌, Text, text_eq,
  text_eq_iff, contains, map, filter, Distinct, ◌≡◌, inl, inr, refl, sym, ap, subst, arith,
  Bool-cases,
}
use aira_relay.Apps.{Row, AppsTable, find_id, number}

abbrev ids : List Row → List Text
ids = map (λ (r : Row). r.id)

abbrev pub RowList : Type 0
RowList = (d : List Row) × Distinct (ids d)

contains-find_id : (i : Text) (rs : List Row) → contains (ids rs) i ≡ is_some (find_id i rs)
unfolding contains
contains-find_id i [] = refl
contains-find_id i (x ∷ rs) = ground (arith, contains-find_id i rs)

module _ (p : Row → Bool) where
  contains-filter :
      (i : Text) (rs : List Row)
      → contains (ids rs) i ≡ false
      → contains (ids (filter p rs)) i ≡ false
  unfolding contains
  contains-filter i [] h = refl
  contains-filter i (x ∷ rs) h = ground (arith, contains-filter i rs)

  pub filter-Distinct : (rs : List Row) → Distinct (ids rs) → Distinct (ids (filter p rs))
  filter-Distinct [] h = tt
  filter-Distinct (x ∷ rs) (c, h) = elim (Bool-cases (p x)) [
    | inl e ↦ rw e (contains-filter x.id rs c, filter-Distinct rs h)
    | inr e ↦ rw e (filter-Distinct rs h)
  ]

  pub find_id-filter :
      (i : Text) (rs : List Row)
      → Distinct (ids rs)
      → find_id i (filter p rs)
        ≡ (elim (find_id i rs) [ none ↦ none | some r ↦ if p r then some r else none ])
  find_id-filter i [] h = refl
  find_id-filter i (x ∷ rs) (c, h) = ground (
    arith,
    find_id-filter i rs h,
    text_eq_iff x.id i,
    contains-find_id i rs,
    contains-filter i rs,
    contains-find_id i (filter p rs),
    ap (contains (ids rs)),
  )

pub find_id-id : (i : Text) (rs : List Row) (r : Row) → find_id i rs ≡ some r → r.id ≡ i
find_id-id i [] r h = ground arith
find_id-id i (x ∷ rs) r h = ground (arith, find_id-id i rs r, text_eq_iff x.id i)

abbrev insert_new :
    (d : RowList) (r : Row) (b : Bool) → contains (ids d.0) r.id ≡ b → Option RowList
insert_new d r true c = none
insert_new d r false c = some (r ∷ d.0, (c, d.1))

pub insert_free :
    (d : RowList) (r : Row) (b : Bool) (c : contains (ids d.0) r.id ≡ b)
    → find_id r.id d.0 ≡ none
    → is_some (insert_new d r b c) ≡ true
insert_free d r true c h = ground (arith, contains-find_id r.id d.0)
insert_free d r false c h = refl

pub first_insert :
    (d : RowList) (r : Row) (b : Bool) (c : contains (ids d.0) r.id ≡ b) (e : RowList) (i : Text)
    → insert_new d r b c ≡ some e
    → (find_id r.id d.0 ≡ none)
      × (find_id i e.0 ≡ (if text_eq r.id i then some r else find_id i d.0))
first_insert d r true c e i h = absurd (ground arith)
first_insert d r false c e i h =
    subst
      (λ (o : Option RowList). elim o [
        | none ↦ Unit
        | some e ↦
            (find_id r.id d.0 ≡ none)
            × (find_id i e.0 ≡ (if text_eq r.id i then some r else find_id i d.0))
      ])
      h (ground (arith, contains-find_id r.id d.0), refl)

-- An update keeps the id.
abbrev write : Text → (Row → Row) → List Row → List Row
write k f [] = []
write k f (x ∷ rs) = (if text_eq x.id k then record (f x) { id = x.id } else x) ∷ write k f rs

pub ids-write : (k : Text) (f : Row → Row) (rs : List Row) → ids (write k f rs) ≡ ids rs
ids-write k f [] = refl
ids-write k f (x ∷ rs) = ground (arith, ids-write k f rs)

pub find_id-write :
    (k : Text) (f : Row → Row) (i : Text) (rs : List Row)
    → ((r : Row) → (f r).id ≡ k)
    → find_id i (write k f rs) ≡ (
        if text_eq k i
        then (elim (find_id i rs) [ none ↦ none | some r ↦ some (f r) ])
        else find_id i rs)
find_id-write k f i [] h = ground arith
find_id-write k f i (x ∷ rs) h =
    ground (
      arith,
      find_id-write k f i rs h,
      h x,
      text_eq_iff x.id k,
      text_eq_iff x.id i,
      text_eq_iff k i,
    )

pub delete_law :
    (p : Row → Bool) (i : Text) (d : RowList)
    → find_id i (filter (λ r. not (p r)) d.0)
      ≡ (elim (find_id i d.0) [ none ↦ none | some r ↦ if p r then none else some r ])
delete_law p i d = ground (arith, find_id-filter (λ r. not (p r)) i d.0 d.1)

abbrev pub list_table : AppsTable
list_table = record {
  Rows = RowList;
  first = λ d i. find_id i d.0;
  select_where = λ d p. filter p d.0;
  insert = λ d r. insert_new d r (contains (ids d.0) r.id) refl;
  update_where_id = λ d k f. (write k f d.0, subst (λ l. Distinct l) (sym (ids-write k f d.0)) d.1);
  delete_where = λ d p. (filter (λ r. not (p r)) d.0, filter-Distinct (λ r. not (p r)) d.0 d.1);
  column = λ b. number (if b then 1 else 0);
  first-id = λ d i r h. find_id-id i d.0 r h;
  find_id-select_where = λ d p i. find_id-filter p i d.0 d.1;
  select_where-Distinct = λ d p. filter-Distinct p d.0 d.1;
  insert-free = λ d r h. insert_free d r (contains (ids d.0) r.id) refl h;
  first-insert = λ d r e i h. first_insert d r (contains (ids d.0) r.id) refl e i h;
  first-update_where_id = λ d k f i h. find_id-write k f i d.0 h;
  first-delete_where = λ d p i. delete_law p i d;
  column-true = inr refl;
  column-false = inr refl;
}
