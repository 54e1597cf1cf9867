-- ===== src/Base/Dict.antt =====
-- A `Record<string, V>` or `Map` as an association list in insertion order, one entry to a key, and
-- lists of keys.
use mathlib.Core.Path.{◌≡◌, refl, ap}
use mathlib.Core.Bool.{Bool, true, false, ◌||◌}
use mathlib.Core.Logic.{inl, inr}
use mathlib.Core.Option.{Option, none, some}
use mathlib.Core.List.{List, [], ◌∷◌, map}
use native.Mathlib.Omega.{arith}
use aira_relay.Base.Tests.{if◌then◌else◌, is_some, Bool-cases}
use aira_relay.Base.Strings.{Text, text_eq, text_eq_iff}

-- `list.includes(k)`.
unfoldable pub contains : List Text → Text → Bool
contains [] k = false
contains (j ∷ ks) k = text_eq j k || contains ks k

-- The keys are pairwise different.
abbrev pub Distinct : List Text → Type 0
Distinct [] = Unit
Distinct (k ∷ ks) = (contains ks k ≡ false) × Distinct ks

pub text_eq_trans : (i j k : Text) → text_eq i j ≡ true → text_eq i k ≡ text_eq j k
text_eq_trans i j k h = ap (λ t. text_eq t k) ((text_eq_iff i j).0 h)

module _ {ℓ} {V : Type ℓ} where
  unfoldable pub lookup : Text → List (Text × V) → Option V
  lookup k [] = none
  lookup k ((j, v) ∷ d) = if text_eq j k then some v else lookup k d

  -- `d[k] = v`: an old key keeps its place.
  unfoldable pub insert : Text → V → List (Text × V) → List (Text × V)
  insert k v [] = (k, v) ∷ []
  insert k v ((j, w) ∷ d) = if text_eq j k then (k, v) ∷ d else (j, w) ∷ insert k v d

  -- `delete d[k]`.
  unfoldable pub remove : Text → List (Text × V) → List (Text × V)
  remove k [] = []
  remove k ((j, w) ∷ d) = if text_eq j k then remove k d else (j, w) ∷ remove k d

  abbrev pub keys : List (Text × V) → List Text
  keys = map (λ e. e.0)

  pub lookup-insert :
      (k j : Text) (v : V) (d : List (Text × V))
      → lookup j (insert k v d) ≡ (if text_eq k j then some v else lookup j d)
  unfolding lookup insert
  lookup-insert k j v [] = refl
  lookup-insert k j v ((i, w) ∷ d) =
      ground (arith, lookup-insert k j v d, text_eq_iff i k, text_eq_iff k j, text_eq_iff i j)

  pub lookup-remove :
      (k j : Text) (d : List (Text × V))
      → lookup j (remove k d) ≡ (if text_eq k j then none else lookup j d)
  unfolding lookup remove
  lookup-remove k j [] = ground arith
  lookup-remove k j ((i, w) ∷ d) =
      ground (arith, lookup-remove k j d, text_eq_iff i k, text_eq_iff k j, text_eq_iff i j)

  pub contains-keys : (k : Text) (d : List (Text × V)) → contains (keys d) k ≡ is_some (lookup k d)
  unfolding contains lookup
  contains-keys k [] = refl
  contains-keys k ((j, v) ∷ d) = ground (arith, contains-keys k d)

  contains-insert :
      (k j : Text) (v : V) (d : List (Text × V))
      → contains (keys (insert k v d)) j ≡ (text_eq k j || contains (keys d) j)
  contains-insert k j v d =
      ground (arith, contains-keys j (insert k v d), contains-keys j d, lookup-insert k j v d)

  contains-remove :
      (k j : Text) (d : List (Text × V))
      → contains (keys d) j ≡ false
      → contains (keys (remove k d)) j ≡ false
  contains-remove k j d h =
      ground (arith, contains-keys j (remove k d), contains-keys j d, lookup-remove k j d)

  pub insert-Distinct :
      (k : Text) (v : V) (d : List (Text × V)) → Distinct (keys d) → Distinct (keys (insert k v d))
  unfolding insert contains
  insert-Distinct k v [] h = (refl, tt)
  insert-Distinct k v ((j, w) ∷ d) h = elim (Bool-cases (text_eq j k)) [
    | inl e ↦ rw e (rw (← (text_eq_iff j k).0 e) h)
    | inr e ↦ rw e (
      ground (arith, contains-insert k j v d, text_eq_iff k j, text_eq_iff j k),
      insert-Distinct k v d h.1,
    )
  ]

  pub remove-Distinct :
      (k : Text) (d : List (Text × V)) → Distinct (keys d) → Distinct (keys (remove k d))
  unfolding remove
  remove-Distinct k [] h = tt
  remove-Distinct k ((j, w) ∷ d) h = elim (Bool-cases (text_eq j k)) [
    | inl e ↦ rw e (remove-Distinct k d h.1)
    | inr e ↦ rw e (contains-remove k j d h.0, remove-Distinct k d h.1)
  ]
