-- ===== src/Gows/Blanks.antt =====
-- `trim` of a message that is sent for a call.
use aira_relay.Base.{
  ℕ, Bool, false, not, ◌||◌, some, [], ◌∷◌, Text, if◌then◌else◌, ◌++◌, ap, sym, ◌≡◌, refl, ◌∙◌,
  arith, Bool-cases,
}
use aira_relay.Messages.{is_filled}
use aira_relay.Gows.Calls.{is_space, trim_start, trim_end, cons_kept, trim}

-- The text is more than blanks.
unfoldable pub has_words : Text → Bool
has_words [] = false
has_words (c ∷ s) = not (is_space c) || has_words s

cons_kept_filled :
    (c : ℕ) (s : Text) → is_filled (some (cons_kept c s)) ≡ (not (is_space c) || is_filled (some s))
cons_kept_filled c [] = ground (arith, Bool-cases (is_space c))
cons_kept_filled c (d ∷ s) = ground (arith, Bool-cases (is_space c))

trim_end_filled : (s : Text) → is_filled (some (trim_end s)) ≡ has_words s
unfolding trim_end has_words
trim_end_filled [] = refl
trim_end_filled (c ∷ s) = rw (cons_kept_filled c (trim_end s), trim_end_filled s) refl

has_words-trim_start : (s : Text) → has_words (trim_start s) ≡ has_words s
unfolding trim_start has_words
has_words-trim_start [] = refl
has_words-trim_start (c ∷ s) = ground (arith, has_words-trim_start s, Bool-cases (is_space c))

pub trim_filled : (s : Text) → is_filled (some (trim s)) ≡ has_words s
unfolding trim
trim_filled s = trim_end_filled (trim_start s) ∙ has_words-trim_start s

-- The text from its first character that is no blank on, and the text backwards.
abbrev pub from_words : Text → Text
from_words [] = []
from_words (c ∷ s) = if is_space c then from_words s else c ∷ s

abbrev pub backwards : Text → Text
backwards [] = []
backwards (c ∷ s) = backwards s ++ (c ∷ [])

-- The text without its outer blanks.
abbrev pub inner : Text → Text
inner s = backwards (from_words (backwards (from_words s)))

trim_start_lem : (s : Text) → trim_start s ≡ from_words s
unfolding trim_start
trim_start_lem [] = refl
trim_start_lem (c ∷ s) = ground (arith, trim_start_lem s, Bool-cases (is_space c))

backwards-snoc : (s : Text) (c : ℕ) → backwards (s ++ (c ∷ [])) ≡ c ∷ backwards s
backwards-snoc [] c = refl
backwards-snoc (d ∷ s) c = ap (λ t. t ++ (d ∷ [])) (backwards-snoc s c)

cons_kept-snoc : (c : ℕ) (s : Text) (d : ℕ) → cons_kept c (s ++ (d ∷ [])) ≡ c ∷ (s ++ (d ∷ []))
cons_kept-snoc c [] d = refl
cons_kept-snoc c (e ∷ s) d = refl

-- A character put after a text.
after_words : ℕ → Text → Text
after_words c [] = if is_space c then [] else c ∷ []
after_words c (d ∷ s) = d ∷ (s ++ (c ∷ []))

from_words-snoc : (s : Text) (c : ℕ) → from_words (s ++ (c ∷ [])) ≡ after_words c (from_words s)
unfolding after_words
from_words-snoc [] c = refl
from_words-snoc (d ∷ s) c = ground (arith, from_words-snoc s c, Bool-cases (is_space d))

kept_lem : (c : ℕ) (s : Text) → cons_kept c (backwards s) ≡ backwards (after_words c s)
unfolding after_words
kept_lem c [] = ground (arith, Bool-cases (is_space c))
kept_lem c (d ∷ s) = cons_kept-snoc c (backwards s) d ∙ sym (backwards-snoc (d ∷ s) c)

trim_end_lem : (s : Text) → trim_end s ≡ backwards (from_words (backwards s))
unfolding trim_end
trim_end_lem [] = refl
trim_end_lem (c ∷ s) =
    ap (cons_kept c) (trim_end_lem s)
    ∙ (kept_lem c (from_words (backwards s)) ∙ sym (ap backwards (from_words-snoc (backwards s) c)))

pub trim_lem : (s : Text) → trim s ≡ inner s
unfolding trim
trim_lem s =
    trim_end_lem (trim_start s) ∙ ap (λ t. backwards (from_words (backwards t))) (trim_start_lem s)
