-- ===== src/Base/Strings.antt =====
-- JavaScript strings as lists of UTF-16 code units, with the string methods that the program uses.
use Prim.Native.Nat.{ℕ, ◌≤◌}
use Prim.Native.Char.{code}
use Prim.Native.String.{String}
use mathlib.Core.Path.{◌≡◌, refl, ap, ◌∙◌}
use mathlib.Core.Logic.{◌↔◌, inl, inr}
use mathlib.Core.Bool.{Bool, true, false, ◌&&◌, ◌||◌}
use mathlib.Core.List.{List, [], ◌∷◌, ◌++◌}
use native.Mathlib.Omega.{arith}
use native.Mathlib.Decide.{dec_le}
use aira_relay.Base.Tests.{◌==◌, if◌then◌else◌, Bool-cases}
use aira_relay.Base.Lists.{length, length-append}

abbrev pub Text : Type 0
Text = List ℕ

-- The code units of an ASCII literal.
abbrev pub codes : String → Text
codes String.[] = []
codes (String.◌∷◌ c s) = code c ∷ codes s

-- `a === b` on strings.
unfoldable pub text_eq : Text → Text → Bool
text_eq [] [] = true
text_eq (a ∷ s) (b ∷ t) = a == b && text_eq s t
text_eq _ _ = false

pub text_eq_refl : (s : Text) → text_eq s s ≡ true
unfolding text_eq
text_eq_refl [] = refl
text_eq_refl (a ∷ s) = ground (arith, text_eq_refl s)

pub eq_of_text_eq : (s t : Text) → text_eq s t ≡ true → s ≡ t
unfolding text_eq
eq_of_text_eq [] [] h = refl
eq_of_text_eq (a ∷ s) (b ∷ t) h = ground (arith, eq_of_text_eq s t)
eq_of_text_eq [] (b ∷ t) h = cc
eq_of_text_eq (a ∷ s) [] h = cc

pub text_eq_iff : (s t : Text) → (text_eq s t ≡ true) ↔ (s ≡ t)
text_eq_iff s t = (eq_of_text_eq s t, λ e. rw e (text_eq_refl t))

-- `s.endsWith(t)`.
unfoldable pub ends_with : Text → Text → Bool
unfolding text_eq
ends_with [] t = text_eq [] t
ends_with (c ∷ s) t = text_eq (c ∷ s) t || ends_with s t

pub ends_with_refl : (t : Text) → ends_with t t ≡ true
unfolding ends_with
ends_with_refl [] = refl
ends_with_refl (c ∷ t) = rw (text_eq_refl (c ∷ t))

-- A suffix that fits into the last part is decided there.
pub ends_with-append : (p t u : Text) → length u ≤ length t → ends_with (p ++ t) u ≡ ends_with t u
unfolding ends_with
ends_with-append [] t u h = refl
ends_with-append (c ∷ p) t u h = ground (
  arith,
  ends_with-append p t u h,
  text_eq_iff (c ∷ (p ++ t)) u,
  λ (e : c ∷ (p ++ t) ≡ u). absurd {A = ⊥} (omega (arith, ap length e, length-append p t)),
)

pub length-ends_with : (s u : Text) → ends_with s u ≡ true → length u ≤ length s
unfolding ends_with
length-ends_with [] u h = omega (arith, ap length (eq_of_text_eq [] u h))
length-ends_with (c ∷ s) u h = elim (Bool-cases (text_eq (c ∷ s) u)) [
  | inl e ↦ omega (arith, ap length (eq_of_text_eq (c ∷ s) u e))
  | inr e ↦ omega (arith, length-ends_with s u (rw e at h))
]

eq_of_ends_with : (s u : Text) → ends_with s u ≡ true → length s ≤ length u → s ≡ u
unfolding ends_with
eq_of_ends_with [] u h l = eq_of_text_eq [] u h
eq_of_ends_with (c ∷ s) u h l = elim (Bool-cases (text_eq (c ∷ s) u)) [
  | inl e ↦ eq_of_text_eq (c ∷ s) u e
  | inr e ↦ absurd (omega (arith, length-ends_with s u (rw e at h)))
]

-- A suffix longer than the last part ends with that part.
pub ends_with-append_long :
    (p t u : Text) → length t ≤ length u → ends_with (p ++ t) u ≡ true → ends_with u t ≡ true
unfolding ends_with
ends_with-append_long [] t u h e = rw (eq_of_ends_with t u e h) (ends_with_refl u)
ends_with-append_long (c ∷ p) t u h e = elim (Bool-cases (text_eq (c ∷ (p ++ t)) u)) [
  | inl f ↦
      rw (← eq_of_text_eq (c ∷ (p ++ t)) u f)
        (ends_with-append (c ∷ p) t t (omega arith) ∙ ends_with_refl t)
  | inr f ↦ ends_with-append_long p t u h (rw f at e)
]

-- So two suffixes, neither a suffix of the other, exclude each other.
pub ends_with_other :
    (p t u : Text) → ends_with t u ≡ false → ends_with u t ≡ false → ends_with (p ++ t) u ≡ false
ends_with_other p t u h k = elim (dec_le (length u) (length t)) [
  | yes short ↦ ends_with-append p t u short ∙ h
  | no long ↦ ground (arith, ends_with-append_long p t u)
]

-- `s.includes(c)` for one code unit.
unfoldable pub has : ℕ → Text → Bool
has d [] = false
has d (c ∷ s) = c == d || has d s

-- `s.split(d)` for a separator of one code unit.
push_head : ℕ → List Text → List Text
push_head c [] = (c ∷ []) ∷ []
push_head c (p ∷ ps) = (c ∷ p) ∷ ps

unfoldable pub split : ℕ → Text → List Text
unfolding push_head
split d [] = [] ∷ []
split d (c ∷ s) = let rest = split d s in if c == d then [] ∷ rest else push_head c rest

-- `s.split(d)[0]`.
unfoldable pub first_part : ℕ → Text → Text
first_part d [] = []
first_part d (c ∷ s) = let rest = first_part d s in if c == d then [] else c ∷ rest

-- `parts.join(d)`.
unfoldable pub join : Text → List Text → Text
join d [] = []
join d (p ∷ []) = p
join d (p ∷ q ∷ ps) = p ++ (d ++ join d (q ∷ ps))

-- A separator that a part does not hold ends that part.
pub split-append_sep :
    (d : ℕ) (p s : Text) → has d p ≡ false → split d (p ++ (d ∷ s)) ≡ p ∷ split d s
unfolding has split
split-append_sep d [] s h = ground arith
split-append_sep d (c ∷ p) s h = ground (arith, split-append_sep d p s)

pub split_single : (d : ℕ) (p : Text) → has d p ≡ false → split d p ≡ p ∷ []
unfolding has split
split_single d [] h = refl
split_single d (c ∷ p) h = ground (arith, split_single d p)

pub first_part-append_sep : (d : ℕ) (p s : Text) → has d p ≡ false → first_part d (p ++ (d ∷ s)) ≡ p
unfolding has first_part
first_part-append_sep d [] s h = ground arith
first_part-append_sep d (c ∷ p) s h = ground (arith, first_part-append_sep d p s)

pub first_part_single : (d : ℕ) (p : Text) → has d p ≡ false → first_part d p ≡ p
unfolding has first_part
first_part_single d [] h = refl
first_part_single d (c ∷ p) h = ground (arith, first_part_single d p)

pub has-first_part : (d : ℕ) (s : Text) → has d (first_part d s) ≡ false
unfolding has first_part
has-first_part d [] = refl
has-first_part d (c ∷ s) = ground (arith, has-first_part d s)

-- The first part is the head of the split.
pub split-first_part : (d : ℕ) (s : Text) → (ps : List Text) × (split d s ≡ first_part d s ∷ ps)
unfolding split first_part
split-first_part d [] = ([], refl)
split-first_part d (c ∷ s) = elim (Bool-cases (c == d)) [
  | inl e ↦ (split d s, rw e)
  | inr e ↦ let (ps, q) = split-first_part d s in (ps, rw (e, q))
]

pub has-first_part_of : (d e : ℕ) (s : Text) → has d s ≡ false → has d (first_part e s) ≡ false
unfolding has first_part
has-first_part_of d e [] h = refl
has-first_part_of d e (c ∷ s) h = ground (arith, has-first_part_of d e s)
