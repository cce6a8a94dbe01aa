-- ===== src/Prelude/Text.antt =====
-- C strings as lists of bytes, with the tests of <string.h> and GLib that the program makes.
use Prim.Native.Char.{code}
use Prim.Native.String.{String}
use Prim.Native.Nat.{ℕ, compare, Ordering}
use mathlib.Core.Path.{◌≡◌, refl}
use mathlib.Core.Logic.{◌↔◌, ◌⊎◌, inl, inr}
use mathlib.Core.Bool.{Bool, true, false, ◌&&◌, ◌||◌}
use mathlib.Core.List.{List, [], ◌∷◌, ◌++◌}
use native.Mathlib.Omega.{arith}
use rpm_ostree.Prelude.Tests.{◌==◌}

abbrev pub Text : Type 0
Text = List ℕ

-- The bytes of an ASCII literal.
abbrev pub codes : String → Text
codes String.[] = []
codes (String.◌∷◌ c s) = code c ∷ codes s

-- strcmp: the sign of its result.
unfoldable pub strcmp : Text → Text → Ordering
strcmp [] [] = Ordering.eq
strcmp [] (b ∷ t) = Ordering.lt
strcmp (a ∷ s) [] = Ordering.gt
strcmp (a ∷ s) (b ∷ t) = elim (compare a b) [
  | Ordering.lt ↦ Ordering.lt
  | Ordering.gt ↦ Ordering.gt
  | Ordering.eq ↦ strcmp s t
]

pub Ordering-cases : (o : Ordering) → (o ≡ Ordering.lt) ⊎ ((o ≡ Ordering.eq) ⊎ (o ≡ Ordering.gt))
Ordering-cases Ordering.lt = inl refl
Ordering-cases Ordering.eq = inr (inl refl)
Ordering-cases Ordering.gt = inr (inr refl)

-- g_str_equal
unfoldable pub text_eq : Text → Text → Bool
text_eq [] [] = true
text_eq [] (b ∷ t) = false
text_eq (a ∷ s) [] = false
text_eq (a ∷ s) (b ∷ t) = (a == b) && text_eq s t

-- g_str_has_prefix
unfoldable pub has_prefix : Text → Text → Bool
has_prefix s [] = true
has_prefix [] (b ∷ p) = false
has_prefix (a ∷ s) (b ∷ p) = (a == b) && has_prefix s p

pub text_eq_refl : (s : Text) → text_eq s s ≡ true
unfolding text_eq
text_eq_refl [] = refl
text_eq_refl (a ∷ s) = ground (arith, text_eq_refl s)

pub text_eq_sound : (s t : Text) → text_eq s t ≡ true → s ≡ t
unfolding text_eq
text_eq_sound [] [] h = refl
text_eq_sound [] (b ∷ t) h = cc
text_eq_sound (a ∷ s) [] h = cc
text_eq_sound (a ∷ s) (b ∷ t) h = ground (arith, text_eq_sound s t)

pub text_eq_iff : (s t : Text) → (text_eq s t ≡ true) ↔ (s ≡ t)
text_eq_iff s t = (text_eq_sound s t, λ e. ground (arith, text_eq_refl s))

pub strcmp_refl : (s : Text) → strcmp s s ≡ Ordering.eq
unfolding strcmp
strcmp_refl [] = refl
strcmp_refl (a ∷ s) = ground (arith, strcmp_refl s)

pub strcmp_eq : (s t : Text) → strcmp s t ≡ Ordering.eq → s ≡ t
unfolding strcmp
strcmp_eq [] [] h = refl
strcmp_eq [] (b ∷ t) h = cc
strcmp_eq (a ∷ s) [] h = cc
strcmp_eq (a ∷ s) (b ∷ t) h = ground (arith, strcmp_eq s t)

pub strcmp_gt : (s t : Text) → strcmp s t ≡ Ordering.gt → strcmp t s ≡ Ordering.lt
unfolding strcmp
strcmp_gt [] [] h = cc
strcmp_gt [] (b ∷ t) h = cc
strcmp_gt (a ∷ s) [] h = refl
strcmp_gt (a ∷ s) (b ∷ t) h = ground (arith, strcmp_gt s t)

pub strcmp_lt : (s t : Text) → strcmp s t ≡ Ordering.lt → strcmp t s ≡ Ordering.gt
unfolding strcmp
strcmp_lt [] [] h = cc
strcmp_lt [] (b ∷ t) h = refl
strcmp_lt (a ∷ s) [] h = cc
strcmp_lt (a ∷ s) (b ∷ t) h = ground (arith, strcmp_lt s t)

pub strcmp_lt_trans :
    (s t u : Text) → strcmp s t ≡ Ordering.lt → strcmp t u ≡ Ordering.lt → strcmp s u ≡ Ordering.lt
unfolding strcmp
strcmp_lt_trans [] t [] h k = absurd (ground (arith, strcmp_gt [] t))
strcmp_lt_trans [] t (c ∷ u) h k = refl
strcmp_lt_trans (a ∷ s) [] u h k = cc
strcmp_lt_trans (a ∷ s) (b ∷ t) [] h k = cc
strcmp_lt_trans (a ∷ s) (b ∷ t) (c ∷ u) h k = ground (arith, strcmp_lt_trans s t u)

pub has_prefix-append : (p s : Text) → has_prefix (p ++ s) p ≡ true
unfolding has_prefix
has_prefix-append [] s = refl
has_prefix-append (a ∷ p) s = ground (arith, has_prefix-append p s)

pub has_prefix_self : (s : Text) → has_prefix s s ≡ true
unfolding has_prefix
has_prefix_self [] = refl
has_prefix_self (a ∷ s) = ground (arith, has_prefix_self s)

-- strstr (text, part) is not NULL
unfoldable pub strstr : Text → Text → Bool
strstr [] part = has_prefix [] part
strstr (a ∷ text) part = has_prefix (a ∷ text) part || strstr text part
