-- ===== src/Util/Version.antt =====
-- increment_version of src/libpriv/rpmostree-util.cxx. The conversions of <glib.h> between numbers
-- and digits are parameters; a number is an unsigned long long, 64 bits wide.
use rpm_ostree.Prelude.{
  ℕ, zero, suc, ◌+◌, ◌%◌, ◌^◌, ◌<◌, ◌≡◌, refl, false, not, Option, none, some, [], ◌∷◌, ◌++◌, arith,
  ◌==◌, if◌then◌else◌, ap, sym, ◌∙◌,
}
use native.Mathlib.Nat.{mod-eq_of_lt}
use rpm_ostree.Prelude.Text.{
  Text, text_eq, has_prefix, has_prefix-append, has_prefix_self, text_eq_refl,
}

-- g_ascii_strtoull in base 10, "%llu", and what is relied on.
pub record Decimal : Type 0 where
  pub strtoull : Text → ℕ
  pub print : ℕ → Text
  pub reads_back : (n : ℕ) → n < 2 ^ 64 → strtoull (print n) ≡ n
  pub print_zero : print 0 ≡ 48 ∷ []
  pub print_one : print 1 ≡ 49 ∷ []

-- last_version + strlen (prefix)
abbrev pub after_prefix : Text → Text → Text
after_prefix s [] = s
after_prefix [] (b ∷ p) = []
after_prefix (a ∷ s) (b ∷ p) = after_prefix s p

-- version_suffix: the one character of its argument, or '.'; `none` is the failed assertion.
unfoldable pub suffix_char : Option Text → Option ℕ
suffix_char none = some 46
suffix_char (some (c ∷ [])) = some c
suffix_char (some _) = none

module _ (d : Decimal) where
  -- The part behind the prefix of a last version that is longer than the prefix.
  unfoldable pub increment_end : ℕ → Text → Option Text → Text → Option Text
  increment_end sfx prefix start [] = none
  increment_end sfx prefix (some start) (c ∷ end) =
      if not (c == sfx)
      then some (prefix ++ sfx ∷ start)
      else some (prefix ++ sfx ∷ d.print ((d.strtoull end + 1) % 2 ^ 64))
  increment_end sfx prefix none (c ∷ end) =
      if not (c == sfx)
      then some prefix
      else some (prefix ++ sfx ∷ d.print ((d.strtoull end + 1) % 2 ^ 64))

  -- No last version, or one of another prefix.
  unfoldable pub increment_fresh : ℕ → Text → Option Text → Text
  increment_fresh sfx prefix none = prefix
  increment_fresh sfx prefix (some start) = prefix ++ sfx ∷ start

  -- The last version is the prefix.
  unfoldable pub increment_same : ℕ → Text → Option Text → Text
  increment_same sfx prefix none = prefix ++ sfx ∷ 49 ∷ []
  increment_same sfx prefix (some start) = prefix ++ sfx ∷ start

  unfoldable pub increment_last : ℕ → Option Text → Text → Option Text → Option Text
  unfolding increment_end increment_fresh increment_same
  increment_last sfx none prefix start = some (increment_fresh sfx prefix start)
  increment_last sfx (some last) prefix start =
      if not (has_prefix last prefix)
      then some (increment_fresh sfx prefix start)
      else if text_eq last prefix
      then some (increment_same sfx prefix start)
      else increment_end sfx prefix start (after_prefix last prefix)

  increment_checked : Option ℕ → Option Text → Text → Option Text → Option Text
  increment_checked none last prefix start = none
  increment_checked (some sfx) last prefix start = increment_last sfx last prefix start

  -- increment_version (version_suffix_str, last_version, prefix, increment_start); `none` is a failed
  -- assertion.
  unfoldable pub increment_version : Option Text → Option Text → Text → Option Text → Option Text
  unfolding increment_checked suffix_char increment_last
  increment_version suffix last prefix start =
      increment_checked (suffix_char suffix) last prefix start

  -- The version of the n-th build, each computed from the one before.
  pub nth_version : Text → Option Text → ℕ → Option Text
  nth_version prefix start zero = increment_version none none prefix start
  nth_version prefix start (suc n) = elim (nth_version prefix start n) [
    | none ↦ none
    | some last ↦ increment_version none (some last) prefix start
  ]

  after_append : (p s : Text) → after_prefix (p ++ s) p ≡ s
  after_append [] s = refl
  after_append (a ∷ p) s = after_append p s

  longer : (p : Text) (c : ℕ) (s : Text) → text_eq (p ++ c ∷ s) p ≡ false
  unfolding text_eq
  longer [] c s = refl
  longer (a ∷ p) c s = ground (arith, longer p c s)

  bump_number : (n : ℕ) → n + 1 < 2 ^ 64 → (d.strtoull (d.print n) + 1) % 2 ^ 64 ≡ n + 1
  bump_number n h = rw (d.reads_back n (omega arith), mod-eq_of_lt h)

  bump_end :
      (prefix : Text) (start : Option Text) (n : ℕ)
      → n + 1 < 2 ^ 64
      → increment_end 46 prefix start (46 ∷ d.print n) ≡ some (prefix ++ 46 ∷ d.print (n + 1))
  unfolding increment_end
  bump_end prefix none n h = ap (λ m. some (prefix ++ 46 ∷ d.print m)) (bump_number n h)
  bump_end prefix (some start) n h = ap (λ m. some (prefix ++ 46 ∷ d.print m)) (bump_number n h)

  bump :
      (prefix : Text) (start : Option Text) (n : ℕ)
      → n + 1 < 2 ^ 64
      → increment_version none (some (prefix ++ 46 ∷ d.print n)) prefix start
        ≡ some (prefix ++ 46 ∷ d.print (n + 1))
  unfolding increment_version
  bump prefix start n h =
      rw
        (
          has_prefix-append prefix (46 ∷ d.print n),
          longer prefix 46 (d.print n),
          after_append prefix (46 ∷ d.print n),
        )
        (bump_end prefix start n h)

  same :
      (prefix : Text) (start : Option Text)
      → increment_version none (some prefix) prefix start ≡ some (increment_same 46 prefix start)
  unfolding increment_version
  same prefix start = rw (has_prefix_self prefix, text_eq_refl prefix, increment_last)

  nth_version-one :
      (prefix : Text) → nth_version prefix none 1 ≡ increment_version none (some prefix) prefix none
  unfolding nth_version increment_version
  nth_version-one prefix = refl

  nth_version-suc :
      (prefix : Text) (start : Option Text) (n : ℕ) (last : Text)
      → nth_version prefix start n ≡ some last
      → nth_version prefix start (suc n) ≡ increment_version none (some last) prefix start
  unfolding nth_version
  nth_version-suc prefix start n last e = rw e

  -- Without a date tag, every build after the first has the prefix, a dot and its number as version.
  nth_version-plain :
      (prefix : Text) (n : ℕ)
      → suc n < 2 ^ 64
      → nth_version prefix none (suc n) ≡ some (prefix ++ 46 ∷ d.print (suc n))
  nth_version-plain prefix zero h =
      nth_version-one prefix
      ∙ same prefix none
      ∙ unfold increment_same in ap (λ t. some (prefix ++ 46 ∷ t)) (sym d.print_one)
  nth_version-plain prefix (suc n) h =
      nth_version-suc prefix none (suc n) _ (nth_version-plain prefix n (omega arith))
      ∙ bump prefix none (suc n) (omega arith)
      ∙ ap (λ j. some (prefix ++ 46 ∷ d.print j)) (omega arith)

  -- With a date tag, which starts the count at "0", build n has the prefix, a dot and n.
  nth_version-dated :
      (prefix : Text) (n : ℕ)
      → n < 2 ^ 64
      → nth_version prefix (some (48 ∷ [])) n ≡ some (prefix ++ 46 ∷ d.print n)
  nth_version-dated prefix zero h =
      unfold nth_version in
      unfold increment_version in ap (λ t. some (prefix ++ 46 ∷ t)) (sym d.print_zero)
  nth_version-dated prefix (suc n) h =
      nth_version-suc prefix (some (48 ∷ [])) n _ (nth_version-dated prefix n (omega arith))
      ∙ bump prefix (some (48 ∷ [])) n (omega arith)
      ∙ ap (λ j. some (prefix ++ 46 ∷ d.print j)) (omega arith)
