-- ===== src/Tests/Util.antt =====
-- Search, printing and version numbers, src/libpriv/rpmostree-util.cxx, on concrete inputs.
use Prim.Native.Nat.{compare}
use rpm_ostree.Prelude.{ℕ, zero, suc, ◌≡◌, refl, ◌+◌, [], ◌∷◌, arith, ◌==◌, if◌then◌else◌}
use rpm_ostree.Prelude.Text.{Text, strcmp}
use rpm_ostree.Util.Bsearch.{bsearch, IsSortedTo, Answers, bsearch-Answers}
use rpm_ostree.Util.DiffPrint.{diff_print, Prints, diff_print-Prints}
use rpm_ostree.Util.Version.{Decimal}

-- An array with two equal strings.
abbrev words : ℕ → Text
words zero = 97 ∷ []
words (suc zero) = 98 ∷ []
words (suc (suc i)) = 98 ∷ []

words-IsSortedTo : IsSortedTo words (98 ∷ []) 3
unfolding strcmp
words-IsSortedTo zero zero h k = ground arith
words-IsSortedTo zero (suc zero) h k = ground arith
words-IsSortedTo zero (suc (suc j)) h k = ground arith
words-IsSortedTo (suc i) zero h k = absurd (omega arith)
words-IsSortedTo (suc zero) (suc zero) h k = ground arith
words-IsSortedTo (suc zero) (suc (suc j)) h k = ground arith
words-IsSortedTo (suc (suc i)) (suc zero) h k = absurd (omega arith)
words-IsSortedTo (suc (suc i)) (suc (suc j)) h k = ground arith

bsearch-Answers_example : Answers words (98 ∷ []) 3 (bsearch words (98 ∷ []) 3)
bsearch-Answers_example = bsearch-Answers words (98 ∷ []) 3 words-IsSortedTo (omega arith)

diff_print-Prints_example :
    Prints compare
      (1 ∷ 4 ∷ [])
      (2 ∷ [])
      ((3, 5) ∷ [])
      (diff_print compare 5 (1 ∷ 4 ∷ []) (2 ∷ []) ((3, 5) ∷ []))
diff_print-Prints_example =
    diff_print-Prints compare 5 (1 ∷ 4 ∷ []) (2 ∷ []) ((3, 5) ∷ []) (omega arith)

-- Numbers written as so many ones, and zero as "0".
abbrev ones : ℕ → Text
ones zero = []
ones (suc n) = 49 ∷ ones n

abbrev tally : ℕ → Text
tally zero = 48 ∷ []
tally (suc n) = 49 ∷ ones n

abbrev count : Text → ℕ
count [] = 0
count (c ∷ s) = let n = count s in if c == 49 then n + 1 else n

count-ones : (n : ℕ) → count (ones n) ≡ n
count-ones zero = refl
count-ones (suc n) = omega (arith, count-ones n)

count-tally : (n : ℕ) → count (tally n) ≡ n
count-tally zero = refl
count-tally (suc n) = omega (arith, count-ones n)

abbrev tallies : Decimal
tallies = record {
  strtoull = count;
  print = tally;
  reads_back = λ n h. count-tally n;
  print_zero = refl;
  print_one = refl;
}
