-- ===== src/Util/DiffPrint.antt =====
-- rpmostree_diff_print of src/libpriv/rpmostree-util.cxx: three sorted package lists printed as one.
-- rpm_ostree_package_cmp is a parameter.
use Prim.Native.Nat.{Ordering}
use rpm_ostree.Prelude.{
  ℕ, zero, suc, ◌+◌, ◌<◌, ◌≡◌, refl, Bool, true, false, Option, none, some, List, [], ◌∷◌, arith,
  length, if◌then◌else◌, ap,
}

-- A line of the output: "+" and "-" with a package, "!" and "=" with its old and new version.
pub data Line (P : Type 0) : Type 0 where
  plus : P → Line P
  minus : P → Line P
  changed : P → P → Line P

-- rpm_ostree_package_cmp below 0
abbrev pub is_lt : Ordering → Bool
is_lt Ordering.lt = true
is_lt _ = false

module _ {P : Type 0} (package_cmp : P → P → Ordering) where
  -- pkg_cmp_end, tested for a negative result
  abbrev pub before : Option P → Option P → Bool
  before a none = true
  before none (some b) = false
  before (some a) (some b) = is_lt (package_cmp a b)

  -- A round that prints the head of one list, and goes on with the rest; an assertion fails on NULL.
  abbrev pub print_one : Option P → (P → Line P) → Option (List (Line P)) → Option (List (Line P))
  print_one none line rest = none
  print_one (some p) line none = none
  print_one (some p) line (some lines) = some (line p ∷ lines)

  abbrev pub first : List (P × P) → Option P
  first [] = none
  first ((old, new) ∷ ms) = some old

  abbrev pub print_changed : List (P × P) → Option (List (Line P)) → Option (List (Line P))
  print_changed [] rest = none
  print_changed (m ∷ ms) none = none
  print_changed ((old, new) ∷ ms) (some lines) = some (changed old new ∷ lines)

  abbrev pub nonempty : List P → List P → List (P × P) → Bool
  nonempty [] [] [] = false
  nonempty _ _ _ = true

  abbrev pub rest_of {κ} : {A : Type κ} → List A → List A
  rest_of [] = []
  rest_of (x ∷ xs) = xs

  abbrev pub head_of : List P → Option P
  head_of [] = none
  head_of (x ∷ xs) = some x

  -- rpmostree_diff_print, on what is left of `added`, `removed` and the pairs of `modified_old` and
  -- `modified_new`, whose lengths an assertion makes equal. `none`: a failed assertion, or no fuel.
  unfoldable pub diff_print : ℕ → List P → List P → List (P × P) → Option (List (Line P))
  diff_print zero adds dels mods = none
  diff_print (suc f) adds dels mods =
      let print_mod = print_changed mods (diff_print f adds dels (rest_of mods)) in
      let print_add = print_one (head_of adds) plus (diff_print f (rest_of adds) dels mods) in
      let print_del = print_one (head_of dels) minus (diff_print f adds (rest_of dels) mods) in
      if nonempty adds dels mods
      then (if before (first mods) (head_of dels)
          then (if before (first mods) (head_of adds) then print_mod else print_add)
          else if before (head_of dels) (head_of adds)
          then print_del
          else print_add)
      else some []

  -- The packages of the lines of each kind, in order.
  abbrev pub pluses : List (Line P) → List P
  pluses [] = []
  pluses (plus p ∷ ls) = p ∷ pluses ls
  pluses (_ ∷ ls) = pluses ls

  abbrev pub minuses : List (Line P) → List P
  minuses [] = []
  minuses (minus p ∷ ls) = p ∷ minuses ls
  minuses (_ ∷ ls) = minuses ls

  abbrev pub changes : List (Line P) → List (P × P)
  changes [] = []
  changes (changed old new ∷ ls) = (old, new) ∷ changes ls
  changes (_ ∷ ls) = changes ls

  -- The output is there, and its lines are those of the three lists.
  abbrev pub Prints : List P → List P → List (P × P) → Option (List (Line P)) → Type 0
  Prints adds dels mods none = ⊥
  Prints adds dels mods (some ls) = (pluses ls ≡ adds) × (minuses ls ≡ dels) × (changes ls ≡ mods)

  Prints-mod :
      (adds dels : List P) (m : P × P) (mods : List (P × P)) (o : Option (List (Line P)))
      → Prints adds dels mods o
      → Prints adds dels (m ∷ mods) (print_changed (m ∷ mods) o)
  Prints-mod adds dels (old, new) mods none h = absurd h
  Prints-mod adds dels (old, new) mods (some ls) (a, d, c) = (a, d, ap (λ r. (old, new) ∷ r) c)

  Prints-add :
      (a : P) (adds dels : List P) (mods : List (P × P)) (o : Option (List (Line P)))
      → Prints adds dels mods o
      → Prints (a ∷ adds) dels mods (print_one (some a) plus o)
  Prints-add a adds dels mods none h = absurd h
  Prints-add a adds dels mods (some ls) (e, d, c) = (ap (λ r. a ∷ r) e, d, c)

  Prints-del :
      (d : P) (adds dels : List P) (mods : List (P × P)) (o : Option (List (Line P)))
      → Prints adds dels mods o
      → Prints adds (d ∷ dels) mods (print_one (some d) minus o)
  Prints-del d adds dels mods none h = absurd h
  Prints-del d adds dels mods (some ls) (a, e, c) = (a, ap (λ r. d ∷ r) e, c)

  choose :
      {A : Type 0} (Q : A → Type 0) (b : Bool) (x y : A)
      → (b ≡ true → Q x)
      → (b ≡ false → Q y)
      → Q (if b then x else y)
  choose Q true x y h k = h refl
  choose Q false x y h k = k refl

  -- With more fuel than there are packages the loop ends, no assertion fails, and every package is
  -- printed once, in its list's order, under its own sign.
  pub diff_print-Prints :
      (f : ℕ) (adds dels : List P) (mods : List (P × P))
      → length adds + length dels + length mods < f
      → Prints adds dels mods (diff_print f adds dels mods)
  unfolding diff_print
  diff_print-Prints zero adds dels mods h = absurd (omega arith)
  diff_print-Prints (suc f) [] [] [] h = (refl, refl, refl)
  diff_print-Prints (suc f) [] [] (m ∷ mods) h =
      Prints-mod [] [] m mods _ (diff_print-Prints f [] [] mods (omega arith))
  diff_print-Prints (suc f) (a ∷ adds) [] [] h =
      Prints-add a adds [] [] _ (diff_print-Prints f adds [] [] (omega arith))
  diff_print-Prints (suc f) [] (d ∷ dels) [] h =
      Prints-del d [] dels [] _ (diff_print-Prints f [] dels [] (omega arith))
  diff_print-Prints (suc f) [] (d ∷ dels) (m ∷ mods) h =
      choose (Prints [] (d ∷ dels) (m ∷ mods)) (before (first (m ∷ mods)) (some d)) _ _
        (λ _.
          Prints-mod [] (d ∷ dels) m mods _ (diff_print-Prints f [] (d ∷ dels) mods (omega arith)))
        (λ _.
          Prints-del d [] dels (m ∷ mods) _ (diff_print-Prints f [] dels (m ∷ mods) (omega arith)))
  diff_print-Prints (suc f) (a ∷ adds) [] (m ∷ mods) h =
      choose (Prints (a ∷ adds) [] (m ∷ mods)) (before (first (m ∷ mods)) (some a)) _ _
        (λ _.
          Prints-mod (a ∷ adds) [] m mods _ (diff_print-Prints f (a ∷ adds) [] mods (omega arith)))
        (λ _.
          Prints-add a adds [] (m ∷ mods) _ (diff_print-Prints f adds [] (m ∷ mods) (omega arith)))
  diff_print-Prints (suc f) (a ∷ adds) (d ∷ dels) [] h =
      choose (Prints (a ∷ adds) (d ∷ dels) []) (before (some d) (some a)) _ _
        (λ _.
          Prints-del d (a ∷ adds) dels [] _ (diff_print-Prints f (a ∷ adds) dels [] (omega arith)))
        (λ _.
          Prints-add a adds (d ∷ dels) [] _ (diff_print-Prints f adds (d ∷ dels) [] (omega arith)))
  diff_print-Prints (suc f) (a ∷ adds) (d ∷ dels) (m ∷ mods) h =
      let Q = Prints (a ∷ adds) (d ∷ dels) (m ∷ mods) in
      let added =
        Prints-add a adds (d ∷ dels) (m ∷ mods) _
          (diff_print-Prints f adds (d ∷ dels) (m ∷ mods) (omega arith)) in
      choose Q (before (first (m ∷ mods)) (some d)) _ _
        (λ _.
          choose Q (before (first (m ∷ mods)) (some a)) _ _
            (λ _.
              Prints-mod (a ∷ adds) (d ∷ dels) m mods _
                (diff_print-Prints f (a ∷ adds) (d ∷ dels) mods (omega arith)))
            (λ _. added))
        (λ _.
          choose Q (before (some d) (some a)) _ _
            (λ _.
              Prints-del d (a ∷ adds) dels (m ∷ mods) _
                (diff_print-Prints f (a ∷ adds) dels (m ∷ mods) (omega arith)))
            (λ _. added))
