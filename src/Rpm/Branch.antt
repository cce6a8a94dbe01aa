-- ===== src/Rpm/Branch.antt =====
-- Branch names of the package cache: append_quoted and get_branch_for_n_evr_a of
-- src/libpriv/rpmostree-rpm-util.cxx, and the way back, cache_branch_to_nevra of
-- rust/src/rpmutils.rs. A `char` of C++ is a signed byte, here its value as an unsigned one.
use mathlib.Core.Option
use rpm_ostree.Prelude.{
  ℕ, ◌+◌, ◌-◌, ◌*◌, ◌/◌, ◌%◌, Bool, ◌||◌, ◌&&◌, Option, none, some, [], ◌∷◌, ◌++◌, ltb, leb, ◌==◌,
  if◌then◌else◌,
}
use rpm_ostree.Prelude.Text.{Text, codes, has_prefix}

-- g_ascii_isalnum
unfoldable pub is_alnum : ℕ → Bool
is_alnum c = (leb 48 c && leb c 57) || (leb 65 c && leb c 90) || (leb 97 c && leb c 122)

-- A digit as %X prints it.
unfoldable pub hex_digit : ℕ → ℕ
hex_digit d = if ltb d 10 then 48 + d else 55 + d

-- "_%02X" of a char: a byte from 128 on is a negative int, which %X prints with eight digits.
unfoldable pub hex_escape : ℕ → Text
unfolding hex_digit
hex_escape c =
    if ltb c 128
    then 95 ∷ hex_digit (c / 16) ∷ hex_digit (c % 16) ∷ []
    else 95 ∷ 70 ∷ 70 ∷ 70 ∷ 70 ∷ 70 ∷ 70 ∷ hex_digit (c / 16) ∷ hex_digit (c % 16) ∷ []

-- One round of the loop of append_quoted.
unfoldable pub quote_char : ℕ → Text
unfolding hex_escape is_alnum
quote_char c =
    if c == 46 || c == 45
    then c ∷ []
    else if is_alnum c
    then c ∷ []
    else if c == 95
    then 95 ∷ 95 ∷ []
    else hex_escape c

-- append_quoted, up to the NUL that ends the string
unfoldable pub append_quoted : Text → Text → Text
unfolding quote_char
append_quoted r [] = r
append_quoted r (c ∷ value) = append_quoted (r ++ quote_char c) value

drop_two : Text → Text
drop_two (a ∷ b ∷ s) = s
drop_two s = s

-- if (g_str_has_prefix (evr, "0:")) evr += 2
unfoldable pub drop_zero_epoch : Text → Text
unfolding drop_two has_prefix
drop_zero_epoch evr = if has_prefix evr (48 ∷ 58 ∷ []) then drop_two evr else evr

-- get_branch_for_n_evr_a
unfoldable pub branch_for_n_evr_a : Text → Text → Text → Text → Text
unfolding append_quoted drop_zero_epoch
branch_for_n_evr_a type name evr arch =
    let r = append_quoted (codes "rpmostree/" ++ type ++ 47 ∷ []) name in
    let r' = append_quoted (r ++ 47 ∷ []) (drop_zero_epoch evr) in
    append_quoted (r' ++ 46 ∷ []) arch

-- rpmostree_get_cache_branch_for_n_evr_a
unfoldable pub cache_branch : Text → Text → Text → Text
unfolding branch_for_n_evr_a
cache_branch name evr arch = branch_for_n_evr_a (codes "pkg") name evr arch

-- hexval of rust/src/rpmutils.rs
unfoldable pub hexval : ℕ → Option ℕ
hexval c =
    if leb 48 c && leb c 57
    then some (c - 48)
    else if leb 65 c && leb c 70
    then some (c - 65 + 10)
    else none

-- A character other than '_', as the decoder passes it on.
abbrev pub plain : ℕ → ℕ
plain c = if c == 47 then 45 else c

-- The pushed character of an escape, and the rest of the output; a digit that is none ends it.
abbrev unescape : Option ℕ → Option ℕ → Text → Text
unescape (some b) (some l) rest = (b * 16 + l) ∷ rest
unescape _ _ rest = []

-- The loop of cache_branch_to_nevra.
unfoldable pub unquote : Text → Text
unfolding hexval
unquote [] = []
unquote (c ∷ []) = if c == 95 then [] else plain c ∷ []
unquote (c ∷ d ∷ []) =
    let rest = unquote (d ∷ []) in
    if c == 95 then (if d == 95 then 95 ∷ [] else []) else plain c ∷ rest
unquote (c ∷ d ∷ e ∷ s) =
    let rest = unquote (d ∷ e ∷ s) in
    let after_underscore = unquote (e ∷ s) in
    let after_escape = unquote s in
    if c == 95
    then if d == 95 then 95 ∷ after_underscore else unescape (hexval d) (hexval e) after_escape
    else plain c ∷ rest

strip_prefix : Text → Text → Option Text
strip_prefix [] s = some s
strip_prefix (a ∷ p) [] = none
strip_prefix (a ∷ p) (c ∷ s) = let rest = strip_prefix p s in if a == c then rest else none

-- cache_branch_to_nevra; `none` is its panic
unfoldable pub cache_branch_to_nevra : Text → Option Text
unfolding strip_prefix unquote
cache_branch_to_nevra branch = Option.map unquote (strip_prefix (codes "rpmostree/pkg/") branch)
