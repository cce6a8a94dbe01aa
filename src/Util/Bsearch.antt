-- ===== src/Util/Bsearch.antt =====
-- rpmostree_variant_bsearch_str of src/libpriv/rpmostree-util.cxx. The array is a length and the
-- string of each element; gsize arithmetic wraps at 64 bits, and *out_pos is an int.
use Prim.Native.Nat.{Ordering}
use native.Mathlib.Decide.{dec_lt}
use rpm_ostree.Prelude.{
  ℕ, zero, suc, ◌+◌, ◌-◌, ◌/◌, ◌%◌, ◌^◌, ◌≤◌, ◌<◌, ◌≡◌, ◌≢◌, ◌⊎◌, arith, ltb, leb, ◌==◌,
  if◌then◌else◌, inl, inr, subst, ap, Bool-cases,
}
use rpm_ostree.Prelude.Int.{ℤ, pos, to_int, to_int-pos}
use rpm_ostree.Prelude.Text.{
  Text, strcmp, Ordering-cases, strcmp_eq, strcmp_refl, strcmp_gt, strcmp_lt, strcmp_lt_trans,
}

-- The return value with *out_pos, which an empty array leaves unset; `out_of_fuel` is not an answer
-- of the program.
pub data Search : Type 0 where
  unset : Search
  found : ℤ → Search
  missing : ℤ → Search
  out_of_fuel : Search

-- imid = (imin + imax) / 2
unfoldable pub middle : ℕ → ℕ → ℕ
middle imin imax = (imin + imax) % 2 ^ 64 / 2

middle_bounds :
    (imin imax n : ℕ)
    → imin ≤ imax
    → imax < n
    → n < 2 ^ 63
    → (imin ≤ middle imin imax)
      × (middle imin imax ≤ imax)
      × ((middle imin imax + 1) % 2 ^ 64 ≡ middle imin imax + 1)
      × (imin < middle imin imax → middle imin imax < imax)
unfolding middle
middle_bounds imin imax n h k small = omega arith

module _ (elem : ℕ → Text) (str : Text) where
  -- The while loop, with `imid` as the last round left it.
  unfoldable pub bsearch_loop : ℕ → ℕ → ℕ → ℕ → Search
  bsearch_loop zero imin imax imid = out_of_fuel
  bsearch_loop (suc f) imin imax imid =
      let mid = middle imin imax in
      let right = bsearch_loop f ((mid + 1) % 2 ^ 64) imax mid in
      let left = bsearch_loop f imin (mid - 1) mid in
      let narrow = bsearch_loop f imin mid mid in
      if leb imin imax
      then elim (strcmp (elem mid) str) [
        | Ordering.lt ↦ right
        | Ordering.gt ↦ if mid == 0 then missing (to_int mid) else left
        | Ordering.eq ↦ if ltb imin mid then narrow else found (to_int mid)
      ]
      else missing (to_int imid)

  -- rpmostree_variant_bsearch_str; the fuel is more than the rounds that it can take.
  unfoldable pub bsearch : ℕ → Search
  bsearch n = if n == 0 then unset else bsearch_loop (n + 1) 0 (n - 1) (2 ^ 64 - 1)

  -- Sorted, with duplicates allowed.
  abbrev pub IsSortedTo : ℕ → Type 0
  IsSortedTo n = (i j : ℕ) → i < j → j < n → strcmp (elem i) (elem j) ≢ Ordering.gt

  -- The earliest position of `str`, or its absence.
  abbrev pub Answers : ℕ → Search → Type 0
  Answers n unset = n ≡ 0
  Answers n (found p) =
      (k : ℕ) × (p ≡ pos k)
      × (k < n)
      × (elem k ≡ str)
      × ((j : ℕ) → j < k → strcmp (elem j) str ≡ Ordering.lt)
  Answers n (missing p) = (j : ℕ) → j < n → elem j ≢ str
  Answers n out_of_fuel = ⊥

  -- What the loop has found out: all before `imin` is smaller, and all after `imax` is greater,
  -- unless `imax` itself is a match.
  record Window (n imin imax : ℕ) : Type 0 where
    bounded : imax < n
    below : (j : ℕ) → j < imin → strcmp (elem j) str ≡ Ordering.lt
    above :
        ((j : ℕ) → imax < j → j < n → strcmp (elem j) str ≡ Ordering.gt)
        ⊎ ((imin ≤ imax) × (elem imax ≡ str))

  absent : (n imin imax : ℕ) → Window n imin imax → imax < imin → (j : ℕ) → j < n → elem j ≢ str
  absent n imin imax w h j k e = elim (dec_lt j imin) [
    | yes p ↦ cc (w.below j p, strcmp_refl str, e)
    | no p ↦ elim w.above [
      | inl a ↦ cc (a j (omega arith) k, strcmp_refl str, e)
      | inr (m, _) ↦ absurd (omega arith)
    ]
  ]

  lt_of_le_lt :
      (a b : Text)
      → strcmp a b ≢ Ordering.gt
      → strcmp b str ≡ Ordering.lt
      → strcmp a str ≡ Ordering.lt
  lt_of_le_lt a b h k = elim (Ordering-cases (strcmp a b)) [
    | inl e ↦ strcmp_lt_trans a b str e k
    | inr (inl e) ↦ cc (strcmp_eq a b e)
    | inr (inr e) ↦ absurd (h e)
  ]

  gt_of_gt_le :
      (a b : Text)
      → strcmp a b ≢ Ordering.gt
      → strcmp a str ≡ Ordering.gt
      → strcmp b str ≡ Ordering.gt
  gt_of_gt_le a b h k = elim (Ordering-cases (strcmp a b)) [
    | inl e ↦ strcmp_lt str b (strcmp_lt_trans str a b (strcmp_gt a str k) e)
    | inr (inl e) ↦ cc (strcmp_eq a b e)
    | inr (inr e) ↦ absurd (h e)
  ]

  module _ (n : ℕ) (sorted : IsSortedTo n) where
    smaller :
        (mid j : ℕ)
        → mid < n
        → strcmp (elem mid) str ≡ Ordering.lt
        → j < mid + 1
        → strcmp (elem j) str ≡ Ordering.lt
    smaller mid j b e h = elim (dec_lt j mid) [
      | yes p ↦ lt_of_le_lt (elem j) (elem mid) (sorted j mid p b) e
      | no p ↦ subst (λ i. strcmp (elem i) str ≡ Ordering.lt) (same (omega arith)) e
    ]
      where
        same : mid ≡ j → mid ≡ j
        same q = q

    greater :
        (mid j : ℕ)
        → j < n
        → strcmp (elem mid) str ≡ Ordering.gt
        → mid ≤ j
        → strcmp (elem j) str ≡ Ordering.gt
    greater mid j b e h = elim (dec_lt mid j) [
      | yes p ↦ gt_of_gt_le (elem mid) (elem j) (sorted mid j p b) e
      | no p ↦ subst (λ i. strcmp (elem i) str ≡ Ordering.gt) (same (omega arith)) e
    ]
      where
        same : mid ≡ j → mid ≡ j
        same q = q

    Window-right :
        (imin imax mid : ℕ)
        → Window n imin imax
        → mid ≤ imax
        → strcmp (elem mid) str ≡ Ordering.lt
        → Window n (mid + 1) imax
    Window-right imin imax mid w h e = record {
      bounded = w.bounded;
      below = λ j b. smaller mid j (omega (arith, w.bounded)) e b;
      above = elim w.above [
        | inl a ↦ inl a
        | inr (m, q) ↦ elim (dec_lt mid imax) [
          | yes p ↦ inr (omega arith, q)
          | no p ↦ cc (ap (λ i. strcmp (elem i) str) (equal p), q, strcmp_refl str, e)
        ]
      ];
    }
      where
        equal : ¬ (mid < imax) → mid ≡ imax
        equal p = omega arith

    Window-left :
        (imin imax mid : ℕ)
        → Window n imin imax
        → mid ≤ imax
        → 0 < mid
        → strcmp (elem mid) str ≡ Ordering.gt
        → Window n imin (mid - 1)
    Window-left imin imax mid w h z e = record {
      bounded = omega (arith, w.bounded);
      below = w.below;
      above = inl (λ j a b. greater mid j b e (omega arith));
    }

    Window-narrow :
        (imin imax mid : ℕ)
        → Window n imin imax
        → mid ≤ imax
        → imin < mid
        → strcmp (elem mid) str ≡ Ordering.eq
        → Window n imin mid
    Window-narrow imin imax mid w h z e = record {
      bounded = omega (arith, w.bounded);
      below = w.below;
      above = inr (omega arith, strcmp_eq (elem mid) str e);
    }

    bsearch_loop-Answers :
        (f imin imax imid : ℕ)
        → n < 2 ^ 31
        → Window n imin imax
        → imax + 1 < f + imin
        → imin ≤ imax + 1
        → Answers n (bsearch_loop f imin imax imid)
    unfolding bsearch_loop
    bsearch_loop-Answers zero imin imax imid small w fuel near = absurd (omega arith)
    bsearch_loop-Answers (suc f) imin imax imid small w fuel near =
        elim (Bool-cases (leb imin imax)) [
          | inr past ↦ rw past (absent n imin imax w (ground arith))
          | inl inside ↦
              let m = middle imin imax in
              let (lo, hi, wraps, falls) =
                middle_bounds imin imax n (ground arith) w.bounded (omega arith) in
              elim (Ordering-cases (strcmp (elem m) str)) [
                | inl e ↦
                    rw (inside, e, wraps)
                      (bsearch_loop-Answers f (m + 1) imax m small (Window-right imin imax m w hi e)
                        (omega arith) (omega arith))
                | inr (inl e) ↦ elim (Bool-cases (ltb imin m)) [
                  | inl more ↦
                      rw (inside, e, more)
                        (bsearch_loop-Answers f imin m m small
                          (Window-narrow imin imax m w hi (ground arith) e) (ground arith)
                          (omega arith))
                  | inr last ↦
                      rw (inside, e, last)
                        (
                          m,
                          to_int-pos m (omega (arith, w.bounded)),
                          omega (arith, w.bounded),
                          strcmp_eq (elem m) str e,
                          λ j b. w.below j (ground arith),
                        )
                ]
                | inr (inr e) ↦ elim (Bool-cases (m == 0)) [
                  | inl z ↦
                      rw (inside, e, z)
                        λ j b q. cc (greater m j b e (ground arith), q, strcmp_refl str)
                  | inr nz ↦
                      rw (inside, e, nz)
                        (bsearch_loop-Answers f imin (m - 1) m small
                          (Window-left imin imax m w hi (ground arith) e) (ground arith)
                          (ground arith))
                ]
              ]
        ]

  -- On a sorted array of less than 2^31 strings the search ends; it finds the earliest position of the
  -- string if the array has it, and returns FALSE only if it has not.
  pub bsearch-Answers : (n : ℕ) → IsSortedTo n → n < 2 ^ 31 → Answers n (bsearch n)
  unfolding bsearch
  bsearch-Answers n sorted small = elim (Bool-cases (n == 0)) [
    | inl z ↦ rw z (ground arith)
    | inr nz ↦ rw nz (
        bsearch_loop-Answers n sorted (n + 1) 0 (n - 1) (2 ^ 64 - 1) small (start (ground arith))
          (ground arith) (ground arith))
  ]
    where
      start : n - 1 < n → Window n 0 (n - 1)
      start h = record {
        bounded = h;
        below = λ j b. absurd (omega arith);
        above = inl (λ j a b. absurd (omega arith));
      }
