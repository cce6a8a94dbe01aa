-- ===== src/Daemon/Output.antt =====
-- transaction_output_cb of src/daemon/rpmostreed-transaction.cxx: what the library prints becomes
-- D-Bus signals. The function's static variables are the state.
use rpm_ostree.Prelude.{
  ℕ, ◌*◌, ◌/◌, ◌%◌, ◌^◌, ◌≤◌, ◌<◌, ◌≡◌, ◌≢◌, refl, Bool, true, false, ◌||◌, Option, none, some,
  List, [], ◌∷◌, ◌++◌, ltb, ◌==◌, arith, sym, ◌∙◌, if◌then◌else◌,
}
use native.Mathlib.Nat.{mod-eq_of_lt, div-eq_of_lt, le-div_iff_mul-le}
use rpm_ostree.Prelude.Text.{Text}

-- RpmOstreeOutputType, with the fields of its structs.
pub data Output : Type 0 where
  message : Text → Output
  progress_begin : Text → Bool → ℕ → Output
  progress_update : ℕ → Output
  progress_sub_message : Text → Output
  progress_end : Output

-- The signals of the Transaction interface. The percentage is `none` where the C++ conversion to
-- int is undefined.
pub data Emission : Type 0 where
  emit_message : Text → Emission
  percent_progress : Text → Option ℕ → Emission
  items_progress : Text → ℕ → ℕ → Option ℕ → Emission
  task_begin : Text → Emission
  end_progress : Emission
  task_end : Emission

pub record Progress : Type 0 where
  pub progress_str : Text
  pub state_percent : Bool
  pub n_items : ℕ

-- The percentage of an update in a counted progress: guint times int wraps at 32 bits, then a
-- division of doubles is cut to an int.
unfoldable pub percentage : ℕ → ℕ → Option ℕ
percentage c n =
    let nitems_percentage = (n * 100) % 2 ^ 32 in
    if c == n
    then some 100
    else if nitems_percentage == 0
    then none
    else some (c / nitems_percentage)

-- transaction_output_cb
unfoldable pub output_cb : Output → Progress → Progress × List Emission
unfolding percentage
output_cb (message text) s = (s, emit_message text ∷ [])
output_cb (progress_begin prefix percent n) s =
    if percent
    then (
      record { progress_str = prefix; state_percent = true; n_items = 0 },
      percent_progress prefix (some 0) ∷ [],
    )
    else if ltb 0 n
    then (
      record { progress_str = prefix; state_percent = false; n_items = n },
      percent_progress prefix (some 0) ∷ [],
    )
    else (record { progress_str = []; state_percent = false; n_items = 0 }, task_begin prefix ∷ [])
output_cb (progress_update c) s =
    if ltb 0 s.n_items
    then (s, items_progress s.progress_str c s.n_items (percentage c s.n_items) ∷ [])
    else (s, percent_progress s.progress_str (some c) ∷ [])
output_cb (progress_sub_message text) s = (s, [])
output_cb progress_end s =
    (s, (if s.state_percent || ltb 0 s.n_items then end_progress else task_end) ∷ [])

unfoldable pub outputs : List Output → Progress → Progress × List Emission
unfolding output_cb
outputs [] s = (s, [])
outputs (o ∷ os) s =
    let (s', first) = output_cb o s in let (s'', rest) = outputs os s' in (s'', first ++ rest)

-- What may come between the begin and the end of one task.
abbrev Inner : List Output → Type 0
Inner [] = Unit {0}
Inner (progress_update c ∷ os) = Inner os
Inner (message text ∷ os) = Inner os
Inner (progress_sub_message text ∷ os) = Inner os
Inner (_ ∷ os) = ⊥

outputs-Inner : (os : List Output) (s : Progress) → Inner os → (outputs os s).0 ≡ s
unfolding outputs
outputs-Inner [] s h = refl
outputs-Inner (message text ∷ os) s h = outputs-Inner os s h
outputs-Inner (progress_begin prefix percent n ∷ os) s h = absurd h
outputs-Inner (progress_update c ∷ os) s h = ground (arith, outputs-Inner os s h)
outputs-Inner (progress_sub_message text ∷ os) s h = outputs-Inner os s h
outputs-Inner (progress_end ∷ os) s h = absurd h

-- The end of a task is announced as its begin was, whatever messages and updates come between:
-- ProgressEnd after a percentage or a count, TaskEnd after a plain task.
end_matches_begin :
    (prefix : Text) (percent : Bool) (n : ℕ) (os : List Output) (s : Progress)
    → Inner os
    → (output_cb progress_end (outputs os (output_cb (progress_begin prefix percent n) s).0).0).1
      ≡ (if percent || ltb 0 n then end_progress else task_end) ∷ []
unfolding output_cb
end_matches_begin prefix percent n os s h =
    ground (arith, outputs-Inner os (output_cb (progress_begin prefix percent n) s).0 h)

percentage_zero : (c n : ℕ) → c < n → n * 100 < 2 ^ 32 → percentage c n ≡ some 0
unfolding percentage
percentage_zero c n h small =
    rw (mod-eq_of_lt small, div-eq_of_lt {n = c} {m = n * 100} (omega arith)) (ground arith)

-- While a counted task of at most 42949672 items is under way, the percentage that is emitted is 0,
-- though at least one percent of the items is done: it divides by 100 in place of multiplying.
pub percentage_stuck :
    (c n : ℕ)
    → c < n
    → n * 100 < 2 ^ 32
    → n ≤ c * 100
    → (percentage c n ≡ some 0) × (percentage c n ≢ some (c * 100 / n))
percentage_stuck c n h small part = (
  percentage_zero c n h small,
  λ e.
      some_done (c * 100 / n) ((le-div_iff_mul-le (omega arith)).1 (omega arith))
        (sym (percentage_zero c n h small) ∙ e),
)
  where
    some_done : (q : ℕ) → 1 ≤ q → some 0 ≡ some q → ⊥
    some_done q h e = ground arith
