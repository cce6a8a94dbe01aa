-- ===== src/Core/RelabelLoop.antt =====
-- The loop of the relabelling of Core/Relabel: what it counts and keeps.
use rpm_ostree.Prelude.{
  ℕ, ◌+◌, ◌^◌, ◌<◌, ◌≤◌, ◌≡◌, refl, ap, ◌∙◌, true, false, not, ◌&&◌, Option, none, some, List, [],
  ◌∷◌, ◌==◌, length, arith, if◌then◌else◌, if_true,
}
use rpm_ostree.Prelude.Text.{Text, text_eq}
use rpm_ostree.Prelude.Result.{ok, error}
use rpm_ostree.Core.Packages.{Candidate}
use rpm_ostree.Core.Relabel.{
  Relabel, Outcome, relabel_in_thread, count_relabeled, advance, on_async_relabel_done,
  wait_relabel, begin_relabel,
}

-- The first error of the threads.
abbrev pub first_error : List Outcome → Option Text
first_error [] = none
first_error (error e ∷ outcomes) = some e
first_error (ok c ∷ outcomes) = first_error outcomes

-- How many threads changed the content of their package.
abbrev pub count_changed : List Outcome → ℕ
count_changed [] = 0
count_changed (error e ∷ outcomes) = count_changed outcomes
count_changed (ok (before, after) ∷ outcomes) =
    (if text_eq before after then 0 else 1) + count_changed outcomes

abbrev earlier : Option Text → Option Text → Option Text
earlier none later = later
earlier (some e) later = some e

-- The loop is through with the packages.
pub record Done (pkgs : List Candidate) (outcomes : List Outcome) (s s' : Relabel) : Type 0 where
  pub stopped : s'.async_running ≡ false
  pub same_pkgs : s'.pkgs_to_relabel ≡ some pkgs
  pub all_relabeled : s'.n_async_pkgs_relabeled ≡ length pkgs
  pub kept_error : s'.async_error ≡ earlier s.async_error (first_error outcomes)
  pub changed : s'.n_changed_pkgs ≡ s.n_changed_pkgs + count_changed outcomes

count_changed-length : (outcomes : List Outcome) → count_changed outcomes ≤ length outcomes
count_changed-length [] = omega arith
count_changed-length (error e ∷ outcomes) = ground (arith, count_changed-length outcomes)
count_changed-length (ok (before, after) ∷ outcomes) = ground (arith, count_changed-length outcomes)

abbrev next : List Candidate → Outcome → Relabel → Relabel
next pkgs o s = advance (length pkgs) (count_relabeled (relabel_in_thread o) s)

on_async_relabel_done-lem :
    (pkgs : List Candidate) (o : Outcome) (s : Relabel)
    → s.pkgs_to_relabel ≡ some pkgs
    → s.n_async_pkgs_relabeled < length pkgs
    → on_async_relabel_done o s ≡ some (next pkgs o s)
unfolding on_async_relabel_done
on_async_relabel_done-lem pkgs o s p h = ground (arith, p, h)

record Counts (pkgs : List Candidate) (o : Outcome) (s s' : Relabel) : Type 0 where
  same_pkgs : s'.pkgs_to_relabel ≡ s.pkgs_to_relabel
  one_more : s'.n_async_pkgs_relabeled ≡ s.n_async_pkgs_relabeled + 1
  running : s'.async_running ≡ not (s'.n_async_pkgs_relabeled == length pkgs) && s.async_running
  kept_error : s'.async_error ≡ earlier s.async_error (first_error (o ∷ []))
  changed : s'.n_changed_pkgs ≡ s.n_changed_pkgs + count_changed (o ∷ [])

next-Counts :
    (pkgs : List Candidate) (o : Outcome) (s : Relabel)
    → s.n_changed_pkgs + 1 < 2 ^ 32
    → Counts pkgs o s (next pkgs o s)
unfolding advance count_relabeled relabel_in_thread
next-Counts pkgs (error e) s h = ground arith
next-Counts pkgs (ok (before, after)) s h = ground arith

wait_relabel-next :
    (pkgs : List Candidate) (o : Outcome) (outcomes : List Outcome) (s : Relabel)
    → s.pkgs_to_relabel ≡ some pkgs
    → s.async_running ≡ true
    → s.n_async_pkgs_relabeled < length pkgs
    → wait_relabel (o ∷ outcomes) (some s) ≡ wait_relabel outcomes (some (next pkgs o s))
unfolding wait_relabel
wait_relabel-next pkgs o outcomes s p r h =
    if_true s.async_running _ _ r
    ∙ ap (wait_relabel outcomes) (on_async_relabel_done-lem pkgs o s p h)

earlier_assoc : (a b c : Option Text) → earlier (earlier a b) c ≡ earlier a (earlier b c)
earlier_assoc none b c = refl
earlier_assoc (some e) b c = refl

earlier-none : (a : Option Text) → a ≡ earlier a none
earlier-none none = refl
earlier-none (some e) = refl

first_error-next :
    (o : Outcome) (outcomes : List Outcome)
    → earlier (first_error (o ∷ [])) (first_error outcomes) ≡ first_error (o ∷ outcomes)
first_error-next (error e) outcomes = refl
first_error-next (ok c) outcomes = refl

count_changed-next :
    (o : Outcome) (outcomes : List Outcome)
    → count_changed (o ∷ []) + count_changed outcomes ≡ count_changed (o ∷ outcomes)
count_changed-next (error e) outcomes = omega arith
count_changed-next (ok (before, after)) outcomes = ground arith

next-Done :
    (pkgs : List Candidate) (o : Outcome) (outcomes : List Outcome) (s m s' : Relabel)
    → Counts pkgs o s m
    → Done pkgs outcomes m s'
    → Done pkgs (o ∷ outcomes) s s'
next-Done pkgs o outcomes s m s' c d = record {
  stopped = d.stopped;
  same_pkgs = d.same_pkgs;
  all_relabeled = d.all_relabeled;
  kept_error =
      d.kept_error
      ∙ ap (λ e. earlier e (first_error outcomes)) c.kept_error
      ∙ earlier_assoc s.async_error (first_error (o ∷ [])) (first_error outcomes)
      ∙ ap (earlier s.async_error) (first_error-next o outcomes);
  changed = omega (arith, d.changed, c.changed, count_changed-next o outcomes);
}

wait_relabel-Done :
    (pkgs : List Candidate) (o : Outcome) (outcomes : List Outcome) (s : Relabel)
    → s.pkgs_to_relabel ≡ some pkgs
    → s.async_running ≡ true
    → s.n_async_pkgs_relabeled + length (o ∷ outcomes) ≡ length pkgs
    → s.n_changed_pkgs + length (o ∷ outcomes) < 2 ^ 32
    → (s' : Relabel) × (wait_relabel (o ∷ outcomes) (some s) ≡ some s')
      × Done pkgs (o ∷ outcomes) s s'
wait_relabel-Done pkgs o [] s p r h b =
    let c = next-Counts pkgs o s b in
    (
      next pkgs o s,
      wait_relabel-next pkgs o [] s p r (omega (arith, h)) ∙ unfold wait_relabel in refl,
      next-Done pkgs o [] s (next pkgs o s) (next pkgs o s) c (record {
        stopped = ground (arith, c.running, c.one_more, h);
        same_pkgs = c.same_pkgs ∙ p;
        all_relabeled = omega (arith, c.one_more, h);
        kept_error = earlier-none (next pkgs o s).async_error;
        changed = omega arith;
      }),
    )
wait_relabel-Done pkgs o (o' ∷ outcomes) s p r h b =
    let c = next-Counts pkgs o s (omega (arith, b)) in
    let (s', e, d) =
      wait_relabel-Done pkgs o' outcomes (next pkgs o s) (c.same_pkgs ∙ p)
        (ground (arith, c.running, c.one_more, h, r)) (omega (arith, c.one_more, h))
        (omega (arith, b, c.changed, count_changed-length (o ∷ []))) in
    (
      s',
      wait_relabel-next pkgs o (o' ∷ outcomes) s p r (omega (arith, h)) ∙ e,
      next-Done pkgs o (o' ∷ outcomes) s (next pkgs o s) s' c d,
    )

pub begun-Done :
    (pkgs : List Candidate) (outcomes : List Outcome) (s : Relabel)
    → s.pkgs_to_relabel ≡ some pkgs
    → s.n_async_pkgs_relabeled ≡ 0
    → 0 < length pkgs
    → length pkgs < 2 ^ 32
    → length outcomes ≡ length pkgs
    → (s' : Relabel) × (wait_relabel outcomes (some (begin_relabel s)) ≡ some s')
      × Done pkgs outcomes (begin_relabel s) s'
begun-Done pkgs [] s p z h b l = absurd (omega (arith, h, l))
begun-Done pkgs (o ∷ outcomes) s p z h b l =
    wait_relabel-Done pkgs o outcomes (begin_relabel s) p refl (omega (arith, z, l))
      (omega (arith, b, l))
